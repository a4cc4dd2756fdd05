-- ===== src/Thread/Handshake/Lifetime.antt =====
-- How long a Thread of atpdxy/thread.cpp is there while its `run` uses it: the constructor gives it
-- to an owner, who may destroy it, and ends with an exception where sem_wait is interrupted.
use atpdxy.Common.{
  ℕ, ◌≡◌, refl, sym, ap, ◌∙◌, subst, Bool, true, false, not, ◌&&◌, ◌||◌, List, [], ◌∷◌, ◌++◌, arith,
  ◌==◌, if◌then◌else◌, inl, inr, Bool-cases,
}
use atpdxy.Common.Bytes.{Bytes}
use atpdxy.Thread.{
  new_thread, Maker, creating, waiting, returned, threw, Runner, absent, sets_this, sets_name,
  sets_id, swaps, notifies, calls, finished, System, maker_step, runner_step, begin,
}
use atpdxy.Thread.Handshake.{
  Turn, maker_turn, runner_turn, step, state_at, Meet, semaphore_at, IsReached, step_at,
  begin-IsReached,
}

-- Whether the Thread is there, and whether `run` has used it when it was not.
pub record Object : Type 0 where
  pub system : System
  pub is_there : Bool
  pub misused : Bool

-- The statements of `run` that use the Thread behind its pointer.
abbrev pub uses_thread : Runner → Bool
uses_thread absent = false
uses_thread sets_this = false
uses_thread calls = false
uses_thread finished = false
uses_thread _ = true

abbrev is_returned : Maker → Bool
is_returned returned = true
is_returned _ = false

abbrev is_waiting : Maker → Bool
is_waiting waiting = true
is_waiting _ = false

-- A turn of the constructor or of `run`, the owner's destruction of the Thread, and a signal handler
-- that interrupts sem_wait.
pub data Event : Type 0 where
  turns : Turn → Event
  destroys interrupts : Event

module _ (cb : ℕ) (name : Bytes) (tid handle : ℕ) where
  pub happen : Event → Object → Object
  happen (turns maker_turn) o = record o { system = step cb name tid handle maker_turn o.system }
  happen (turns runner_turn) o = record o {
    system = step cb name tid handle runner_turn o.system;
    misused = o.misused || (uses_thread o.system.runner && not o.is_there);
  }
  happen destroys o = if is_returned o.system.maker then record o { is_there = false } else o
  happen interrupts o =
      if is_waiting o.system.maker && (o.system.thread.semaphore == 0)
      then record o { system = record o.system { maker = threw }; is_there = false }
      else o

  unfoldable pub happen_all : List Event → Object → Object
  unfolding happen
  happen_all [] o = o
  happen_all (e ∷ es) o = happen_all es (happen e o)

  abbrev pub new_object : Object
  new_object = record { system = begin cb name; is_there = true; misused = false }

  -- No sem_wait is interrupted.
  abbrev pub AreUninterrupted : List Event → Type 0
  AreUninterrupted [] = Unit {0}
  AreUninterrupted (interrupts ∷ es) = ⊥
  AreUninterrupted (e ∷ es) = AreUninterrupted es

  record IsFine (o : Object) : Type 0 where
    reached : IsReached cb name tid handle o.system
    gone_after : o.is_there ≡ false → o.system.maker ≡ returned
    not_misused : o.misused ≡ false

  runner_step-maker : (r : Runner) (s : System) → (runner_step tid r s).maker ≡ s.maker
  unfolding runner_step
  runner_step-maker absent s = refl
  runner_step-maker sets_this s = refl
  runner_step-maker sets_name s = refl
  runner_step-maker sets_id s = refl
  runner_step-maker swaps s = refl
  runner_step-maker notifies s = refl
  runner_step-maker calls s = refl
  runner_step-maker finished s = refl

  maker_step-returned :
      (m : Maker) (s : System)
      → m ≡ returned
      → s.maker ≡ returned
      → (maker_step 0 handle m s).maker ≡ returned
  unfolding maker_step
  maker_step-returned creating s e h = cc
  maker_step-returned waiting s e h = cc
  maker_step-returned returned s e h = h
  maker_step-returned threw s e h = h

  uses_returned :
      (m : Maker) (r : Runner) → Meet cb name tid handle m r → m ≡ returned → uses_thread r ≡ false
  uses_returned returned calls h e = refl
  uses_returned returned finished h e = refl
  uses_returned creating r h e = cc
  uses_returned waiting r h e = cc
  uses_returned _ _ h e = elim h [ ]

  step-IsReached :
      (t : Turn) (s : System)
      → IsReached cb name tid handle s
      → IsReached cb name tid handle (step cb name tid handle t s)
  step-IsReached t s (m, r, meet, e) =
      subst (λ x. IsReached cb name tid handle (step cb name tid handle t x)) (sym e)
        (step_at cb name tid handle t m r meet)

  reached-uses :
      (s : System)
      → IsReached cb name tid handle s
      → s.maker ≡ returned
      → uses_thread s.runner ≡ false
  unfolding state_at new_thread
  reached-uses s (m, r, meet, e) h =
      ap (λ x. uses_thread x.runner) e ∙ uses_returned m r meet (ap (λ x. x.maker) (sym e) ∙ h)

  is_returned-eq : (m : Maker) → is_returned m ≡ true → m ≡ returned
  is_returned-eq returned e = refl
  is_returned-eq creating e = cc
  is_returned-eq waiting e = cc
  is_returned-eq threw e = cc

  happen-IsFine :
      (e : Event) (o : Object) → AreUninterrupted (e ∷ []) → IsFine o → IsFine (happen e o)
  unfolding happen step
  happen-IsFine (turns maker_turn) o q h = record {
    reached = step-IsReached maker_turn o.system h.reached;
    gone_after = λ e. maker_step-returned o.system.maker o.system (h.gone_after e) (h.gone_after e);
    not_misused = h.not_misused;
  }
  happen-IsFine (turns runner_turn) o q h = record {
    reached = step-IsReached runner_turn o.system h.reached;
    gone_after = λ e. runner_step-maker o.system.runner o.system ∙ h.gone_after e;
    not_misused = elim (Bool-cases o.is_there) [
      | inl there ↦ rw (h.not_misused, there) (ground arith)
      | inr gone ↦ rw (h.not_misused, reached-uses o.system h.reached (h.gone_after gone)) refl
    ];
  }
  happen-IsFine destroys o q h = elim (Bool-cases (is_returned o.system.maker)) [
    | inl e ↦ rw e (record {
      reached = h.reached;
      gone_after = λ g. is_returned-eq o.system.maker e;
      not_misused = h.not_misused;
    })
    | inr e ↦ rw e h
  ]
  happen-IsFine interrupts o q h = elim q [ ]

  happen_all-IsFine :
      (es : List Event) (o : Object) → AreUninterrupted es → IsFine o → IsFine (happen_all es o)
  unfolding happen_all
  happen_all-IsFine [] o q h = h
  happen_all-IsFine (turns t ∷ es) o q h =
      happen_all-IsFine es (happen (turns t) o) q (happen-IsFine (turns t) o tt h)
  happen_all-IsFine (destroys ∷ es) o q h =
      happen_all-IsFine es (happen destroys o) q (happen-IsFine destroys o tt h)
  happen_all-IsFine (interrupts ∷ es) o q h = elim q [ ]

  new_object-IsFine : IsFine new_object
  new_object-IsFine = record {
    reached = begin-IsReached cb name tid handle;
    gone_after = λ e. cc;
    not_misused = refl;
  }

  -- Where pthread_create succeeds and sem_wait is not interrupted: however the constructor, `run`
  -- and the owner, who may destroy the Thread when the constructor has returned, take their
  -- turns, `run` never uses the Thread when it is gone.
  pub uses_while_there :
      (es : List Event) → AreUninterrupted es → (happen_all es new_object).misused ≡ false
  uses_while_there es q = (happen_all-IsFine es new_object q new_object-IsFine).not_misused

  happen_all-append :
      (es fs : List Event) (o : Object) → happen_all (es ++ fs) o ≡ happen_all fs (happen_all es o)
  unfolding happen_all
  happen_all-append [] fs o = refl
  happen_all-append (e ∷ es) fs o = happen_all-append es fs (happen e o)

  -- A signal handler interrupts sem_wait, and `run` has two turns.
  abbrev pub interruption : List Event
  interruption = interrupts ∷ turns runner_turn ∷ turns runner_turn ∷ []

  interrupted_at :
      (m : Maker) (r : Runner) (there : Bool)
      → Meet cb name tid handle m r
      → m ≡ waiting
      → semaphore_at cb name tid handle m r ≡ 0
      → (happen_all interruption (record {
        system = state_at cb name tid handle m r;
        is_there = there;
        misused = false;
      })).misused
        ≡ true
  unfolding happen_all step new_thread runner_step
  interrupted_at waiting sets_this there meet e z = refl
  interrupted_at waiting sets_name there meet e z = refl
  interrupted_at waiting sets_id there meet e z = refl
  interrupted_at waiting swaps there meet e z = refl
  interrupted_at waiting notifies there meet e z = refl
  interrupted_at waiting calls there meet e z = absurd (omega (arith, z))
  interrupted_at waiting finished there meet e z = absurd (omega (arith, z))
  interrupted_at creating r there meet e z = cc
  interrupted_at returned r there meet e z = cc
  interrupted_at _ _ there meet e z = elim meet [ ]

  -- Where pthread_create succeeds: however the constructor, `run` and the owner have taken their
  -- turns, where a signal handler interrupts sem_wait while the constructor waits and `run` has
  -- not called `notify` yet, `run` uses a Thread that is gone in one of its next two statements.
  pub misused_after_interrupt :
      (es : List Event)
      → AreUninterrupted es
      → (happen_all es new_object).system.maker ≡ waiting
      → (happen_all es new_object).system.thread.semaphore ≡ 0
      → (happen_all (es ++ interruption) new_object).misused ≡ true
  unfolding new_thread
  misused_after_interrupt es q waits zero =
      let o = happen_all es new_object in
      let fine = happen_all-IsFine es new_object q new_object-IsFine in
      let (m, r, meet, e) = fine.reached in
      ap (λ x. x.misused) (happen_all-append es interruption new_object)
      ∙ ap (λ x. (happen_all interruption (record o { misused = x })).misused) fine.not_misused
      ∙ ap
          (λ x.
            (happen_all interruption
              (record { system = x; is_there = o.is_there; misused = false })).misused)
          e
      ∙ interrupted_at m r o.is_there meet (ap (λ x. x.maker) (sym e) ∙ waits)
          (ap (λ x. x.thread.semaphore) (sym e) ∙ zero)
