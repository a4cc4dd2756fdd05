-- ===== src/Thread/Handshake.antt =====
-- The constructor of Thread and Thread::run in atpdxy/thread.cpp, interleaved in any order.
pub mod Lifetime
use atpdxy.Common.{
  ℕ, ◌≡◌, refl, sym, ap, ◌∙◌, subst, Bool, true, false, Option, none, some, List, [], ◌∷◌, ◌++◌,
  if◌then◌else◌,
}
use atpdxy.Common.Bytes.{Bytes}
use atpdxy.Thread.{
  Locals, first_locals, new_thread, Maker, creating, waiting, returned, Runner, absent, sets_this,
  sets_name, sets_id, swaps, notifies, calls, finished, System, maker_step, runner_step, begin,
}

-- Whose turn it is.
pub data Turn : Type 0 where
  maker_turn runner_turn : Turn

module _ (cb : ℕ) (name : Bytes) (tid handle : ℕ) where
  unfoldable pub step : Turn → System → System
  unfolding maker_step runner_step
  step maker_turn s = maker_step 0 handle s.maker s
  step runner_turn s = runner_step tid s.runner s

  unfoldable pub run : List Turn → System → System
  unfolding step
  run [] s = s
  run (t ∷ ts) s = run ts (step t s)

  -- What the runner has set when it is in front of a statement.
  abbrev pub id_at : Runner → Option ℕ
  id_at absent = none
  id_at sets_this = none
  id_at sets_name = none
  id_at sets_id = none
  id_at _ = some tid

  abbrev pub locals_at : Runner → Locals
  locals_at absent = first_locals
  locals_at sets_this = first_locals
  locals_at sets_name = record first_locals { is_this = true }
  locals_at _ = record { is_this = true; thread_name = (new_thread cb name).name }

  -- Whether the callback has been taken, and called.
  abbrev pub is_taken : Runner → Bool
  is_taken notifies = true
  is_taken calls = true
  is_taken finished = true
  is_taken _ = false

  abbrev pub called_at : Runner → List (Option ℕ)
  called_at finished = some cb ∷ []
  called_at _ = []

  abbrev pub handle_at : Maker → Option ℕ
  handle_at creating = none
  handle_at _ = some handle

  abbrev pub semaphore_at : Maker → Runner → ℕ
  semaphore_at waiting calls = 1
  semaphore_at waiting finished = 1
  semaphore_at _ _ = 0

  -- The one state in which the two can be in front of these statements.
  abbrev pub state_at : Maker → Runner → System
  unfolding new_thread
  state_at m r = record {
    thread = record (new_thread cb name) {
      id = id_at r;
      handle = handle_at m;
      cb = if is_taken r then none else some cb;
      semaphore = semaphore_at m r;
    };
    maker = m;
    runner = r;
    locals = locals_at r;
    taken = if is_taken r then some cb else none;
    called = called_at r;
  }

  -- In front of which statements the two can be: the constructor is over only behind `notify`.
  abbrev pub Meet : Maker → Runner → Type 0
  Meet creating absent = Unit
  Meet waiting absent = ⊥
  Meet waiting r = Unit
  Meet returned calls = Unit
  Meet returned finished = Unit
  Meet _ _ = ⊥

  abbrev pub IsReached : System → Type 0
  IsReached s = (m : Maker) × (r : Runner) × Meet m r × (s ≡ state_at m r)

  step_at : (t : Turn) (m : Maker) (r : Runner) → Meet m r → IsReached (step t (state_at m r))
  unfolding step new_thread
  step_at maker_turn creating absent h = (waiting, sets_this, tt, refl)
  step_at maker_turn waiting sets_this h = (waiting, sets_this, tt, refl)
  step_at maker_turn waiting sets_name h = (waiting, sets_name, tt, refl)
  step_at maker_turn waiting sets_id h = (waiting, sets_id, tt, refl)
  step_at maker_turn waiting swaps h = (waiting, swaps, tt, refl)
  step_at maker_turn waiting notifies h = (waiting, notifies, tt, refl)
  step_at maker_turn waiting calls h = (returned, calls, tt, refl)
  step_at maker_turn waiting finished h = (returned, finished, tt, refl)
  step_at maker_turn returned calls h = (returned, calls, tt, refl)
  step_at maker_turn returned finished h = (returned, finished, tt, refl)
  step_at runner_turn creating absent h = (creating, absent, tt, refl)
  step_at runner_turn waiting sets_this h = (waiting, sets_name, tt, refl)
  step_at runner_turn waiting sets_name h = (waiting, sets_id, tt, refl)
  step_at runner_turn waiting sets_id h = (waiting, swaps, tt, refl)
  step_at runner_turn waiting swaps h = (waiting, notifies, tt, refl)
  step_at runner_turn waiting notifies h = (waiting, calls, tt, refl)
  step_at runner_turn waiting calls h = (waiting, finished, tt, refl)
  step_at runner_turn waiting finished h = (waiting, finished, tt, refl)
  step_at runner_turn returned calls h = (returned, finished, tt, refl)
  step_at runner_turn returned finished h = (returned, finished, tt, refl)
  step_at _ _ _ h = elim h [ ]

  run-IsReached : (ts : List Turn) (s : System) → IsReached s → IsReached (run ts s)
  unfolding run
  run-IsReached [] s h = h
  run-IsReached (t ∷ ts) s (m, r, meet, e) =
      run-IsReached ts (step t s) (subst (λ x. IsReached (step t x)) (sym e) (step_at t m r meet))

  begin-IsReached : IsReached (begin cb name)
  unfolding new_thread
  begin-IsReached = (creating, absent, tt, refl)

  -- What a constructor that is over has done.
  pub record IsMade (s : System) : Type 0 where
    pub id_eq : s.thread.id ≡ some tid
    pub handle_eq : s.thread.handle ≡ some handle
    pub cb_given : s.thread.cb ≡ none
    pub cb_taken : s.taken ≡ some cb
    pub locals_eq : s.locals ≡ record { is_this = true; thread_name = s.thread.name }

  state_at-IsMade : (m : Maker) (r : Runner) → Meet m r → m ≡ returned → IsMade (state_at m r)
  unfolding new_thread
  state_at-IsMade returned calls h e = record {
    id_eq = refl;
    handle_eq = refl;
    cb_given = refl;
    cb_taken = refl;
    locals_eq = refl;
  }
  state_at-IsMade returned finished h e = record {
    id_eq = refl;
    handle_eq = refl;
    cb_given = refl;
    cb_taken = refl;
    locals_eq = refl;
  }
  state_at-IsMade creating r h e = cc
  state_at-IsMade waiting r h e = cc
  state_at-IsMade _ _ h e = elim h [ ]

  -- Where pthread_create succeeds, in each interleaving of the constructor of Thread with the new
  -- thread: when the constructor is over, the id of the thread is set, its handle too, and the
  -- callback has been taken over, with `t_thread` and `t_thread_name` set.
  pub handshake :
      (ts : List Turn) → (run ts (begin cb name)).maker ≡ returned → IsMade (run ts (begin cb name))
  unfolding new_thread
  handshake ts e =
      let (m, r, meet, is) = run-IsReached ts (begin cb name) begin-IsReached in
      subst IsMade (sym is) (state_at-IsMade m r meet (ap (λ s. s.maker) (sym is) ∙ e))

  -- Enough turns for both from anywhere.
  abbrev pub round : List Turn
  round =
      maker_turn
      ∷ (runner_turn ∷ runner_turn ∷ runner_turn ∷ runner_turn ∷ runner_turn ∷ runner_turn
          ∷ maker_turn ∷ [])

  finish_at :
      (m : Maker) (r : Runner) → Meet m r → run round (state_at m r) ≡ state_at returned finished
  unfolding run new_thread
  finish_at creating absent h = refl
  finish_at waiting sets_this h = refl
  finish_at waiting sets_name h = refl
  finish_at waiting sets_id h = refl
  finish_at waiting swaps h = refl
  finish_at waiting notifies h = refl
  finish_at waiting calls h = refl
  finish_at waiting finished h = refl
  finish_at returned calls h = refl
  finish_at returned finished h = refl
  finish_at _ _ h = elim h [ ]

  run-append : (ts us : List Turn) (s : System) → run (ts ++ us) s ≡ run us (run ts s)
  unfolding run
  run-append [] us s = refl
  run-append (t ∷ ts) us s = run-append ts us (step t s)

  -- Where pthread_create succeeds, from each point of each interleaving of the constructor of
  -- Thread with the new thread, eight more turns in a fixed order end the constructor, and the
  -- callback has been called exactly once.
  pub handshake_ends :
      (ts : List Turn)
      → ((run (ts ++ round) (begin cb name)).maker ≡ returned)
        × ((run (ts ++ round) (begin cb name)).called ≡ some cb ∷ [])
  unfolding new_thread
  handshake_ends ts =
      let (m, r, meet, is) = run-IsReached ts (begin cb name) begin-IsReached in
      let e = run-append ts round (begin cb name) ∙ ap (run round) is ∙ finish_at m r meet in
      (ap (λ s. s.maker) e, ap (λ s. s.called) e)
