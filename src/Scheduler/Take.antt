-- ===== src/Scheduler/Take.antt =====
-- The inner loop of Scheduler::run in atpdxy/scheduler.cpp: which task a thread takes.
use atpdxy.Common.{
  ℕ, ◌≡◌, refl, sym, ap, ◌∙◌, subst, ◌⊎◌, inl, inr, Bool, true, false, ◌||◌, Option, none, some,
  List, [], ◌∷◌, ◌++◌, arith, Bool-cases, All,
}
use atpdxy.Common.Result.{ok, >>=-eq-ok, ok-injective}
use mathlib.Core.Option.{some-injective}
use atpdxy.Fiber.{State}
use atpdxy.Scheduler.{has_work, is_elsewhere, runs_already, pass, pick, Task, Pick}

-- The thread passes over the task: it is another thread's, or its fiber runs.
abbrev pub IsPassed : ℕ → (ℕ → State) → Task → Type 0
IsPassed tid state t = (is_elsewhere tid t.thread || runs_already state t.fiber) ≡ true

abbrev pub IsWork : Task → Type 0
IsWork t = has_work t ≡ true

-- The thread may run the task: it is nobody's or its own, has work, and its fiber does not run.
pub record Suits (tid : ℕ) (state : ℕ → State) (t : Task) : Type 0 where
  pub thread_eq : (t.thread ≡ none) ⊎ (t.thread ≡ some tid)
  pub is_work : IsWork t
  pub not_exec : runs_already state t.fiber ≡ false

-- The first task that suits is taken out of the queue, and the others keep their order; or none
-- suits, and the queue is as it was. A tickle follows if a task is taken or another's passed over.
pub data Picks (tid : ℕ) (state : ℕ → State) (ts : List Task) (r : Pick) : Type 0 where
  found :
      (t : Task) (pre post : List Task)
      → ts ≡ pre ++ (t ∷ post)
      → All (IsPassed tid state) pre
      → Suits tid state t
      → r.taken ≡ some t
      → r.left ≡ pre ++ post
      → r.tickle_me ≡ true
      → Picks tid state ts r
  nothing : All (IsPassed tid state) ts → r.taken ≡ none → r.left ≡ ts → Picks tid state ts r

not_elsewhere : (tid : ℕ) (o : Option ℕ) → is_elsewhere tid o ≡ false → (o ≡ none) ⊎ (o ≡ some tid)
not_elsewhere tid none h = inl refl
not_elsewhere tid (some t) h = inr (ground arith)

pass-Picks :
    (tid : ℕ) (state : ℕ → State) (t : Task) (b : Bool) (ts : List Task) (r : Pick)
    → IsPassed tid state t
    → Picks tid state ts r
    → Picks tid state (t ∷ ts) (pass t b r)
unfolding pass
pass-Picks tid state t b ts r h (found u pre post e ps s k l q) =
    found u (t ∷ pre) post (ap (◌∷◌ t) e) (h, ps) s k (ap (◌∷◌ t) l) (rw q (ground arith))
pass-Picks tid state t b ts r h (nothing ps k l) = nothing (h, ps) k (ap (◌∷◌ t) l)

-- When the inner loop ends without a failed assertion, either it took the first task that the
-- thread may run (for any thread or this one, with work, its fiber not running), all tasks in
-- front of it being another thread's or running already, and left the other tasks in order, with
-- a tickle due; or every task of the queue is another thread's or running already, and the queue
-- is left as it was.
pub pick-Picks :
    (tid : ℕ) (state : ℕ → State) (ts : List Task) {r : Pick}
    → pick tid state ts ≡ ok r
    → Picks tid state ts r
unfolding pick
pick-Picks tid state [] {r} h = subst (Picks tid state []) (ok-injective h) (nothing tt refl refl)
pick-Picks tid state (t ∷ ts) {r} h = elim (Bool-cases (is_elsewhere tid t.thread)) [
  | inl e ↦
      let (q, eq, k) = >>=-eq-ok (pick tid state ts) (λ r. ok (pass t true r)) (rw e at h) in
      subst (Picks tid state (t ∷ ts)) (ok-injective k)
        (pass-Picks tid state t true ts q (rw e) (pick-Picks tid state ts eq))
  | inr e ↦ elim (Bool-cases (has_work t)) [
    | inr w ↦ absurd (cc (rw (e, w) at h))
    | inl w ↦ elim (Bool-cases (runs_already state t.fiber)) [
      | inl x ↦
          let (q, eq, k) =
            >>=-eq-ok (pick tid state ts) (λ r. ok (pass t false r)) (rw (e, w, x) at h) in
          subst (Picks tid state (t ∷ ts)) (ok-injective k)
            (pass-Picks tid state t false ts q (rw (e, x)) (pick-Picks tid state ts eq))
      | inr x ↦ subst (Picks tid state (t ∷ ts)) (ok-injective (rw (e, w, x) at h)) (
          found t [] ts refl tt
            (record { thread_eq = not_elsewhere tid t.thread e; is_work = w; not_exec = x }) refl
            refl refl)
    ]
  ]
]

-- On a queue in which every task has a fiber or a callback, the inner loop ends and its assertion
-- does not fail.
pub pick_total :
    (tid : ℕ) (state : ℕ → State) (ts : List Task)
    → All IsWork ts
    → (r : Pick) × (pick tid state ts ≡ ok r)
unfolding pick
pick_total tid state [] h = (_, refl)
pick_total tid state (t ∷ ts) h =
    let (q, e) = pick_total tid state ts h.1 in
    elim (Bool-cases (is_elsewhere tid t.thread)) [
      | inl a ↦ (pass t true q, rw (a, e))
      | inr a ↦ elim (Bool-cases (runs_already state t.fiber)) [
        | inl x ↦ (pass t false q, rw (a, h.0, x, e))
        | inr x ↦ (record { taken = some t; left = ts; tickle_me = true }, rw (a, h.0, x))
      ]
    ]

-- What is taken suits the thread.
pub taken-Suits :
    {tid : ℕ} {state : ℕ → State} {ts : List Task} {r : Pick} {t : Task}
    → Picks tid state ts r
    → r.taken ≡ some t
    → Suits tid state t
taken-Suits {tid} {state} (found u pre post _ _ s k _ _) e =
    subst (Suits tid state) (some-injective u _ (sym k ∙ e)) s
taken-Suits (nothing _ k _) e = absurd (cc)
