-- ===== src/Mutex/Order/Stuck.antt =====
-- A thread that is to take a mutex alone which it holds already waits for itself.
use atpdxy.Common.{
  ℕ, ◌<◌, ◌≡◌, refl, sym, ap, ◌∙◌, subst, Bool, true, false, List, [], ◌∷◌, ◌==◌, ==_iff,
  Bool-cases, inl, inr,
}
use atpdxy.Mutex.Order.{
  Act, takes, gives, exclusive, Thread, Threads, holds, bars, Step, step_takes, step_gives, move,
}

module _ {L : Type 0} (same : L → L → Bool) (Starts : List (Act L) → Type 0) (n : ℕ) where
  -- What threads do from some state on, in their operations and by starting new ones.
  pub data Runs (s : Threads L) : Threads L → Type 0 where
    here : Runs s s
    steps : {t u : Threads L} → Runs s t → Step same n t u → Runs s u
    starts :
        {t : Threads L} (i : ℕ) (acts : List (Act L))
        → Runs s t
        → i < n
        → (t i).todo ≡ []
        → Starts acts
        → Runs s (move i (record { todo = acts; held = (t i).held }) t)

  module _ (i : ℕ) (lt : i < n) (l : L) (acts : List (Act L)) where
    Step-waits :
        {s t : Threads L}
        → Step same n s t
        → (s i).todo ≡ takes exclusive l ∷ acts
        → holds same l (s i).held ≡ true
        → t i ≡ s i
    unfolding bars
    Step-waits {s = s} (step_takes j m k more ltj e free) todo held = elim (Bool-cases (j == i)) [
      | inl at ↦
          let mine : (s i).todo ≡ takes m k ∷ more =
            subst (λ p. (s p).todo ≡ takes m k ∷ more) ((==_iff j i).0 at) e in
          let alone : m ≡ exclusive = cc in
          let same_mutex : k ≡ l = cc in
          let barred : bars same exclusive l (s i).held ≡ false =
            subst (λ x. bars same x l (s i).held ≡ false) alone
              (subst (λ x. bars same m x (s i).held ≡ false) same_mutex (free i lt)) in
          absurd (cc)
      | inr at ↦ rw at refl
    ]
    Step-waits {s = s} (step_gives j m k ks more ltj e h) todo held = elim (Bool-cases (j == i)) [
      | inl at ↦
          let mine = subst (λ p. (s p).todo ≡ gives k ∷ more) ((==_iff j i).0 at) e in absurd (cc)
      | inr at ↦ rw at refl
    ]

    -- It stays where it is, whatever the others do.
    pub Runs-waits :
        {s t : Threads L}
        → Runs s t
        → (s i).todo ≡ takes exclusive l ∷ acts
        → holds same l (s i).held ≡ true
        → t i ≡ s i
    Runs-waits here todo held = refl
    Runs-waits {s = s} (steps {t = t} {u = u} r st) todo held =
        let e = Runs-waits r todo held in
        Step-waits st (ap (λ (x : Thread L). x.todo) e ∙ todo)
          (subst (λ (x : Thread L). holds same l x.held ≡ true) (sym e) held)
        ∙ e
    Runs-waits {s = s} (starts {t = t} j more r ltj idle start) todo held =
        let e = Runs-waits r todo held in
        elim (Bool-cases (j == i)) [
          | inl at ↦ let mine = subst (λ p. (t p).todo ≡ []) ((==_iff j i).0 at) idle in absurd (cc)
          | inr at ↦ rw at e
        ]
