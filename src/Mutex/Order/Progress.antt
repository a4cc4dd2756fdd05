-- ===== src/Mutex/Order/Progress.antt =====
-- Threads that take mutexes in the order of their ranks: no two hold the same one, and they do not
-- wait for each other in a circle.
use atpdxy.Common.{
  ℕ, zero, suc, ◌+◌, ◌≤◌, ◌<◌, ◌≡◌, refl, sym, ap, ◌∙◌, subst, ◌↔◌, ◌⊎◌, inl, inr, Bool, true,
  false, List, [], ◌∷◌, All, arith, ◌==◌, ==_iff, Bool-cases,
}
use atpdxy.Mutex.Order.{
  Access, exclusive, shared, owns, bars, Act, takes, gives, Thread, Threads, holds, Exclusive,
  Ordered, Step, step_takes, step_gives, Reach, begin, steps, starts, move,
}

module _ {L : Type 0} (same : L → L → Bool) (rank : L → ℕ)
    (same_iff : (k l : L) → (same k l ≡ true) ↔ (k ≡ l)) where
  abbrev pub IsOrdered : Threads L → Type 0
  IsOrdered s = (i : ℕ) → Ordered rank (s i).held (s i).todo

  move-IsOrdered :
      (i : ℕ) (t : Thread L) (s : Threads L)
      → Ordered rank t.held t.todo
      → IsOrdered s
      → IsOrdered (move i t s)
  move-IsOrdered i t s h o j = elim (Bool-cases (i == j)) [ inl e ↦ rw e h | inr e ↦ rw e (o j) ]

  Ordered-gives :
      (ks held : List (Access × L)) (m : Access) (l : L) (acts : List (Act L))
      → held ≡ (m, l) ∷ ks
      → Ordered rank held (gives l ∷ acts)
      → Ordered rank ks acts
  Ordered-gives ks [] m l acts e h = elim h [ ]
  Ordered-gives ks (k ∷ held) m l acts e h = subst (λ x. Ordered rank x acts) (cc) h.1

  Step-IsOrdered : {n : ℕ} {s t : Threads L} → Step same n s t → IsOrdered s → IsOrdered t
  Step-IsOrdered {s = s} (step_takes i m l acts lt e free) o =
      move-IsOrdered i (record { todo = acts; held = (m, l) ∷ (s i).held }) s
        (subst (Ordered rank (s i).held) e (o i)).1 o
  Step-IsOrdered {s = s} (step_gives i m l ks acts lt e h) o =
      move-IsOrdered i (record { todo = acts; held = ks }) s
        (Ordered-gives ks (s i).held m l acts h (subst (Ordered rank (s i).held) e (o i))) o

  owns-holds : (l : L) (ks : List (Access × L)) → owns same l ks ≡ true → holds same l ks ≡ true
  unfolding owns holds
  owns-holds l [] h = cc
  owns-holds l ((exclusive, k) ∷ ks) h = ground (arith, owns-holds l ks)
  owns-holds l ((shared, k) ∷ ks) h = ground (arith, owns-holds l ks)

  bars-holds :
      (m : Access) (l : L) (ks : List (Access × L))
      → bars same m l ks ≡ true
      → holds same l ks ≡ true
  unfolding bars
  bars-holds exclusive l ks h = h
  bars-holds shared l ks h = owns-holds l ks h

  free_at :
      (m : Access) (l k : L) (ks : List (Access × L))
      → bars same m l ks ≡ false
      → same l k ≡ true
      → bars same m k ks ≡ false
  free_at m l k ks free e = subst (λ x. bars same m x ks ≡ false) ((same_iff l k).0 e) free

  Step-Exclusive :
      {n : ℕ} {s t : Threads L} → Step same n s t → Exclusive same n s → Exclusive same n t
  unfolding holds owns bars
  Step-Exclusive {n = n} {s = s} (step_takes i exclusive l acts lt e free) ex j k x ltj ltk hj hk =
      ground (
        arith,
        ex j k x,
        free_at exclusive l x (s j).held (free j ltj),
        free_at exclusive l x (s k).held (free k ltk),
        owns-holds x (s j).held,
      )
  Step-Exclusive {n = n} {s = s} (step_takes i shared l acts lt e free) ex j k x ltj ltk hj hk =
      ground (arith, ex j k x, free_at shared l x (s j).held (free j ltj))
  Step-Exclusive {n = n} {s = s} (step_gives i exclusive l ks acts lt e h) ex j k x ltj ltk hj hk =
      ground (arith, ex j k x, h)
  Step-Exclusive {n = n} {s = s} (step_gives i shared l ks acts lt e h) ex j k x ltj ltk hj hk =
      ground (arith, ex j k x, h)

  -- A thread that bars others from a mutex, or none does.
  find_holder :
      (n : ℕ) (m : Access) (l : L) (s : Threads L)
      → ((j : ℕ) × (j < n) × (bars same m l (s j).held ≡ true))
        ⊎ ((j : ℕ) → j < n → bars same m l (s j).held ≡ false)
  find_holder zero m l s = inr (λ j lt. absurd (omega (arith, lt)))
  find_holder (suc n) m l s = elim (find_holder n m l s) [
    | inl (j, lt, h) ↦ inl (j, omega (arith, lt), h)
    | inr none_below ↦ elim (Bool-cases (bars same m l (s n).held)) [
      | inl e ↦ inl (n, omega arith, e)
      | inr e ↦ inr (λ j lt. elim (Bool-cases (j == n)) [
        | inl at ↦ rw ((==_iff j n).0 at) e
        | inr at ↦ none_below j (ground (arith, lt, at))
      ])
    ]
  ]

  rank-lt :
      (l m : L) (ks : List (Access × L))
      → holds same l ks ≡ true
      → All (λ k. rank k.1 < rank m) ks
      → rank l < rank m
  unfolding holds
  rank-lt l m [] h all = cc
  rank-lt l m (k ∷ ks) h all = elim (Bool-cases (same k.1 l)) [
    | inl e ↦ subst (λ x. rank x < rank m) ((same_iff k.1 l).0 e) all.0
    | inr e ↦ rank-lt l m ks (rw e at h) all.1
  ]

  -- Some thread can take a step.
  abbrev pub CanStep : ℕ → Threads L → Type 0
  CanStep n s = (t : Threads L) × Step same n s t

  give_next :
      (n i : ℕ) (s : Threads L) (ks : List (Access × L)) (l : L) (acts : List (Act L))
      → i < n
      → (s i).held ≡ ks
      → (s i).todo ≡ gives l ∷ acts
      → Ordered rank ks (gives l ∷ acts)
      → CanStep n s
  give_next n i s [] l acts lt h e o = elim o [ ]
  give_next n i s (k ∷ ks) l acts lt h e o = (
    move i (record { todo = acts; held = ks }) s,
    step_gives i k.0 l ks acts lt e (h ∙ ap (λ x. (k.0, x) ∷ ks) o.0),
  )

  holder_busy : (l : L) (ks : List (Access × L)) → holds same l ks ≡ true → Ordered rank ks [] → ⊥
  unfolding holds
  holder_busy l [] h o = cc
  holder_busy l (k ∷ ks) h o = o

  -- The thread that holds a mutex can give one back, or is to take one of a higher rank.
  follow_holder :
      (n j : ℕ) (s : Threads L) (l : L) (todo : List (Act L))
      → IsOrdered s
      → j < n
      → holds same l (s j).held ≡ true
      → (s j).todo ≡ todo
      → ((d : Access) (m : L) (acts : List (Act L))
          → rank l < rank m
          → (s j).todo ≡ takes d m ∷ acts
          → CanStep n s)
      → CanStep n s
  follow_holder n j s l [] o lt h e next =
      absurd (holder_busy l (s j).held h (subst (Ordered rank (s j).held) e (o j)))
  follow_holder n j s l (gives m ∷ acts) o lt h e next =
      give_next n j s (s j).held m acts lt refl e (subst (Ordered rank (s j).held) e (o j))
  follow_holder n j s l (takes d m ∷ acts) o lt h e next =
      next d m acts (rank-lt l m (s j).held h (subst (Ordered rank (s j).held) e (o j)).0) e

  -- From a thread that is to take a mutex to the one that holds it, and so on.
  follow :
      (n most : ℕ) (s : Threads L)
      → ((l : L) → rank l ≤ most)
      → IsOrdered s
      → (fuel i : ℕ) (m : Access) (l : L) (acts : List (Act L)) → most < rank l + fuel
      → i < n
      → (s i).todo ≡ takes m l ∷ acts
      → CanStep n s
  follow n most s bound o zero i m l acts enough lt e = absurd (omega (arith, bound l, enough))
  follow n most s bound o (suc fuel) i m l acts enough lt e = elim (find_holder n m l s) [
    | inl (j, ltj, h) ↦
        follow_holder n j s l (s j).todo o ltj (bars-holds m l (s j).held h) refl
          (λ d k more higher todo.
            follow n most s bound o fuel j d k more (omega (arith, enough, higher)) ltj todo)
    | inr free ↦ (
      move i (record { todo = acts; held = (m, l) ∷ (s i).held }) s,
      step_takes i m l acts lt e free,
    )
  ]

  pub busy-CanStep :
      (n most : ℕ) (s : Threads L)
      → ((l : L) → rank l ≤ most)
      → IsOrdered s
      → (i : ℕ) (a : Act L) (acts : List (Act L)) → i < n
      → (s i).todo ≡ a ∷ acts
      → CanStep n s
  busy-CanStep n most s bound o i (takes m l) acts lt e =
      follow n most s bound o (suc most) i m l acts (omega arith) lt e
  busy-CanStep n most s bound o i (gives l) acts lt e =
      give_next n i s (s i).held l acts lt refl e (subst (Ordered rank (s i).held) e (o i))

  module _ (Starts : List (Act L) → Type 0)
      (orderly : (acts : List (Act L)) → Starts acts → Ordered rank [] acts) (n : ℕ) where
    pub todo_nil : (ks : List (Access × L)) → Ordered rank ks [] → ks ≡ []
    todo_nil [] o = refl
    todo_nil (k ∷ ks) o = elim o [ ]

    pub Reach-IsOrdered : {s : Threads L} → Reach same Starts n s → IsOrdered s
    Reach-IsOrdered begin = λ i. tt
    Reach-IsOrdered (steps r st) = Step-IsOrdered st (Reach-IsOrdered r)
    Reach-IsOrdered (starts {s = s} i acts r lt e start) =
        let o = Reach-IsOrdered r in
        let free : (s i).held ≡ [] =
          todo_nil (s i).held (subst (Ordered rank (s i).held) e (o i)) in
        move-IsOrdered i (record { todo = acts; held = (s i).held }) s
          (subst (λ ks. Ordered rank ks acts) (sym free) (orderly acts start)) o

    pub Reach-Exclusive : {s : Threads L} → Reach same Starts n s → Exclusive same n s
    unfolding holds owns
    Reach-Exclusive begin = λ i j l lti ltj hi hj. cc
    Reach-Exclusive (steps r st) = Step-Exclusive st (Reach-Exclusive r)
    Reach-Exclusive (starts {s = s} i acts r lt e start) =
        λ j k l ltj ltk hj hk. ground (arith, Reach-Exclusive r j k l)
