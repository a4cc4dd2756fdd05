-- ===== src/Mutex/Order/Finish.antt =====
-- Threads that take mutexes in the order of their ranks can all end their operations.
use atpdxy.Common.{
  ℕ, zero, suc, ◌+◌, ◌≤◌, ◌<◌, ◌≡◌, refl, sym, ap, subst, ◌↔◌, ◌⊎◌, inl, inr, Bool, true, List, [],
  ◌∷◌, arith, ◌==◌, ==_iff, Bool-cases, length, List-cases,
}
use atpdxy.Mutex.Order.{
  Act, Thread, Threads, AllIdle, Ordered, Step, step_takes, step_gives, Steps, here, later, Reach,
  steps, move,
}
use atpdxy.Mutex.Order.Progress.{busy-CanStep, todo_nil, Reach-IsOrdered}

-- The calls that the threads have left to make in their operations.
total : {L : Type 0} → ℕ → Threads L → ℕ
total zero s = 0
total (suc n) s = length (s n).todo + total n s

total-move_above :
    {L : Type 0} (n i : ℕ) (t : Thread L) (s : Threads L) → n ≤ i → total n (move i t s) ≡ total n s
unfolding total
total-move_above zero i t s h = refl
total-move_above (suc n) i t s h = ground (arith, total-move_above n i t s)

total-move :
    {L : Type 0} (n i : ℕ) (t : Thread L) (s : Threads L)
    → i < n
    → suc (length t.todo) ≡ length (s i).todo
    → suc (total n (move i t s)) ≡ total n s
unfolding total
total-move zero i t s lt e = absurd (omega (arith, lt))
total-move (suc n) i t s lt e = elim (Bool-cases (i == n)) [
  | inl at ↦
      let same : i ≡ n = (==_iff i n).0 at in
      rw (at, total-move_above n i t s (omega (arith, same)))
        (omega (arith, e, ap (λ j. length (s j).todo) same))
  | inr at ↦ rw at (omega (arith, total-move n i t s (ground (arith, lt, at)) e))
]

find_busy :
    {L : Type 0} (n : ℕ) (s : Threads L)
    → ((i : ℕ) × (i < n) × (a : Act L) × (acts : List (Act L)) × ((s i).todo ≡ a ∷ acts))
      ⊎ ((i : ℕ) → i < n → (s i).todo ≡ [])
find_busy zero s = inr (λ i lt. absurd (omega (arith, lt)))
find_busy (suc n) s = elim (find_busy n s) [
  | inl (i, lt, a, acts, e) ↦ inl (i, omega (arith, lt), a, acts, e)
  | inr all_idle ↦ elim (List-cases (s n).todo) [
    | inr (a, acts, e) ↦ inl (n, omega arith, a, acts, e)
    | inl e ↦ inr (λ i lt. elim (Bool-cases (i == n)) [
      | inl at ↦ rw ((==_iff i n).0 at) e
      | inr at ↦ all_idle i (ground (arith, lt, at))
    ])
  ]
]

module _ {L : Type 0} (same : L → L → Bool) where
  Step-total : {n : ℕ} {s t : Threads L} → Step same n s t → suc (total n t) ≡ total n s
  Step-total {n = n} {s = s} (step_takes i m l acts lt e free) =
      total-move n i (record { todo = acts; held = (m, l) ∷ (s i).held }) s lt (sym (ap length e))
  Step-total {n = n} {s = s} (step_gives i m l ks acts lt e h) =
      total-move n i (record { todo = acts; held = ks }) s lt (sym (ap length e))

  pub before : {n : ℕ} {s t u : Threads L} → Step same n s t → Steps same n t u → Steps same n s u
  before st here = later here st
  before st (later more last) = later (before st more) last

module _ {L : Type 0} (same : L → L → Bool) (rank : L → ℕ)
    (same_iff : (k l : L) → (same k l ≡ true) ↔ (k ≡ l)) (most : ℕ)
    (bound : (l : L) → rank l ≤ most) (Starts : List (Act L) → Type 0)
    (orderly : (acts : List (Act L)) → Starts acts → Ordered rank [] acts) (n : ℕ) where
  idle-AllIdle :
      (s : Threads L) → Reach same Starts n s → ((i : ℕ) → i < n → (s i).todo ≡ []) → AllIdle n s
  idle-AllIdle s r h i lt =
      let o = Reach-IsOrdered same rank same_iff Starts orderly n r i in
      (
        h i lt,
        todo_nil same rank same_iff Starts orderly n (s i).held
            (subst (Ordered rank (s i).held) (h i lt) o),
      )

  finish_in :
      (left : ℕ) (s : Threads L)
      → Reach same Starts n s
      → total n s ≡ left
      → (t : Threads L) × Steps same n s t × AllIdle n t
  finish_in zero s r e = elim (find_busy n s) [
    | inl (i, lt, a, acts, b) ↦
        let (t, st) =
          busy-CanStep same rank same_iff n most s bound
            (Reach-IsOrdered same rank same_iff Starts orderly n r) i a acts lt b in
        absurd (omega (arith, Step-total same st, e))
    | inr h ↦ (s, here, idle-AllIdle s r h)
  ]
  finish_in (suc left) s r e = elim (find_busy n s) [
    | inl (i, lt, a, acts, b) ↦
        let (t, st) =
          busy-CanStep same rank same_iff n most s bound
            (Reach-IsOrdered same rank same_iff Starts orderly n r) i a acts lt b in
        let (u, rest, h) = finish_in left t (steps r st) (omega (arith, Step-total same st, e)) in
        (u, before same st rest, h)
    | inr h ↦ (s, here, idle-AllIdle s r h)
  ]

  -- From every state that the threads reach they can end their operations by their own steps.
  pub finish :
      {s : Threads L} → Reach same Starts n s → (t : Threads L) × Steps same n s t × AllIdle n t
  finish {s = s} r = finish_in (total n s) s r refl
