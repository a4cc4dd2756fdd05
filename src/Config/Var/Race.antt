-- ===== src/Config/Var/Race.antt =====
-- ConfigVar::setValue of atpdxy/config.h called by several threads. It tells the listeners while it
-- holds the mutex as a reader, and takes it as a writer afterwards; in between, other threads can do
-- either.
use atpdxy.Common.{
  ℕ, ◌≡◌, refl, subst, inl, inr, false, List, [], ◌∷◌, arith, ◌==◌, ==_iff, Bool-cases,
  if◌then◌else◌,
}
use atpdxy.Config.Var.{Types}

-- Where a thread is: not in setValue, in front of the comparison, or behind the listeners.
pub data Phase (V : Type 0) : Type 0 where
  outside : Phase V
  compares stores : V → Phase V

-- The value, the threads, and the old and new values that listeners were told, the last ones first.
pub record Shared (V : Type 0) : Type 0 where
  pub val : V
  pub at : ℕ → Phase V
  pub told : List (V × V)

abbrev pub go : {V : Type 0} → ℕ → Phase V → Shared V → Shared V
go i p s = record s { at = λ j. if i == j then p else s.at j }

abbrev pub AllOutside : {V : Type 0} → Shared V → Type 0
AllOutside s = (j : ℕ) → s.at j ≡ outside

-- What the listeners were told leads from one value to another with no gap.
abbrev pub Leads : {V : Type 0} → V → List (V × V) → V → Type 0
Leads first [] last = first ≡ last
Leads first ((old, new) ∷ told) last = Leads first told old × (new ≡ last)

abbrev pub fresh : {V : Type 0} → V → Shared V
fresh v = record { val = v; at = λ j. outside; told = [] }

module _ (T : Types) (t : T.Ty) where
  open T use {Val, val_eq}

  -- The scope of the read lock.
  unfoldable pub compare_and_tell : ℕ → Val t → Shared (Val t) → Shared (Val t)
  compare_and_tell i v s =
      if val_eq t v s.val
      then go i outside s
      else go i (stores v) (record s { told = (s.val, v) ∷ s.told })

  -- The scope of the write lock.
  unfoldable pub store_value : ℕ → Val t → Shared (Val t) → Shared (Val t)
  store_value i v s = go i outside (record s { val = v })

  -- A thread calls `setValue` only in states that `May` allows.
  pub data Step (May : Shared (Val t) → Type 0) (s : Shared (Val t)) : Shared (Val t) → Type 0 where
    calls : (i : ℕ) (v : Val t) → s.at i ≡ outside → May s → Step May s (go i (compares v) s)
    tells : (i : ℕ) (v : Val t) → s.at i ≡ compares v → Step May s (compare_and_tell i v s)
    sets : (i : ℕ) (v : Val t) → s.at i ≡ stores v → Step May s (store_value i v s)

  pub data Reach (May : Shared (Val t) → Type 0) (first : Val t) : Shared (Val t) → Type 0 where
    here : Reach May first (fresh first)
    later : {s u : Shared (Val t)} → Reach May first s → Step May s u → Reach May first u

  -- One thread at most is in `setValue`, and what was told leads to what the value is or will be.
  data InTurn (first : Val t) (s : Shared (Val t)) : Type 0 where
    at_rest : AllOutside s → Leads first s.told s.val → InTurn first s
    comparing :
        (i : ℕ)
        → ((j : ℕ) → (i == j) ≡ false → s.at j ≡ outside)
        → (v : Val t) → s.at i ≡ compares v
        → Leads first s.told s.val
        → InTurn first s
    storing :
        (i : ℕ)
        → ((j : ℕ) → (i == j) ≡ false → s.at j ≡ outside)
        → (v : Val t) → s.at i ≡ stores v
        → Leads first s.told v
        → InTurn first s

  others_outside :
      (first : Val t) (s : Shared (Val t)) (i j : ℕ)
      → InTurn first s
      → (s.at i ≡ outside → ⊥)
      → (i == j) ≡ false
      → s.at j ≡ outside
  others_outside first s i j (at_rest o l) inside e = o j
  others_outside first s i j (comparing k o v at l) inside e = ground (arith, o i, o j, inside)
  others_outside first s i j (storing k o v at l) inside e = ground (arith, o i, o j, inside)

  rest-Leads :
      (first : Val t) (s : Shared (Val t))
      → InTurn first s
      → AllOutside s
      → Leads first s.told s.val
  rest-Leads first s (at_rest o l) alone = l
  rest-Leads first s (comparing k o v at l) alone = l
  rest-Leads first s (storing k o v at l) alone = let e = alone k in cc

  compares-Leads :
      (first : Val t) (s : Shared (Val t)) (i : ℕ) (v : Val t)
      → InTurn first s
      → s.at i ≡ compares v
      → Leads first s.told s.val
  compares-Leads first s i v (at_rest o l) e = l
  compares-Leads first s i v (comparing k o w at l) e = l
  compares-Leads first s i v (storing k o w at l) e = elim (Bool-cases (k == i)) [
    | inl same ↦ let at_i = subst (λ x. s.at x ≡ stores w) ((==_iff k i).0 same) at in cc
    | inr other ↦ let out = o i other in cc
  ]

  stores-Leads :
      (first : Val t) (s : Shared (Val t)) (i : ℕ) (v : Val t)
      → InTurn first s
      → s.at i ≡ stores v
      → Leads first s.told v
  stores-Leads first s i v (at_rest o l) e = let out = o i in cc
  stores-Leads first s i v (comparing k o w at l) e = elim (Bool-cases (k == i)) [
    | inl same ↦ let at_i = subst (λ x. s.at x ≡ compares w) ((==_iff k i).0 same) at in cc
    | inr other ↦ let out = o i other in cc
  ]
  stores-Leads first s i v (storing k o w at l) e = elim (Bool-cases (k == i)) [
    | inl same ↦
        let at_i = subst (λ x. s.at x ≡ stores w) ((==_iff k i).0 same) at in
        let w_is_v : w ≡ v = cc in subst (Leads first s.told) w_is_v l
    | inr other ↦ let out = o i other in cc
  ]

  Step-InTurn :
      (first : Val t) {s u : Shared (Val t)} → Step AllOutside s u → InTurn first s → InTurn first u
  unfolding compare_and_tell store_value
  Step-InTurn first {s = s} (calls i v out alone) h =
      comparing i (λ j e. ground (arith, alone j)) v (ground arith) (rest-Leads first s h alone)
  Step-InTurn first {s = s} (tells i v at) h =
      let o : (j : ℕ) → (i == j) ≡ false → s.at j ≡ outside =
        λ j. others_outside first s i j h (λ out. cc) in
      let l = compares-Leads first s i v h at in
      elim (Bool-cases (val_eq t v s.val)) [
        | inl same ↦ rw same (at_rest (λ j. ground (arith, o j)) l)
        | inr new ↦ rw new (storing i (λ j e. ground (arith, o j)) v (ground arith) (l, refl))
      ]
  Step-InTurn first {s = s} (sets i v at) h =
      let o : (j : ℕ) → (i == j) ≡ false → s.at j ≡ outside =
        λ j. others_outside first s i j h (λ out. cc) in
      at_rest (λ j. ground (arith, o j)) (stores-Leads first s i v h at)

  Reach-InTurn : (first : Val t) {s : Shared (Val t)} → Reach AllOutside first s → InTurn first s
  Reach-InTurn first here = at_rest (λ j. refl) refl
  Reach-InTurn first (later r st) = Step-InTurn first st (Reach-InTurn first r)

  -- Where `setValue` is called only while no thread is in it, each change that listeners are told
  -- starts at the value that the change before led to, the first one at the first value, and
  -- whenever no thread is in `setValue` the last one led to the value that the variable has.
  pub told_in_turn :
      (first : Val t) {s : Shared (Val t)}
      → Reach AllOutside first s
      → AllOutside s
      → Leads first s.told s.val
  told_in_turn first {s = s} r alone = rest-Leads first s (Reach-InTurn first r) alone

  -- The step of a value that differs from the one that the variable has.
  tells_new :
      (May : Shared (Val t) → Type 0) (i : ℕ) (v : Val t) (s : Shared (Val t))
      → s.at i ≡ compares v
      → val_eq t v s.val ≡ false
      → Step May s (go i (stores v) (record s { told = (s.val, v) ∷ s.told }))
  unfolding compare_and_tell
  tells_new May i v s e d = subst (Step May s) (rw d refl) (tells i v e)

  -- Where two threads call `setValue` at the same time, with values that differ from the one that
  -- the variable has, both can have returned after listeners were told first of the one and then
  -- of the other change, both of them from the old value, while the variable has the value of the
  -- first one.
  pub told_in_race :
      (first a b : Val t)
      → val_eq t a first ≡ false
      → val_eq t b first ≡ false
      → (s : Shared (Val t)) × Reach (λ u. Unit {0}) first s
        × AllOutside s
        × (s.val ≡ a)
        × (s.told ≡ (first, b) ∷ (first, a) ∷ [])
  unfolding store_value
  told_in_race first a b da db =
      let any : Shared (Val t) → Type 0 = λ u. Unit {0} in
      let s1 = go 0 (compares a) (fresh first) in
      let s2 = go 1 (compares b) s1 in
      let s3 = go 0 (stores a) (record s2 { told = (first, a) ∷ [] }) in
      let s4 = go 1 (stores b) (record s3 { told = (first, b) ∷ (first, a) ∷ [] }) in
      let s5 = go 1 outside (record s4 { val = b }) in
      let s6 = go 0 outside (record s5 { val = a }) in
      let r1 : Reach any first s1 = later here (calls 0 a refl tt) in
      let r2 : Reach any first s2 = later r1 (calls 1 b refl tt) in
      let r3 : Reach any first s3 = later r2 (tells_new any 0 a s2 refl da) in
      let r4 : Reach any first s4 = later r3 (tells_new any 1 b s3 refl db) in
      let r5 : Reach any first s5 = later r4 (sets 1 b refl) in
      let r6 : Reach any first s6 = later r5 (sets 0 a refl) in
      (s6, r6, (λ j. ground arith), refl, refl)
