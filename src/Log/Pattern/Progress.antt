-- ===== src/Log/Pattern/Progress.antt =====
-- The outer loop of LogFormatter::init in atpdxy/log.cpp: its rounds and its fuel.
use atpdxy.Common.{
  ℕ, zero, suc, ◌≤◌, ◌≡◌, refl, ap, ◌∙◌, inl, inr, not, some, [], ◌∷◌, ◌++◌, arith, ◌==◌,
  Bool-cases, length,
}
use atpdxy.Common.Bytes.{Bytes}
use atpdxy.Log.Pattern.{
  State, Scan, closed, unclosed, scan_fmt, scan_name, settle, step, tokenize, parse, or_start,
  starts_percent,
}

-- The text that a scan leaves is no longer than `n`.
abbrev Leaves : ℕ → Scan → Type 0
Leaves n (closed str fmt rest) = length rest ≤ n
Leaves n unclosed = Unit

scan_fmt-Leaves : (n : ℕ) (str seen r : Bytes) → length r ≤ n → Leaves n (scan_fmt str seen r)
unfolding scan_fmt
scan_fmt-Leaves n str seen [] h = tt
scan_fmt-Leaves n str seen (c ∷ r) h = ground (arith, scan_fmt-Leaves n str (seen ++ c ∷ []) r)

scan_name-Leaves : (n : ℕ) (seen r : Bytes) → length r ≤ n → Leaves n (scan_name seen r)
unfolding scan_name
scan_name-Leaves n seen [] h = omega arith
scan_name-Leaves n seen (c ∷ r) h =
    ground (arith, scan_name-Leaves n (seen ++ c ∷ []) r, scan_fmt-Leaves n seen [] r)

settle-le :
    (s : State) (r : Bytes) (k : Scan) → Leaves (length r) k → length (settle s r k).1 ≤ length r
unfolding settle
settle-le s r (closed str fmt rest) h = h
settle-le s r unclosed h = omega arith

-- A round does one of three things.
pub step_cases {ℓ} :
    (P : State × Bytes → Type ℓ) (s : State) (c : ℕ) (r : Bytes)
    → P (record s { nstr = s.nstr ++ c ∷ [] }, r)
    → P (record s { nstr = s.nstr ++ b'%' ∷ [] }, r)
    → P (settle s r (scan_name [] r))
    → P (step s c r)
step_cases P s c r byte escaped spec = elim (Bool-cases (not (c == b'%'))) [
  | inl e ↦ unfold step in rw e byte
  | inr e ↦ elim (Bool-cases (starts_percent r)) [
    | inl p ↦ unfold step in rw (e, p) escaped
    | inr p ↦ unfold step in rw (e, p) spec
  ]
]

pub step-le : (s : State) (c : ℕ) (r : Bytes) → length (step s c r).1 ≤ length r
step-le s c r =
    step_cases (λ x. length x.1 ≤ length r) s c r (omega arith) (omega arith)
      (settle-le s r (scan_name [] r) (scan_name-Leaves (length r) [] r (omega arith)))

tokenize-agree :
    (f g : ℕ) (s : State) (r : Bytes)
    → length r ≤ f
    → length r ≤ g
    → tokenize f s r ≡ tokenize g s r
unfolding tokenize
tokenize-agree f g s [] h k = refl
tokenize-agree zero g s (c ∷ r) h k = absurd (omega arith)
tokenize-agree (suc f) zero s (c ∷ r) h k = absurd (omega arith)
tokenize-agree (suc f) (suc g) s (c ∷ r) h k =
    let le : length (step s c r).1 ≤ length r = step-le s c r in
    tokenize-agree f g (step s c r).0 (step s c r).1 (omega (arith, le)) (omega (arith, le))

tokenize-some :
    (f : ℕ) (s : State) (r : Bytes)
    → length r ≤ f
    → tokenize f s r ≡ some (or_start (tokenize f s r))
unfolding tokenize
tokenize-some f s [] h = refl
tokenize-some zero s (c ∷ r) h = absurd (omega arith)
tokenize-some (suc f) s (c ∷ r) h =
    let le : length (step s c r).1 ≤ length r = step-le s c r in
    tokenize-some f (step s c r).0 (step s c r).1 (omega (arith, le))

-- From every state of the outer loop of LogFormatter::init, as many units of fuel as bytes are
-- left, or more, are enough for the loop to end, and the result does not depend on how many they
-- are.
pub tokenize-parse :
    (f : ℕ) (s : State) (r : Bytes) → length r ≤ f → tokenize f s r ≡ some (parse s r)
unfolding parse
tokenize-parse f s r h =
    tokenize-agree f (length r) s r h (omega arith) ∙ tokenize-some (length r) s r (omega arith)

-- So the loop may be read with no fuel, a round at a time.
pub parse-cons :
    (s : State) (c : ℕ) (r : Bytes) → parse s (c ∷ r) ≡ parse (step s c r).0 (step s c r).1
unfolding parse
parse-cons s c r = ap or_start (
    unfold tokenize in
    tokenize-agree (length r) (length (step s c r).1) (step s c r).0 (step s c r).1 (step-le s c r)
      (omega arith))
