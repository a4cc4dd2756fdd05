-- ===== src/Log/Pattern/Trailing.antt =====
-- LogFormatter::init in atpdxy/log.cpp on patterns with a percent sign at the end.
use atpdxy.Common.{
  ℕ, zero, suc, ◌≤◌, ◌≡◌, refl, sym, ap, ◌∙◌, subst, ◌⊎◌, inl, inr, true, not, ◌&&◌, List, [], ◌∷◌,
  ◌++◌, append_assoc, append-nil, arith, ◌==◌, if◌then◌else◌, Bool-cases, length,
}
use atpdxy.Common.Bytes.{Bytes, isalpha, is_empty}
use atpdxy.Log.Pattern.{
  Token, State, Scan, closed, unclosed, scan_fmt, scan_name, settle, flush, step, parse, start,
  item, tokens, literal,
}
use atpdxy.Log.Pattern.Progress.{parse-cons, step-le, step_cases}

abbrev pub percent : Bytes
percent = b'%' ∷ []

-- A scan of a text that ends in a percent sign leaves such a text, with at most `n` bytes in front.
abbrev Trails : ℕ → Scan → Type 0
Trails n (closed str fmt rest) = (r : Bytes) × (rest ≡ r ++ percent) × (length r ≤ n)
Trails n unclosed = Unit

scan_fmt-Trails :
    (n : ℕ) (str seen r : Bytes) → length r ≤ n → Trails n (scan_fmt str seen (r ++ percent))
unfolding scan_fmt
scan_fmt-Trails n str seen [] h = tt
scan_fmt-Trails n str seen (c ∷ r) h = elim (Bool-cases (c == b'}')) [
  | inl e ↦ rw e (r, refl, omega arith)
  | inr e ↦ rw e (scan_fmt-Trails n str (seen ++ c ∷ []) r (omega arith))
]

scan_name-Trails :
    (n : ℕ) (seen r : Bytes) → length r ≤ n → Trails n (scan_name seen (r ++ percent))
unfolding scan_name isalpha
scan_name-Trails n seen [] h = ([], refl, omega arith)
scan_name-Trails n seen (c ∷ r) h =
    let ends = not (isalpha c) && (not (c == b'{') && not (c == b'}')) in
    elim (Bool-cases ends) [
      | inl e ↦ rw e (c ∷ r, refl, h)
      | inr e ↦ elim (Bool-cases (c == b'{')) [
        | inl b ↦ rw (e, b) (scan_fmt-Trails n seen [] r (omega arith))
        | inr b ↦ rw (e, b) (scan_name-Trails n (seen ++ c ∷ []) r (omega arith))
      ]
    ]

-- `t` comes of `s` by adding tokens; an error stays.
pub record Extends (s t : State) : Type 0 where
  pub new : List Token
  pub vec_eq : t.vec ≡ s.vec ++ new
  pub sticks : s.error ≡ true → t.error ≡ true

Extends-trans : {s t u : State} → Extends s t → Extends t u → Extends s u
Extends-trans {s} a b = record {
  new = a.new ++ b.new;
  vec_eq = b.vec_eq ∙ ap (λ v. v ++ b.new) a.vec_eq ∙ append_assoc s.vec a.new b.new;
  sticks = λ e. b.sticks (a.sticks e);
}

-- By the tokens that are added.
flush_tokens : State → List Token
flush_tokens s = if is_empty s.nstr then [] else literal s.nstr ∷ []

flush-Extends : (s : State) → Extends s (flush s)
unfolding flush flush_tokens
flush-Extends s = record {
  new = flush_tokens s;
  vec_eq = ground (arith, append-nil s.vec);
  sticks = λ e. ground arith;
}

settle-Extends : (s : State) (r : Bytes) (k : Scan) → Extends s (settle s r k).0
unfolding settle
settle-Extends s r (closed str fmt rest) =
    Extends-trans (flush-Extends s)
      (record { new = item str fmt ∷ []; vec_eq = refl; sticks = λ e. e })
settle-Extends s r unclosed = record { new = _; vec_eq = refl; sticks = λ e. refl }

step-Extends : (s : State) (c : ℕ) (r : Bytes) → Extends s (step s c r).0
step-Extends s c r =
    step_cases (λ x. Extends s x.0) s c r
      (record { new = []; vec_eq = sym (append-nil s.vec); sticks = λ e. e })
      (record { new = []; vec_eq = sym (append-nil s.vec); sticks = λ e. e })
      (settle-Extends s r (scan_name [] r))

parse-Extends : (f : ℕ) (s : State) (r : Bytes) → length r ≤ f → Extends s (parse s r)
parse-Extends f s [] h =
    unfold parse in record { new = []; vec_eq = sym (append-nil s.vec); sticks = λ e. e }
parse-Extends zero s (c ∷ r) h = absurd (omega arith)
parse-Extends (suc f) s (c ∷ r) h = subst (Extends s) (sym (parse-cons s c r)) (
    Extends-trans (step-Extends s c r)
      (parse-Extends f (step s c r).0 (step s c r).1 (omega (arith, step-le s c r))))

-- The formatter will be in error: a flag, or an item with no name.
pub data Marked (s : State) : Type 0 where
  flagged : s.error ≡ true → Marked s
  nameless : (pre post : List Token) → s.vec ≡ pre ++ (item [] [] ∷ post) → Marked s

Extends-Marked : {s t : State} → Extends s t → Marked s → Marked t
Extends-Marked x (flagged e) = flagged (x.sticks e)
Extends-Marked x (nameless pre post e) =
    nameless pre (post ++ x.new)
      (x.vec_eq ∙ ap (λ v. v ++ x.new) e ∙ append_assoc pre (item [] [] ∷ post) x.new)

-- A round on a text that ends in a percent sign leaves such a text, or sets the flag.
abbrev Rest : ℕ → State × Bytes → Type 0
Rest n (t, rest) = (t.error ≡ true) ⊎ ((r : Bytes) × (rest ≡ r ++ percent) × (length r ≤ n))

settle-Rest : (n : ℕ) (s : State) (r : Bytes) (k : Scan) → Trails n k → Rest n (settle s r k)
unfolding settle
settle-Rest n s r (closed str fmt rest) h = inr h
settle-Rest n s r unclosed h = inl refl

step-Rest : (s : State) (c : ℕ) (r : Bytes) → Rest (length r) (step s c (r ++ percent))
step-Rest s c r =
    step_cases (Rest (length r)) s c (r ++ percent) (inr (r, refl, omega arith))
      (inr (r, refl, omega arith))
      (settle-Rest (length r) s (r ++ percent) (scan_name [] (r ++ percent))
        (scan_name-Trails (length r) [] r (omega arith)))

parse-Marked_nil : (s : State) → Marked (parse s percent)
unfolding parse
parse-Marked_nil s = nameless (flush s).vec [] refl

parse-Marked : (f : ℕ) (s : State) (r : Bytes) → length r ≤ f → Marked (parse s (r ++ percent))
parse-Marked f s [] h = parse-Marked_nil s
parse-Marked zero s (c ∷ r) h = absurd (omega arith)
parse-Marked (suc f) s (c ∷ r) h =
    let (t, rest) = step s c (r ++ percent) in
    subst Marked (sym (parse-cons s c (r ++ percent))) (elim (step-Rest s c r) [
      | inl e ↦ Extends-Marked (parse-Extends (length rest) t rest (omega arith)) (flagged e)
      | inr (q, e, le) ↦ rw e (parse-Marked f t q (omega arith))
    ])

-- Whatever stands in front of it.
pub tokens-Marked : (p : Bytes) → Marked (tokens (p ++ percent))
unfolding tokens
tokens-Marked p =
    Extends-Marked (flush-Extends (parse start (p ++ percent)))
      (parse-Marked (length p) start p (omega arith))
