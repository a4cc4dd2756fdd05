-- ===== src/Util/Frames.antt =====
-- What BackTrace and BacktraceToString of atpdxy/util.cpp bring out.
use atpdxy.Common.{
  ℕ, zero, suc, ◌-◌, ◌≤◌, ◌<◌, ◌⊎◌, inl, inr, ◌≡◌, refl, sym, ap, subst, All-append, ◌∙◌, Option,
  none, some, List, [], ◌∷◌, ◌++◌, map, append_assoc, append-nil, arith, length, get_elem?, drop,
  All,
}
use atpdxy.Common.Bytes.{Bytes, codes}
use atpdxy.Util.{
  ℤ, as_size, Traces, Work, push, push_from, finish, back_trace, print_all, backtrace_to_string,
}
use atpdxy.Util.Lines.{lines, IsLine, lines-append, lines-nil}

-- Where an index is in a list.
drop-cases {ℓ} :
    {A : Type ℓ} (i : ℕ) (xs : List A)
    → ((length xs ≤ i) × (drop i xs ≡ []))
      ⊎ ((x : A) × (i < length xs) × (get_elem? xs i ≡ some x) × (drop i xs ≡ x ∷ drop (suc i) xs))
drop-cases zero [] = inl (omega arith, refl)
drop-cases (suc i) [] = inl (omega arith, refl)
drop-cases zero (x ∷ xs) = inr (x, omega arith, refl, refl)
drop-cases (suc i) (x ∷ xs) = elim (drop-cases i xs) [
  | inl (le, e) ↦ inl (omega (arith, le), e)
  | inr (y, lt, got, e) ↦ inr (y, omega (arith, lt), got, e)
]

-- The rounds of the loop that are left push the texts that are left.
push_from-drop :
    (n i : ℕ) (strings bt : List Bytes)
    → n ≡ length strings - i
    → push_from n i strings bt ≡ bt ++ drop i strings
unfolding push_from push
push_from-drop zero i strings bt e = elim (drop-cases i strings) [
  | inl (le, none_left) ↦ rw none_left (sym (append-nil bt))
  | inr (x, lt, got, more) ↦ absurd (omega (arith, e, lt))
]
push_from-drop (suc n) i strings bt e = elim (drop-cases i strings) [
  | inl (le, none_left) ↦ absurd (omega (arith, e, le))
  | inr (x, lt, got, more) ↦
      rw (got, push_from-drop n (suc i) strings (bt ++ x ∷ []) (omega (arith, e)), more)
        (append_assoc bt (x ∷ []) (drop (suc i) strings))
]

module _ (traces : Traces) (size : ℕ) (skip : ℤ) where
  open traces use {backtrace, backtrace_symbols}

  -- What BackTrace leaves of what it was given, by what backtrace_symbols answers.
  abbrev pub Traced : Option (List Bytes) → Work → Work → Type 0
  Traced (some texts) w w' = w' ≡ record w { bt = w.bt ++ drop (as_size skip) texts }
  Traced none w w' = w' ≡ record w {
    blocks = suc w.blocks;
    errors = w.errors ++ codes "backtrace_symnols error" ∷ [];
  }

  finish-Traced :
      (answer : Option (List Bytes)) (w : Work)
      → backtrace_symbols (backtrace size) ≡ answer
      → Traced answer w
          (finish traces answer (length (backtrace size)) skip (record w { blocks = suc w.blocks }))
  unfolding finish
  finish-Traced none w e = refl
  finish-Traced (some texts) w e =
      let count : length (backtrace size) - as_size skip ≡ length texts - as_size skip =
        ap (λ k. k - as_size skip) (sym (traces.one_each _ texts e)) in
      let even : suc (suc w.blocks) - 2 ≡ w.blocks = omega arith in
      rw (push_from-drop (length (backtrace size) - as_size skip) (as_size skip) texts w.bt count)
        (ap (λ k. record w { bt = w.bt ++ drop (as_size skip) texts; blocks = k }) even)

  -- Where backtrace_symbols gives texts, BackTrace adds to the vector those from the number
  -- `skip` on, read as a size_t, writes nothing to the log, and gives back both blocks. Where it
  -- gives a null pointer, the vector is as before, one error is written to the log, and one block
  -- is never given back.
  pub back_trace-Traced :
      (w : Work) → Traced (backtrace_symbols (backtrace size)) w (back_trace traces size skip w)
  unfolding back_trace
  back_trace-Traced w = finish-Traced (backtrace_symbols (backtrace size)) w refl

drop-IsLine : (n : ℕ) (texts : List Bytes) → All IsLine texts → All IsLine (drop n texts)
drop-IsLine zero texts h = h
drop-IsLine (suc n) [] h = tt
drop-IsLine (suc n) (x ∷ texts) h = drop-IsLine n texts h.1

lines-print_all :
    (prefix : Bytes) (texts : List Bytes)
    → IsLine prefix
    → All IsLine texts
    → lines (print_all prefix texts) ≡ map (λ text. prefix ++ text) texts
unfolding print_all
lines-print_all prefix [] hp h = lines-nil
lines-print_all prefix (text ∷ texts) hp h =
    ap lines (sym (append_assoc prefix text (b'\n' ∷ print_all prefix texts)))
    ∙ lines-append (prefix ++ text) (print_all prefix texts) (All-append _ prefix text hp h.0)
    ∙ ap (◌∷◌ (prefix ++ text)) (lines-print_all prefix texts hp h.1)

-- Where backtrace_symbols gives texts, and neither they nor the prefix have newlines, the lines
-- of what BacktraceToString returns are the texts from the number `skip` on, read as a size_t,
-- each behind the prefix; the memory that it took is given back.
pub lines-backtrace_to_string :
    (traces : Traces) (size : ℕ) (skip : ℤ) (prefix : Bytes) (w : Work) (texts : List Bytes)
    → traces.backtrace_symbols (traces.backtrace size) ≡ some texts
    → IsLine prefix
    → All IsLine texts
    → (lines (backtrace_to_string traces size skip prefix w).0
        ≡ map (λ text. prefix ++ text) (drop (as_size skip) texts))
      × ((backtrace_to_string traces size skip prefix w).1 ≡ w)
unfolding backtrace_to_string
lines-backtrace_to_string traces size skip prefix w texts e hp h =
    let fresh : Work = record w { bt = [] } in
    let done : back_trace traces size skip fresh ≡ record fresh { bt = drop (as_size skip) texts } =
      subst (λ o. Traced traces size skip o fresh (back_trace traces size skip fresh)) e
        (back_trace-Traced traces size skip fresh) in
    (
      ap (λ (d : Work). lines (print_all prefix d.bt)) done
          ∙ lines-print_all prefix (drop (as_size skip) texts) hp
              (drop-IsLine (as_size skip) texts h),
      ap (λ (d : Work). record d { bt = w.bt }) done,
    )
