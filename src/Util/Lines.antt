-- ===== src/Util/Lines.antt =====
-- The lines of a text.
use atpdxy.Common.{ℕ, ◌≡◌, ◌≢◌, refl, List, [], ◌∷◌, ◌++◌, arith, ◌==◌, if◌then◌else◌, All}
use atpdxy.Common.Bytes.{Bytes}

on_first : ℕ → List Bytes → List Bytes
on_first c [] = (c ∷ []) ∷ []
on_first c (line ∷ more) = (c ∷ line) ∷ more

-- The lines of a text, each without the newline that ends it.
pub lines : Bytes → List Bytes
unfolding on_first
lines [] = []
lines (c ∷ text) = if c == b'\n' then [] ∷ lines text else on_first c (lines text)

abbrev pub IsLine : Bytes → Type 0
IsLine = All (λ c. c ≢ b'\n')

pub lines-append :
    (line rest : Bytes) → IsLine line → lines (line ++ (b'\n' ∷ rest)) ≡ line ∷ lines rest
unfolding lines
lines-append [] rest h = refl
lines-append (c ∷ line) rest h = ground (arith, h.0, lines-append line rest h.1)

pub lines-nil : lines [] ≡ []
unfolding lines
lines-nil = refl
