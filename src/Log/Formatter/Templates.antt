-- ===== src/Log/Formatter/Templates.antt =====
-- The items that LogFormatter in atpdxy/log.cpp makes of a written template.
use atpdxy.Common.{◌≡◌, refl, false, some, List, [], ◌∷◌, map}
use atpdxy.Common.Bytes.{Bytes}
use atpdxy.Log.Pattern.RoundTrip.{
  Piece, plain, bare, with_fmt, print, token_of, IsTemplate, tokens-print,
}
use atpdxy.Log.Formatter.{Item, string, find_item, make_item, make_items, new_formatter}

-- The items of a template: plain text stands for itself, a name for what the table holds under it.
pub data Reads : List Piece → List Item → Type 0 where
  done : Reads [] []
  text :
      {ps : List Piece} {is : List Item} (t : Bytes)
      → Reads ps is
      → Reads (plain t ∷ ps) (string t ∷ is)
  bare_item :
      {ps : List Piece} {is : List Item} (n : Bytes) {i : Item}
      → find_item n [] ≡ some i
      → Reads ps is
      → Reads (bare n ∷ ps) (i ∷ is)
  fmt_item :
      {ps : List Piece} {is : List Item} (n f : Bytes) {i : Item}
      → find_item n f ≡ some i
      → Reads ps is
      → Reads (with_fmt n f ∷ ps) (i ∷ is)

make_items-Reads :
    {ps : List Piece} {is : List Item} → Reads ps is → make_items (map token_of ps) ≡ (is, false)
unfolding make_items make_item
make_items-Reads done = refl
make_items-Reads (text t r) = rw (make_items-Reads r)
make_items-Reads (bare_item n e r) = rw (make_items-Reads r, e)
make_items-Reads (fmt_item n f e r) = rw (make_items-Reads r, e)

-- A template, that is a list of plain texts, items `%name` and items `%name{format}` whose parts
-- can be told apart when written one after the other, and whose names the table of items holds,
-- is read from its written pattern as exactly these items, in order, with no error.
pub new_formatter-print :
    (ps : List Piece) {is : List Item}
    → IsTemplate ps
    → Reads ps is
    → new_formatter (print ps) ≡ record { pattern = print ps; items = is; error = false }
new_formatter-print ps h r = unfold new_formatter in rw (tokens-print ps h, make_items-Reads r)
