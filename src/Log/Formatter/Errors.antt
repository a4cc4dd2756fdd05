-- ===== src/Log/Formatter/Errors.antt =====
-- The patterns that LogFormatter in atpdxy/log.cpp marks as errors.
use atpdxy.Common.{◌≡◌, refl, true, ◌||◌, List, [], ◌∷◌, ◌++◌, arith}
use atpdxy.Common.Bytes.{Bytes, bytes_eq}
use atpdxy.Log.Pattern.{Token, State, item, tokens}
use atpdxy.Log.Pattern.Trailing.{percent, Marked, flagged, nameless, tokens-Marked}
use atpdxy.Log.Formatter.{make_item, make_items, find_item, new_formatter}

make_items-append :
    (xs ys : List Token) → (make_items (xs ++ ys)).1 ≡ ((make_items xs).1 || (make_items ys).1)
unfolding make_items
make_items-append [] ys = refl
make_items-append (x ∷ xs) ys = ground (arith, make_items-append xs ys)

make_items-nameless : (post : List Token) → (make_items (item [] [] ∷ post)).1 ≡ true
unfolding make_items make_item find_item bytes_eq
make_items-nameless post = refl

Marked-error : (s : State) → Marked s → (s.error || (make_items s.vec).1) ≡ true
Marked-error s (flagged e) = rw e
Marked-error s (nameless pre post e) =
    let a = make_items-append pre (item [] [] ∷ post) in
    let b = make_items-nameless post in rw (e, a, b) (ground arith)

-- A pattern that ends in a percent sign is in error, whatever is in front of it; one that ends in
-- the escape `%%` is so too.
pub error-percent : (p : Bytes) → (new_formatter (p ++ percent)).error ≡ true
error-percent p = unfold new_formatter in Marked-error (tokens (p ++ percent)) (tokens-Marked p)
