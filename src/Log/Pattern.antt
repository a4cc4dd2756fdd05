-- ===== src/Log/Pattern.antt =====
-- atpdxy/log.cpp, LogFormatter::init, up to the loop that makes the items: a pattern is cut into
-- the tuples of `vec`. An index into the pattern is the part of the pattern from that index on, so
-- `m_pattern.substr(i + 1, n - i - 1)` is what was passed between the two.
pub mod Progress
pub mod Trailing
pub mod RoundTrip
use atpdxy.Common.{
  ℕ, zero, suc, Bool, true, false, not, ◌&&◌, Option, none, some, List, [], ◌∷◌, ◌++◌, ◌==◌,
  if◌then◌else◌, length,
}
use atpdxy.Common.Bytes.{Bytes, codes, isalpha, is_empty}

-- A tuple of `vec`: name, format, and whether it is a format item (1) or plain text (0).
pub record Token : Type 0 where
  pub text : Bytes
  pub fmt : Bytes
  pub is_item : Bool

-- The local variables of the outer loop, with `m_error`.
pub record State : Type 0 where
  pub vec : List Token
  pub nstr : Bytes
  pub error : Bool

-- How the inner loop ends: `fmt_status == 0`, with `str`, `fmt` and the text from `n` on, or 1.
pub data Scan : Type 0 where
  closed : Bytes → Bytes → Bytes → Scan
  unclosed : Scan

-- The inner loop with `fmt_status == 1`; `seen` is the text behind the brace.
scan_fmt : Bytes → Bytes → Bytes → Scan
scan_fmt str seen [] = unclosed
scan_fmt str seen (c ∷ rest) =
    let more = scan_fmt str (seen ++ c ∷ []) rest in
    if c == b'}' then closed str seen rest else more

-- The inner loop with `fmt_status == 0`; `seen` is the text behind the percent sign. At the end of
-- the pattern `str` is all of it.
pub scan_name : Bytes → Bytes → Scan
scan_name seen [] = closed seen [] []
scan_name seen (c ∷ rest) =
    let more = scan_name (seen ++ c ∷ []) rest in
    if not (isalpha c) && (not (c == b'{') && not (c == b'}'))
    then closed seen [] (c ∷ rest)
    else if c == b'{'
    then scan_fmt seen [] rest
    else more

abbrev pub literal : Bytes → Token
literal t = record { text = t; fmt = []; is_item = false }

abbrev pub item : Bytes → Bytes → Token
item str fmt = record { text = str; fmt = fmt; is_item = true }

-- `if(!nstr.empty()) { vec.push_back(...); nstr.clear(); }`
pub flush : State → State
flush s = if is_empty s.nstr then s else record s { vec = s.vec ++ literal s.nstr ∷ []; nstr = [] }

abbrev pub starts_percent : Bytes → Bool
starts_percent [] = false
starts_percent (c ∷ r) = c == b'%'

-- What the outer loop does behind the inner one; the second part is the text at the next index.
pub settle : State → Bytes → Scan → State × Bytes
settle s r (closed str fmt rest) =
    let t = flush s in (record t { vec = t.vec ++ item str fmt ∷ [] }, rest)
settle s r unclosed =
    (record s { vec = s.vec ++ literal (codes "<<pattern_error>>") ∷ []; error = true }, r)

-- One round of the outer loop, at the byte `c` with `r` behind it.
pub step : State → ℕ → Bytes → State × Bytes
unfolding settle scan_name scan_fmt flush
step s c r =
    if not (c == b'%')
    then (record s { nstr = s.nstr ++ c ∷ [] }, r)
    else if starts_percent r
    then (record s { nstr = s.nstr ++ b'%' ∷ [] }, r)
    else settle s r (scan_name [] r)

-- The outer loop, with fuel: `none` means that the fuel ran out.
pub tokenize : ℕ → State → Bytes → Option State
unfolding step
tokenize f s [] = some s
tokenize zero s (c ∷ r) = none
tokenize (suc f) s (c ∷ r) = let (t, rest) = step s c r in tokenize f t rest

abbrev pub start : State
start = record { vec = []; nstr = []; error = false }

abbrev pub or_start : Option State → State
or_start none = start
or_start (some s) = s

-- The outer loop with one unit of fuel for each byte.
pub parse : State → Bytes → State
unfolding tokenize
parse s r = or_start (tokenize (length r) s r)

-- `vec` and `m_error` in front of the loop that makes the items.
unfoldable pub tokens : Bytes → State
unfolding parse flush
tokens p = flush (parse start p)
