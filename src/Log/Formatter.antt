-- ===== src/Log/Formatter.antt =====
-- atpdxy/log.cpp: the FormatItem classes, the loop of LogFormatter::init that makes the items, and
-- LogFormatter::format. What localtime_r and strftime write for a format and a time (with a buffer
-- of 64 bytes) is a parameter, and so is the name of the logger behind a pointer.
pub mod Templates
pub mod Errors
use atpdxy.Common.{
  ℕ, ◌%◌, Bool, true, false, ◌||◌, Option, none, some, List, [], ◌∷◌, ◌++◌, if◌then◌else◌,
}
use atpdxy.Common.Bytes.{Bytes, codes, bytes_eq, is_empty, print_unsigned}
use atpdxy.Log.Level.{Level, to_string}
use atpdxy.Log.Event.{Event, as_int32}
use atpdxy.Log.Pattern.{Token, tokens}

-- The classes derived from LogFormatter::FormatItem, with the members that they keep.
pub data Item : Type 0 where
  message : Item
  level : Item
  elapse : Item
  name : Item
  thread_id : Item
  fiber_id : Item
  thread_name : Item
  date_time : Bytes → Item
  filename : Item
  line : Item
  new_line : Item
  tab : Bytes → Item
  string : Bytes → Item

-- The constructor of DateTimeFormatItem.
pub new_date_time : Bytes → Item
new_date_time fmt = date_time (if is_empty fmt then codes "%Y-%m-%d %H:%M:%S" else fmt)

print_int32 : ℕ → Bytes
unfolding as_int32
print_int32 n =
    let (negative, m) = as_int32 n in if negative then b'-' ∷ print_unsigned m else print_unsigned m

-- `FormatItem::format` of each class: what it writes to the stream.
unfoldable pub render : (Bytes → ℕ → Bytes) → (ℕ → Bytes) → Level → Event → Item → Bytes
unfolding print_int32
render strftime name_of l e message = e.content
render strftime name_of l e level = to_string l
render strftime name_of l e elapse = print_int32 e.elapse
render strftime name_of l e name = name_of e.logger
render strftime name_of l e thread_id = print_unsigned e.thread_id
render strftime name_of l e fiber_id = print_unsigned e.fiber_id
render strftime name_of l e thread_name = e.thread_name
render strftime name_of l e (date_time fmt) = strftime fmt e.time
render strftime name_of l e filename = e.file
render strftime name_of l e line = print_int32 e.line
render strftime name_of l e new_line = b'\n' ∷ []
render strftime name_of l e (tab str) = b'\t' ∷ []
render strftime name_of l e (string str) = str

-- `s_format_items.find(name)`, and the call of what is found there on the format.
unfoldable pub find_item : Bytes → Bytes → Option Item
unfolding new_date_time
find_item n fmt =
    if bytes_eq n (codes "m")
    then some message
    else if bytes_eq n (codes "p")
    then some level
    else if bytes_eq n (codes "r")
    then some elapse
    else if bytes_eq n (codes "c")
    then some name
    else if bytes_eq n (codes "t")
    then some thread_id
    else if bytes_eq n (codes "n")
    then some new_line
    else if bytes_eq n (codes "d")
    then some (new_date_time fmt)
    else if bytes_eq n (codes "f")
    then some filename
    else if bytes_eq n (codes "l")
    then some line
    else if bytes_eq n (codes "T")
    then some (tab fmt)
    else if bytes_eq n (codes "F")
    then some fiber_id
    else if bytes_eq n (codes "N")
    then some thread_name
    else none

-- LogFormatter; the items and the flag are set once, by `init`.
pub record Formatter : Type 0 where
  pub pattern : Bytes
  pub items : List Item
  pub error : Bool

unknown_item : Bytes → Option Item → Item × Bool
unknown_item n none = (string (codes "<<error_format %" ++ (n ++ codes ">>")), true)
unknown_item n (some i) = (i, false)

-- One round of the loop over `vec`: the item, and whether `m_error` is set.
pub make_item : Token → Item × Bool
unfolding unknown_item
make_item t =
    if t.is_item then unknown_item t.text (find_item t.text t.fmt) else (string t.text, false)

pub make_items : List Token → List Item × Bool
make_items [] = ([], false)
make_items (t ∷ ts) =
    let (is, error) = make_items ts in let (i, bad) = make_item t in (i ∷ is, bad || error)

-- The constructor, which calls `init`.
unfoldable pub new_formatter : Bytes → Formatter
unfolding make_items make_item find_item tokens
new_formatter p =
    let s = tokens p in
    let (is, bad) = make_items s.vec in record { pattern = p; items = is; error = s.error || bad }

pub format_items : (Bytes → ℕ → Bytes) → (ℕ → Bytes) → Level → Event → List Item → Bytes
format_items strftime name_of l e [] = []
format_items strftime name_of l e (i ∷ is) =
    render strftime name_of l e i ++ format_items strftime name_of l e is

-- LogFormatter::format; the first two arguments are those of the parameters.
unfoldable pub format : (Bytes → ℕ → Bytes) → (ℕ → Bytes) → Formatter → Level → Event → Bytes
unfolding format_items
format strftime name_of f l e = format_items strftime name_of l e f.items
