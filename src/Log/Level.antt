-- ===== src/Log/Level.antt =====
-- atpdxy/log.h, class LogLevel, and its two conversions in atpdxy/log.cpp.
use atpdxy.Common.{ℕ, Bool, ◌≡◌, refl, leb, if◌then◌else◌}
use atpdxy.Common.Bytes.{Bytes, codes, bytes_eq}

pub data Level : Type 0 where
  unknow debug info warn error fatal : Level

-- The value of an enumerator, which the comparisons of levels use.
abbrev pub rank : Level → ℕ
rank unknow = 0
rank debug = 1
rank info = 2
rank warn = 3
rank error = 4
rank fatal = 5

-- `a >= b` on levels.
abbrev pub at_least : Level → Level → Bool
at_least a b = leb (rank b) (rank a)

unfoldable pub from_string : Bytes → Level
from_string s =
    if bytes_eq s (codes "debug")
    then debug
    else if bytes_eq s (codes "info")
    then info
    else if bytes_eq s (codes "warn")
    then warn
    else if bytes_eq s (codes "error")
    then error
    else if bytes_eq s (codes "fatal")
    then fatal
    else if bytes_eq s (codes "DEBUG")
    then debug
    else if bytes_eq s (codes "INFO")
    then info
    else if bytes_eq s (codes "WARN")
    then warn
    else if bytes_eq s (codes "ERROR")
    then error
    else if bytes_eq s (codes "FATAL")
    then fatal
    else unknow

unfoldable pub to_string : Level → Bytes
to_string debug = codes "DEBUG"
to_string info = codes "INFO"
to_string warn = codes "WARN"
to_string error = codes "ERROR"
to_string fatal = codes "FATAL"
to_string _ = codes "UNKNOW"

-- Every level is read back from its printed name, the unknown one included.
pub from_string-to_string : (l : Level) → from_string (to_string l) ≡ l
unfolding from_string to_string bytes_eq
from_string-to_string unknow = refl
from_string-to_string _ = refl
