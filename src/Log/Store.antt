-- ===== src/Log/Store.antt =====
-- The objects of atpdxy/log.h that loggers share by pointers: appenders and loggers, each behind a
-- number, and what was written to the console and the files.
use atpdxy.Common.{ℕ, Bool, Option, List, [], ◌∷◌, ◌++◌, ◌==◌, if◌then◌else◌}
use atpdxy.Common.Bytes.{Bytes}
use atpdxy.Log.Level.{Level}
use atpdxy.Log.Formatter.{Formatter}

-- StdoutLogAppender; FileLogAppender with `m_filename` and `m_lastTime`.
pub data Kind : Type 0 where
  stdout : Kind
  file : Bytes → ℕ → Kind

-- LogAppender: `m_level`, `m_formatter` (which may be null) and `m_hasFormatter`.
pub record Appender : Type 0 where
  pub kind : Kind
  pub level : Level
  pub formatter : Option Formatter
  pub has_formatter : Bool

pub record Logger : Type 0 where
  pub name : Bytes
  pub level : Level
  pub appenders : List ℕ
  pub formatter : Option Formatter
  pub root : Option ℕ

-- What is done to the console and the files.
pub data Output : Type 0 where
  print : Bytes → Output
  reopen : Bytes → Output
  append : Bytes → Bytes → Output

pub record Store : Type 0 where
  pub loggers : ℕ → Logger
  pub next_logger : ℕ
  pub appenders : ℕ → Appender
  pub next_appender : ℕ
  pub output : List Output

abbrev pub put_logger : ℕ → Logger → Store → Store
put_logger p l s = record s { loggers = λ q. if p == q then l else s.loggers q }

abbrev pub put_appender : ℕ → Appender → Store → Store
put_appender p a s = record s { appenders = λ q. if p == q then a else s.appenders q }

abbrev pub emit : Output → Store → Store
emit o s = record s { output = s.output ++ o ∷ [] }

abbrev pub name_of : Store → ℕ → Bytes
name_of s p = (s.loggers p).name
