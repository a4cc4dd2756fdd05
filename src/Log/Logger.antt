-- ===== src/Log/Logger.antt =====
-- atpdxy/log.cpp, classes LogAppender, StdoutLogAppender, FileLogAppender and Logger. The clock and
-- whether a file takes what is written to it are given by an environment; strftime is a parameter.
pub mod Delivery
pub mod Formatters
pub mod Keeps
use atpdxy.Common.{
  ℕ, zero, suc, ◌+◌, Bool, true, false, not, Option, none, some, List, [], ◌∷◌, ◌++◌, ◌==◌,
  if◌then◌else◌,
}
use atpdxy.Common.Bytes.{Bytes, codes, is_empty}
use atpdxy.Common.Result.{out_of_fuel, Result, ok, fail, ◌>>=◌, deref}
use atpdxy.Log.Level.{Level, debug, at_least}
use atpdxy.Log.Event.{Event}
use atpdxy.Log.Formatter.{Formatter, new_formatter, format}
use atpdxy.Log.Store.{
  put_logger, put_appender, emit, name_of, Kind, stdout, file, Appender, Logger, print, reopen,
  append, Store,
}

pub record Env : Type 0 where
  pub now : ℕ
  pub is_good : Bytes → Bool

abbrev default_pattern : Bytes
default_pattern = codes "%d{%Y-%m-%d %H:%M:%S}%T%t%T%N%T%F%T[%p]%T[%c]%T%f:%l%T%m%n"

-- The constructor of Logger; `getLogger` sets `m_root` afterwards.
unfoldable pub new_logger : Bytes → Option ℕ → Store → Store × ℕ
new_logger name root s =
    let p = s.next_logger in
    let l : Logger = record {
      name = name;
      level = debug;
      appenders = [];
      formatter = some (new_formatter default_pattern);
      root = root;
    } in
    (record (put_logger p l s) { next_logger = p + 1 }, p)

-- `FileLogAppender::reopen`; what it returns is used nowhere.
abbrev pub reopen_file : Bytes → Store → Store
reopen_file name s = emit (reopen name) s

-- `LogAppender::getFormatter` and `Logger::getFormatter`.
abbrev pub appender_formatter : ℕ → Store → Option Formatter
appender_formatter a s = (s.appenders a).formatter

abbrev pub logger_formatter : ℕ → Store → Option Formatter
logger_formatter p s = (s.loggers p).formatter

-- The constructors of the two appenders; that of FileLogAppender opens its file.
unfoldable pub new_appender : Kind → Store → Store × ℕ
new_appender k s =
    let p = s.next_appender in
    let a : Appender = record {
      kind = k;
      level = debug;
      formatter = none;
      has_formatter = false;
    } in
    let made : Store = record (put_appender p a s) { next_appender = p + 1 } in
    (elim k [ stdout ↦ made | file name last ↦ reopen_file name made ], p)

abbrev pub is_some {ℓ} : {A : Type ℓ} → Option A → Bool
is_some none = false
is_some (some a) = true

-- `LogAppender::setFormatter`; the pointer may be null.
pub set_appender_formatter : ℕ → Option Formatter → Store → Store
set_appender_formatter p val s =
    put_appender p (record (s.appenders p) { formatter = val; has_formatter = is_some val }) s

pub set_appender_level : ℕ → Level → Store → Store
set_appender_level p l s = put_appender p (record (s.appenders p) { level = l }) s

-- `Logger::setLevel`.
pub set_level : ℕ → Level → Store → Store
set_level p l s = put_logger p (record (s.loggers p) { level = l }) s

-- `Logger::addAppender`.
unfoldable pub add_appender : ℕ → ℕ → Store → Store
add_appender p a s =
    let l = s.loggers p in
    let ap = s.appenders a in
    let s' =
      if is_some (appender_formatter a s)
      then s
      else put_appender a (record ap { formatter = l.formatter }) s in
    put_logger p (record l { appenders = l.appenders ++ a ∷ [] }) s'

erase_first : ℕ → List ℕ → List ℕ
erase_first a [] = []
erase_first a (b ∷ bs) = if b == a then bs else b ∷ erase_first a bs

-- `Logger::delAppender`: the first occurrence goes.
pub del_appender : ℕ → ℕ → Store → Store
unfolding erase_first
del_appender p a s =
    let l = s.loggers p in put_logger p (record l { appenders = erase_first a l.appenders }) s

pub clear_appenders : ℕ → Store → Store
clear_appenders p s = put_logger p (record (s.loggers p) { appenders = [] }) s

-- `if(!i->m_hasFormatter) i->m_formatter = m_formatter;`, for one appender and for all.
pass_formatter : Option Formatter → ℕ → Store → Store
pass_formatter val a s =
    let ap = s.appenders a in
    if not ap.has_formatter then put_appender a (record ap { formatter = val }) s else s

pass_all : Option Formatter → List ℕ → Store → Store
unfolding pass_formatter
pass_all val [] s = s
pass_all val (a ∷ as') s = pass_all val as' (pass_formatter val a s)

-- `Logger::setFormatter(LogFormatter::ptr)`.
pub set_formatter : ℕ → Option Formatter → Store → Store
unfolding pass_all
set_formatter p val s =
    pass_all val (s.loggers p).appenders (put_logger p (record (s.loggers p) { formatter = val }) s)

-- `Logger::setFormatter(const std::string&)`: a pattern in error is reported and changes nothing.
pub set_pattern : ℕ → Bytes → Store → Store
unfolding set_formatter
set_pattern p val s =
    let f = new_formatter val in
    if f.error
    then emit
        (print (
          codes "Logger setFormatter name="
          ++ ((s.loggers p).name ++ (codes " value=" ++ (val ++ codes " invalid formatter\n")))))
        s
    else set_formatter p (some f) s

module _ (strftime : Bytes → ℕ → Bytes) (env : Env) where
  -- In FileLogAppender::log, the file is opened again in each second in which something is written.
  refresh : ℕ → Bytes → ℕ → Store → Store
  refresh a name last s =
      if not (env.now == last)
      then reopen_file name (put_appender a (record (s.appenders a) { kind = file name env.now }) s)
      else s

  -- The text is written to the console or the file.
  write : ℕ → Kind → Bytes → Store → Store
  write a stdout text s = emit (print text) s
  write a (file name last) text s =
      if env.is_good name then emit (append name text) s else emit (print (codes "error\n")) s

  prepare : ℕ → Kind → Store → Store
  unfolding refresh
  prepare a stdout s = s
  prepare a (file name last) s = refresh a name last s

  -- `StdoutLogAppender::log` and `FileLogAppender::log`. A null formatter is dereferenced.
  pub append_log : ℕ → Level → Event → Store → Result Store
  unfolding prepare write
  append_log a level e s =
      let ap = s.appenders a in
      let s' = prepare a ap.kind s in
      if at_least level ap.level
      then (deref ap.formatter >>= λ f.
          ok (write a ap.kind (format strftime (name_of s) f level e) s'))
      else ok s

  pub append_all : List ℕ → Level → Event → Store → Result Store
  unfolding append_log
  append_all [] level e s = ok s
  append_all (a ∷ as') level e s = append_log a level e s >>= append_all as' level e

  -- `Logger::log`; the fuel bounds the way from logger to root logger.
  pub log : ℕ → ℕ → Level → Event → Store → Result Store
  unfolding append_all
  log zero p level e s = fail out_of_fuel
  log (suc f) p level e s =
      let l = s.loggers p in
      let up : Result Store = deref l.root >>= λ r. log f r level e s in
      if at_least level l.level
      then (if not (is_empty l.appenders) then append_all l.appenders level e s else up)
      else ok s

  -- `debug`, `info`, `warn`, `error` and `fatal`, with the level that each of them names.
  pub log_at : Level → ℕ → ℕ → Event → Store → Result Store
  unfolding log
  log_at level f p e s = log f p level e s
