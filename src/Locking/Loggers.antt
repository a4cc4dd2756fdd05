-- ===== src/Locking/Loggers.antt =====
-- The calls on mutexes of each operation of atpdxy/log.cpp, in the state that it finds. Where a
-- guard stands in the code is where `inside` stands here.
pub mod Ordered
pub mod Operations
pub mod Listener
use atpdxy.Common.{ℕ, zero, suc, not, Option, none, some, List, [], ◌∷◌, ◌++◌, ◌==◌, if◌then◌else◌}
use atpdxy.Common.Bytes.{Bytes, is_empty}
use atpdxy.Mutex.Order.{Act, exclusive, each, inside}
use atpdxy.Locking.{Lock, manager, logger, appender}
use atpdxy.Log.Level.{Level, info, at_least}
use atpdxy.Log.Formatter.{new_formatter}
use atpdxy.Log.Store.{Kind, stdout, file, Store}
use atpdxy.Log.Logger.{
  Env, is_some, set_level, set_pattern, clear_appenders, new_appender, set_appender_level,
}
use atpdxy.Log.Manager.{Manager, get_logger}
use atpdxy.Log.Define.{
  LogAppenderDefine, LogDefine, find_define, is_same, is_none, give_formatter, attach, configure,
  configure_all, disable,
}

abbrev pub Acts : Type 0
Acts = List (Act Lock)

-- `getFormatter`, `setFormatter`, `reopen` and `toYamlString` of an appender.
pub appender_locks : ℕ → Acts
appender_locks a = inside exclusive (appender a) []

-- `getFormatter` and `delAppender` of a logger.
pub logger_locks : ℕ → Acts
logger_locks p = inside exclusive (logger p) []

module _ (env : Env) (s : Store) where
  reopen_locks : ℕ → Kind → Acts
  unfolding appender_locks
  reopen_locks a stdout = []
  reopen_locks a (file name last) = if not (env.now == last) then appender_locks a else []

  -- `StdoutLogAppender::log` and `FileLogAppender::log`.
  unfoldable pub append_locks : Level → ℕ → Acts
  unfolding reopen_locks
  append_locks level a =
      let ap = s.appenders a in
      if at_least level ap.level
      then reopen_locks a ap.kind ++ inside exclusive (appender a) []
      else []

  -- `Logger::log`; the fuel bounds the way from logger to root logger.
  unfoldable pub log_locks : ℕ → Level → ℕ → Acts
  unfolding append_locks
  log_locks zero level p = []
  log_locks (suc f) level p =
      let l = s.loggers p in
      let up : Acts = elim l.root [ none ↦ [] | some r ↦ log_locks f level r ] in
      if at_least level l.level
      then inside exclusive (logger p)
          (if not (is_empty l.appenders) then each (append_locks level) l.appenders else up)
      else []

  -- A macro, with the calls that what is streamed into it makes.
  pub macro_locks : Level → Acts → ℕ → Acts
  unfolding log_locks
  macro_locks level text p =
      if at_least level (s.loggers p).level then text ++ log_locks 2 level p else []

-- `Logger::addAppender`.
pub add_appender_locks : ℕ → ℕ → Store → Acts
unfolding appender_locks
add_appender_locks p a s = inside exclusive (logger p) (
    appender_locks a
    ++ (if is_some (s.appenders a).formatter then [] else inside exclusive (appender a) []))

pass_locks : Store → ℕ → Acts
pass_locks s a = if not (s.appenders a).has_formatter then inside exclusive (appender a) [] else []

-- `Logger::setFormatter(LogFormatter::ptr)`.
pub set_formatter_locks : ℕ → Store → Acts
unfolding pass_locks
set_formatter_locks p s = inside exclusive (logger p) (each (pass_locks s) (s.loggers p).appenders)

-- `Logger::setFormatter(const std::string&)`.
pub set_pattern_locks : ℕ → Bytes → Store → Acts
unfolding set_formatter_locks
set_pattern_locks p val s = if (new_formatter val).error then [] else set_formatter_locks p s

-- `Logger::toYamlString`.
pub logger_yaml_locks : Store → ℕ → Acts
unfolding appender_locks
logger_yaml_locks s p = inside exclusive (logger p) (each appender_locks (s.loggers p).appenders)

-- `LoggerManager::getLogger`.
pub get_logger_locks : Acts
get_logger_locks = inside exclusive manager []

-- `LoggerManager::toYamlString`.
pub manager_yaml_locks : Manager → Acts
unfolding logger_yaml_locks
manager_yaml_locks m =
    inside exclusive manager (each (λ e. logger_yaml_locks m.store e.1) m.loggers)

-- The constructors of the appenders; FileLogAppender's opens the file.
pub new_appender_locks : Kind → ℕ → Acts
unfolding appender_locks
new_appender_locks stdout a = []
new_appender_locks (file name last) a = appender_locks a

-- What the listener of LogIniter does for one appender of a definition.
attach_locks : Bytes → ℕ → LogAppenderDefine → Store → Acts
unfolding new_appender_locks add_appender_locks
attach_locks name l a s =
    let k = if a.type == 1 then file a.file 0 else stdout in
    let (made, p) = new_appender k s in
    let formed = give_formatter name p a (set_appender_level p a.level made) in
    let f = new_formatter a.formatter in
    new_appender_locks k p
    ++ ((if is_empty a.formatter then [] else if not f.error then appender_locks p else [])
        ++ add_appender_locks l p formed)

attach_all_locks : Bytes → ℕ → List LogAppenderDefine → Store → Acts
unfolding attach_locks
attach_all_locks name l [] s = []
attach_all_locks name l (a ∷ as') s =
    attach_locks name l a s ++ attach_all_locks name l as' (attach name l a s)

configure_locks : LogDefine → Manager → Acts
unfolding get_logger_locks set_pattern_locks attach_all_locks
configure_locks d m =
    let (m', l) = get_logger d.name m in
    let leveled = set_level l d.level m'.store in
    let formed =
      if not (is_empty d.formatter) then set_pattern l d.formatter leveled else leveled in
    get_logger_locks
    ++ ((if not (is_empty d.formatter) then set_pattern_locks l d.formatter leveled else [])
        ++ attach_all_locks d.name l d.appenders (clear_appenders l formed))

configure_all_locks : List LogDefine → List LogDefine → Manager → Acts
unfolding configure_locks
configure_all_locks old [] m = []
configure_all_locks old (d ∷ ds) m =
    let same = is_same d (find_define d.name old) in
    (if same then [] else configure_locks d m)
    ++ configure_all_locks old ds (if same then m else configure d m)

disable_locks : List LogDefine → LogDefine → Acts
unfolding get_logger_locks
disable_locks new d = if is_none (find_define d.name new) then get_logger_locks else []

-- The listener of LogIniter, which writes a line to the root logger first.
pub on_change_locks : Env → List LogDefine → List LogDefine → Manager → Acts
unfolding macro_locks configure_all_locks disable_locks
on_change_locks env old new m =
    macro_locks env m.store info [] m.root
    ++ (configure_all_locks old new m ++ each (disable_locks new) old)
