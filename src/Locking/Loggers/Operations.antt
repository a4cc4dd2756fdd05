-- ===== src/Locking/Loggers/Operations.antt =====
-- The operations of atpdxy/log.cpp on loggers and appenders take their mutexes in order.
use atpdxy.Common.{ℕ, not, [], ◌++◌, arith, if◌then◌else◌}
use atpdxy.Common.Bytes.{Bytes}
use atpdxy.Mutex.Order.{exclusive, each, inside}
use atpdxy.Mutex.Order.Nesting.{[]-Closed, append-Closed, if-Closed, each-Closed, inside-Closed}
use atpdxy.Locking.{manager, appender, order}
use atpdxy.Log.Formatter.{new_formatter}
use atpdxy.Log.Store.{Kind, stdout, file, Store}
use atpdxy.Log.Logger.{is_some}
use atpdxy.Log.Manager.{Manager}
use atpdxy.Locking.Loggers.{
  Acts, appender_locks, add_appender_locks, pass_locks, set_formatter_locks, set_pattern_locks,
  logger_yaml_locks, get_logger_locks, manager_yaml_locks, new_appender_locks,
}
use atpdxy.Locking.Loggers.Ordered.{From, appender-From, logger-From, appender_locks-From}

-- The operations on loggers, on appenders and on the manager.
module _ (root : ℕ) where
  pub add_appender_locks-From : (p a : ℕ) (s : Store) → From root 3 (add_appender_locks p a s)
  unfolding add_appender_locks
  add_appender_locks-From p a s =
      let second =
        if is_some (s.appenders a).formatter then [] else inside exclusive (appender a) [] in
      logger-From root p (appender_locks a ++ second) (
        append-Closed (order root) 5 (appender_locks a) second (appender_locks-From root a) (
          if-Closed (order root) 5 (is_some (s.appenders a).formatter) []
            (inside exclusive (appender a) []) ([]-Closed (order root) 5) (appender-From root a)))

  pub set_formatter_locks-From : (p : ℕ) (s : Store) → From root 3 (set_formatter_locks p s)
  unfolding set_formatter_locks pass_locks
  set_formatter_locks-From p s = logger-From root p (each (pass_locks s) (s.loggers p).appenders) (
      each-Closed (order root) 5 (pass_locks s) (s.loggers p).appenders (λ a.
        if-Closed (order root) 5 (not (s.appenders a).has_formatter)
          (inside exclusive (appender a) []) [] (appender-From root a) ([]-Closed (order root) 5)))

  pub set_pattern_locks-From :
      (p : ℕ) (val : Bytes) (s : Store) → From root 3 (set_pattern_locks p val s)
  unfolding set_pattern_locks
  set_pattern_locks-From p val s =
      if-Closed (order root) 3 (new_formatter val).error [] (set_formatter_locks p s)
        ([]-Closed (order root) 3) (set_formatter_locks-From p s)

  pub logger_yaml_locks-From : (s : Store) (p : ℕ) → From root 3 (logger_yaml_locks s p)
  unfolding logger_yaml_locks
  logger_yaml_locks-From s p =
      logger-From root p (each appender_locks (s.loggers p).appenders) (
        each-Closed (order root) 5 appender_locks (s.loggers p).appenders
          (appender_locks-From root))

  manager-From : (acts : Acts) → From root 3 acts → From root 2 (inside exclusive manager acts)
  manager-From acts h = inside-Closed (order root) 2 exclusive manager acts (omega arith) h

  pub get_logger_locks-From : From root 2 get_logger_locks
  unfolding get_logger_locks
  get_logger_locks-From = manager-From [] ([]-Closed (order root) 3)

  pub manager_yaml_locks-From : (m : Manager) → From root 2 (manager_yaml_locks m)
  unfolding manager_yaml_locks
  manager_yaml_locks-From m = manager-From (each (λ e. logger_yaml_locks m.store e.1) m.loggers) (
      each-Closed (order root) 3 (λ e. logger_yaml_locks m.store e.1) m.loggers
        (λ e. logger_yaml_locks-From m.store e.1))

  pub new_appender_locks-From : (k : Kind) (a : ℕ) → From root 5 (new_appender_locks k a)
  unfolding new_appender_locks
  new_appender_locks-From stdout a = []-Closed (order root) 5
  new_appender_locks-From (file name last) a = appender_locks-From root a
