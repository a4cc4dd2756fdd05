-- ===== src/Locking/Loggers/Listener.antt =====
-- The listener of LogIniter in atpdxy/log.cpp takes its mutexes in order, none of a variable's.
use atpdxy.Common.{ℕ, ◌≡◌, Bool, false, not, List, [], ◌∷◌, arith, ◌==◌, if◌then◌else◌}
use atpdxy.Common.Bytes.{Bytes, is_empty}
use atpdxy.Mutex.Order.Nesting.{[]-Closed, append-Closed, if-Closed, each-Closed, Closed-le}
use atpdxy.Locking.{order}
use atpdxy.Log.Formatter.{new_formatter}
use atpdxy.Log.Store.{Kind, stdout, file, Store}
use atpdxy.Log.Logger.{Env, new_appender, set_level, set_appender_level}
use atpdxy.Log.Level.{info}
use atpdxy.Log.Manager.{Manager, get_logger}
use atpdxy.Log.Define.{
  LogAppenderDefine, LogDefine, find_define, is_same, is_none, give_formatter, attach, configure,
}
use atpdxy.Locking.Loggers.{
  Acts, appender_locks, macro_locks, set_pattern_locks, get_logger_locks, new_appender_locks,
  attach_locks, attach_all_locks, configure_locks, configure_all_locks, disable_locks,
  on_change_locks,
}
use atpdxy.Locking.Loggers.Ordered.{From, appender_locks-From, macro_root-From}
use atpdxy.Locking.Loggers.Operations.{
  add_appender_locks-From, set_pattern_locks-From, get_logger_locks-From, new_appender_locks-From,
}

module _ (root : ℕ) where
  attach_locks-From :
      (name : Bytes) (l : ℕ) (a : LogAppenderDefine) (s : Store)
      → From root 3 (attach_locks name l a s)
  unfolding attach_locks
  attach_locks-From name l a s =
      let k : Kind = if a.type == 1 then file a.file 0 else stdout in
      let p : ℕ = (new_appender k s).1 in
      let inner : Acts = if not (new_formatter a.formatter).error then appender_locks p else [] in
      append-Closed (order root) 3 (new_appender_locks k p) _
        (Closed-le (order root) 3 5 (new_appender_locks k p) (omega arith)
          (new_appender_locks-From root k p))
        (append-Closed (order root) 3 (if is_empty a.formatter then [] else inner) _
          (Closed-le (order root) 3 5 _ (omega arith) (
            if-Closed (order root) 5 (is_empty a.formatter) [] inner ([]-Closed (order root) 5) (
              if-Closed (order root) 5 (not (new_formatter a.formatter).error) (appender_locks p) []
                (appender_locks-From root p) ([]-Closed (order root) 5))))
          (add_appender_locks-From root l p
            (give_formatter name p a (set_appender_level p a.level (new_appender k s).0))))

  attach_all_locks-From :
      (name : Bytes) (l : ℕ) (as' : List LogAppenderDefine) (s : Store)
      → From root 3 (attach_all_locks name l as' s)
  unfolding attach_all_locks
  attach_all_locks-From name l [] s = []-Closed (order root) 3
  attach_all_locks-From name l (a ∷ as') s =
      append-Closed (order root) 3 (attach_locks name l a s) _ (attach_locks-From name l a s)
        (attach_all_locks-From name l as' (attach name l a s))

  configure_locks-From : (d : LogDefine) (m : Manager) → From root 2 (configure_locks d m)
  unfolding configure_locks
  configure_locks-From d m =
      let l : ℕ = (get_logger d.name m).1 in
      let leveled : Store = set_level l d.level (get_logger d.name m).0.store in
      append-Closed (order root) 2 get_logger_locks _ (get_logger_locks-From root) (
        Closed-le (order root) 2 3 _ (omega arith) (
          append-Closed (order root) 3
            (if not (is_empty d.formatter) then set_pattern_locks l d.formatter leveled else []) _
            (if-Closed (order root) 3 (not (is_empty d.formatter))
              (set_pattern_locks l d.formatter leveled) []
              (set_pattern_locks-From root l d.formatter leveled) ([]-Closed (order root) 3))
            (attach_all_locks-From d.name l d.appenders _)))

  configure_all_locks-From :
      (old ds : List LogDefine) (m : Manager) → From root 2 (configure_all_locks old ds m)
  unfolding configure_all_locks
  configure_all_locks-From old [] m = []-Closed (order root) 2
  configure_all_locks-From old (d ∷ ds) m =
      let same : Bool = is_same d (find_define d.name old) in
      append-Closed (order root) 2 (if same then [] else configure_locks d m) _
        (if-Closed (order root) 2 same [] (configure_locks d m) ([]-Closed (order root) 2)
          (configure_locks-From d m))
        (configure_all_locks-From old ds (if same then m else configure d m))

  disable_locks-From : (new : List LogDefine) (d : LogDefine) → From root 2 (disable_locks new d)
  unfolding disable_locks
  disable_locks-From new d =
      if-Closed (order root) 2 (is_none (find_define d.name new)) get_logger_locks []
        (get_logger_locks-From root) ([]-Closed (order root) 2)

-- The listener takes mutexes from the manager's on.
pub on_change_locks-From :
    (env : Env) (old new : List LogDefine) (m : Manager)
    → is_empty (m.store.loggers m.root).appenders ≡ false
    → From m.root 2 (on_change_locks env old new m)
unfolding on_change_locks
on_change_locks-From env old new m filled =
    append-Closed (order m.root) 2 (macro_locks env m.store info [] m.root) _
      (macro_root-From m.root env m.store info filled 2 [] (omega arith)
        ([]-Closed (order m.root) 2))
      (append-Closed (order m.root) 2 (configure_all_locks old new m) _
        (configure_all_locks-From m.root old new m)
        (each-Closed (order m.root) 2 (disable_locks new) old (disable_locks-From m.root new)))
