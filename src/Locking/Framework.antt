-- ===== src/Locking/Framework.antt =====
-- Threads that use the loggers and the configuration of the framework at the same time.
use atpdxy.Common.{ℕ, suc, ◌≡◌, ◌⊎◌, sym, subst, false, some, [], arith}
use atpdxy.Common.Bytes.{Bytes, is_empty}
use atpdxy.Mutex.Order.{Threads, Exclusive, AllIdle, Ordered, Steps, Reach}
use atpdxy.Mutex.Order.Nesting.{Closed-Ordered, []-Closed}
use atpdxy.Mutex.Order.Progress.{Reach-Exclusive}
use atpdxy.Mutex.Order.Finish.{finish}
use atpdxy.Locking.{Lock, same_lock, same_lock_iff, order, order-le}
use atpdxy.Locking.Loggers.{
  Acts, appender_locks, logger_locks, log_locks, macro_locks, add_appender_locks,
  set_formatter_locks, set_pattern_locks, logger_yaml_locks, get_logger_locks, manager_yaml_locks,
  new_appender_locks,
}
use atpdxy.Locking.Loggers.Ordered.{
  From, appender_locks-From, logger_locks-From, log_locks-From, macro_root-From,
}
use atpdxy.Locking.Loggers.Operations.{
  add_appender_locks-From, set_formatter_locks-From, set_pattern_locks-From, logger_yaml_locks-From,
  get_logger_locks-From, manager_yaml_locks-From, new_appender_locks-From,
}
use atpdxy.Locking.Configs.{
  to_string_locks, reader_locks, writer_locks, set_value_locks, from_string_locks,
  lookup_base_locks, lookup_or_new_locks, visit_locks, load_from_yaml_locks,
}
use atpdxy.Locking.Configs.Ordered.{
  to_string_locks-From, reader_locks-From, writer_locks-From, set_value_locks-From,
  from_string_locks-From, lookup_base_locks-From, lookup_or_new_locks-From, visit_locks-From,
  load_from_yaml_locks-From,
}
use atpdxy.Log.Level.{Level}
use atpdxy.Log.Store.{Kind, Store}
use atpdxy.Log.Logger.{Env}
use atpdxy.Log.Manager.{Manager}
use atpdxy.Config.Var.{Types, Var}
use atpdxy.Config.Table.{AnyVar, Configs}
use atpdxy.Config.Yaml.{Yaml}

-- The root logger has appenders.
abbrev pub HasAppenders : ℕ → Store → Type 0
HasAppenders root s = is_empty (s.loggers root).appenders ≡ false

-- The manager has this root logger, which has appenders.
abbrev pub IsRooted : ℕ → Manager → Type 0
IsRooted root m = (m.root ≡ root) × HasAppenders m.root m.store

module _ (T : Types) (Y : Yaml) (root : ℕ) where
  -- The calls on mutexes of an operation that a thread starts, in whatever state it finds. A logger
  -- that is logged to is the root logger or has it as its root. What listeners and the callback of
  -- Visit take is given.
  pub data Started : Acts → Type 0 where
    on_appender : (a : ℕ) → Started (appender_locks a)
    on_logger : (p : ℕ) → Started (logger_locks p)
    logs :
        (env : Env) (s : Store) (f : ℕ) (level : Level) (p : ℕ)
        → HasAppenders root s
        → (p ≡ root) ⊎ ((s.loggers p).root ≡ some root)
        → Started (log_locks env s (suc (suc f)) level p)
    reports :
        (env : Env) (s : Store) (level : Level)
        → HasAppenders root s
        → Started (macro_locks env s level [] root)
    adds_appender : (p a : ℕ) (s : Store) → Started (add_appender_locks p a s)
    sets_formatter : (p : ℕ) (s : Store) → Started (set_formatter_locks p s)
    sets_pattern : (p : ℕ) (val : Bytes) (s : Store) → Started (set_pattern_locks p val s)
    makes_appender : (k : Kind) (a : ℕ) → Started (new_appender_locks k a)
    prints_logger : (s : Store) (p : ℕ) → Started (logger_yaml_locks s p)
    gets_logger : Started get_logger_locks
    prints_manager : (m : Manager) → Started (manager_yaml_locks m)
    reads : (env : Env) (m : Manager) (v : ℕ) → IsRooted root m → Started (reader_locks env m T v)
    writes : (env : Env) (m : Manager) (v : ℕ) → IsRooted root m → Started (writer_locks env m T v)
    prints :
        (env : Env) (m : Manager) (v : ℕ) (c : AnyVar T)
        → IsRooted root m
        → Started (to_string_locks env m T v c)
    sets_value :
        (env : Env) (m : Manager) (t : T.Ty) (listeners : ℕ → Acts) (v : ℕ) (x : T.Val t)
        (c : Var T t)
        → IsRooted root m
        → ((i : ℕ) → From root 2 (listeners i))
        → Started (set_value_locks env m T t listeners v x c)
    parses :
        (env : Env) (m : Manager) (listeners : ℕ → Acts) (v : ℕ) (text : Bytes) (c : AnyVar T)
        → IsRooted root m
        → ((i : ℕ) → From root 2 (listeners i))
        → Started (from_string_locks env m T listeners v text c)
    looks_up : (env : Env) (m : Manager) → IsRooted root m → Started (lookup_base_locks env m T)
    looks_up_or_makes :
        (env : Env) (m : Manager) (t : T.Ty) (name : Bytes) (s : Configs T)
        → IsRooted root m
        → Started (lookup_or_new_locks env m T t name s)
    visits :
        (env : Env) (m : Manager) (cb : ℕ → Acts) (s : Configs T)
        → IsRooted root m
        → ((p : ℕ) → From root 1 (cb p))
        → Started (visit_locks env m T cb s)
    loads :
        (env : Env) (m : Manager) (listeners : ℕ → ℕ → Acts) (f : ℕ) (node : Y.Node) (s : Configs T)
        → IsRooted root m
        → ((p i : ℕ) → From root 2 (listeners p i))
        → Started (load_from_yaml_locks env m T Y listeners f node s)

  in_order : (low : ℕ) (acts : Acts) → From root low acts → Ordered (order root) [] acts
  in_order low acts h = Closed-Ordered (order root) low acts h

  -- What is shown for a manager's root is so for this root.
  at_root :
      (m : Manager) (low : ℕ) (acts : Acts)
      → IsRooted root m
      → From m.root low acts
      → Ordered (order root) [] acts
  at_root m low acts r h = in_order low acts (subst (λ p. From p low acts) r.0 h)

  back :
      (m : Manager) (low : ℕ) (acts : Acts)
      → IsRooted root m
      → From root low acts
      → From m.root low acts
  back m low acts r h = subst (λ p. From p low acts) (sym r.0) h

  Started-Ordered : (acts : Acts) → Started acts → Ordered (order root) [] acts
  Started-Ordered acts (on_appender a) = in_order 5 acts (appender_locks-From root a)
  Started-Ordered acts (on_logger p) = in_order 3 acts (logger_locks-From root p)
  Started-Ordered acts (logs env s f level p h r) =
      in_order 3 acts (log_locks-From root env s level h f p r)
  Started-Ordered acts (reports env s level h) =
      in_order 3 acts
        (macro_root-From root env s level h 3 [] (omega arith) ([]-Closed (order root) 3))
  Started-Ordered acts (adds_appender p a s) = in_order 3 acts (add_appender_locks-From root p a s)
  Started-Ordered acts (sets_formatter p s) = in_order 3 acts (set_formatter_locks-From root p s)
  Started-Ordered acts (sets_pattern p val s) =
      in_order 3 acts (set_pattern_locks-From root p val s)
  Started-Ordered acts (makes_appender k a) = in_order 5 acts (new_appender_locks-From root k a)
  Started-Ordered acts (prints_logger s p) = in_order 3 acts (logger_yaml_locks-From root s p)
  Started-Ordered acts gets_logger = in_order 2 acts (get_logger_locks-From root)
  Started-Ordered acts (prints_manager m) = in_order 2 acts (manager_yaml_locks-From root m)
  Started-Ordered acts (reads env m v r) = at_root m 1 acts r (reader_locks-From env m r.1 T v)
  Started-Ordered acts (writes env m v r) = at_root m 1 acts r (writer_locks-From env m r.1 T v)
  Started-Ordered acts (prints env m v c r) =
      at_root m 1 acts r (to_string_locks-From env m r.1 T v c)
  Started-Ordered acts (sets_value env m t listeners v x c r h) =
      at_root m 1 acts r
        (set_value_locks-From env m r.1 T listeners (λ i. back m 2 (listeners i) r (h i)) t v x c)
  Started-Ordered acts (parses env m listeners v text c r h) =
      at_root m 1 acts r (
        from_string_locks-From env m r.1 T listeners (λ i. back m 2 (listeners i) r (h i)) v text c)
  Started-Ordered acts (looks_up env m r) = at_root m 0 acts r (lookup_base_locks-From env m r.1 T)
  Started-Ordered acts (looks_up_or_makes env m t name s r) =
      at_root m 0 acts r (lookup_or_new_locks-From env m r.1 T t name s)
  Started-Ordered acts (visits env m cb s r h) =
      at_root m 0 acts r (visit_locks-From env m r.1 T cb s (λ p. back m 1 (cb p) r (h p)))
  Started-Ordered acts (loads env m listeners f node s r h) = at_root m 0 acts r (
      load_from_yaml_locks-From env m r.1 T Y listeners (λ p i. back m 2 (listeners p i) r (h p i))
        f node s)

  -- On any number of threads that start operations of loggers, appenders, the manager and the
  -- configuration in any order, in whatever states they find, provided as for locks_finish: while
  -- one of them holds a mutex alone, no other one holds it.
  pub locks_held_apart :
      (n : ℕ) {s : Threads Lock} → Reach same_lock Started n s → Exclusive same_lock n s
  locks_held_apart n r =
      Reach-Exclusive same_lock (order root) same_lock_iff Started Started-Ordered n r

  -- On any number of threads that start operations of loggers, appenders, the manager and the
  -- configuration in any order, in whatever states they find, provided that the root logger has
  -- appenders, a logger that is logged to is the root logger or has it as its root, listeners
  -- take no mutex of a variable or of the table, and the callback of Visit none of the table:
  -- they do not wait for each other in a circle. From every state that they reach, all can come
  -- to the end of their operations by their own steps, and hold no mutex then.
  pub locks_finish :
      (n : ℕ) {s : Threads Lock}
      → Reach same_lock Started n s
      → (t : Threads Lock) × Steps same_lock n s t × AllIdle n t
  locks_finish n r =
      finish same_lock (order root) same_lock_iff 5 (order-le root) Started Started-Ordered n r
