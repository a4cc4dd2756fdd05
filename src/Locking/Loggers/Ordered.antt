-- ===== src/Locking/Loggers/Ordered.antt =====
-- Each operation of the loggers takes its mutexes in the order of their ranks.
use mathlib.Core.Option.{some-injective}
use atpdxy.Common.{
  ℕ, suc, ◌≤◌, ◌≡◌, ◌⊎◌, inl, inr, sym, subst, false, not, Option, none, some, [], ◌++◌, arith,
  ◌==◌, ==_iff, Bool-cases, if◌then◌else◌,
}
use atpdxy.Common.Bytes.{is_empty}
use atpdxy.Mutex.Order.{exclusive, each, inside}
use atpdxy.Mutex.Order.Nesting.{
  Closed, []-Closed, append-Closed, if-Closed, each-Closed, inside-Closed, Closed-le,
}
use atpdxy.Locking.{logger, appender, order}
use atpdxy.Locking.Loggers.{
  Acts, appender_locks, logger_locks, reopen_locks, append_locks, log_locks, macro_locks,
}
use atpdxy.Log.Level.{Level, at_least}
use atpdxy.Log.Store.{Kind, stdout, file, Store}
use atpdxy.Log.Logger.{Env}

module _ (root : ℕ) where
  -- The operation takes only mutexes of rank `low` or above, in the order of their ranks.
  abbrev pub From : ℕ → Acts → Type 0
  From = Closed (order root)

  abbrev at_logger : ℕ → ℕ
  at_logger p = order root (logger p)

  pub appender-From : (a : ℕ) → From 5 (inside exclusive (appender a) [])
  appender-From a =
      inside-Closed (order root) 5 exclusive (appender a) [] (omega arith)
        ([]-Closed (order root) 6)

  -- A logger's mutex, with appenders' mutexes inside it.
  pub logger-From : (p : ℕ) (acts : Acts) → From 5 acts → From 3 (inside exclusive (logger p) acts)
  logger-From p acts h =
      inside-Closed (order root) 3 exclusive (logger p) acts (ground arith)
        (Closed-le (order root) (suc (at_logger p)) 5 acts (ground arith) h)

  pub appender_locks-From : (a : ℕ) → From 5 (appender_locks a)
  unfolding appender_locks
  appender_locks-From a = appender-From a

  pub logger_locks-From : (p : ℕ) → From 3 (logger_locks p)
  unfolding logger_locks
  logger_locks-From p = logger-From p [] ([]-Closed (order root) 5)

  module _ (env : Env) (s : Store) (level : Level) where
    reopen_locks-From : (a : ℕ) (k : Kind) → From 5 (reopen_locks env s a k)
    unfolding reopen_locks
    reopen_locks-From a stdout = []-Closed (order root) 5
    reopen_locks-From a (file name last) =
        if-Closed (order root) 5 (not (env.now == last)) (appender_locks a) []
          (appender_locks-From a) ([]-Closed (order root) 5)

    append_locks-From : (a : ℕ) → From 5 (append_locks env s level a)
    unfolding append_locks
    append_locks-From a =
        if-Closed (order root) 5 (at_least level (s.appenders a).level)
          (reopen_locks env s a (s.appenders a).kind ++ inside exclusive (appender a) []) []
          (append-Closed (order root) 5 (reopen_locks env s a (s.appenders a).kind)
            (inside exclusive (appender a) []) (reopen_locks-From a (s.appenders a).kind)
            (appender-From a))
          ([]-Closed (order root) 5)

    -- The root logger has appenders.
    module _ (filled : is_empty (s.loggers root).appenders ≡ false) where
      log_root-From : (f : ℕ) → From 4 (log_locks env s (suc f) level root)
      unfolding log_locks
      log_root-From f = elim (Bool-cases (at_least level (s.loggers root).level)) [
        | inl c ↦
            rw (c, filled)
              (inside-Closed (order root) 4 exclusive (logger root)
                (each (append_locks env s level) (s.loggers root).appenders) (ground arith)
                (Closed-le (order root) (suc (at_logger root)) 5 _ (ground arith) (
                  each-Closed (order root) 5 (append_locks env s level) (s.loggers root).appenders
                    append_locks-From)))
        | inr c ↦ rw c ([]-Closed (order root) 4)
      ]

      up-From :
          (f : ℕ) (o : Option ℕ)
          → o ≡ some root
          → From 4 (elim o [ none ↦ [] | some r ↦ log_locks env s (suc f) level r ])
      up-From f none e = cc
      up-From f (some r) e =
          subst (λ x. From 4 (log_locks env s (suc f) level x)) (some-injective _ _ (sym e))
            (log_root-From f)

      log_other-From :
          (f p : ℕ)
          → (p == root) ≡ false
          → (s.loggers p).root ≡ some root
          → From 3 (log_locks env s (suc (suc f)) level p)
      unfolding log_locks
      log_other-From f p other e =
          let l = s.loggers p in
          let up : Acts = elim l.root [ none ↦ [] | some r ↦ log_locks env s (suc f) level r ] in
          let own : Acts = each (append_locks env s level) l.appenders in
          let inner : Acts = if not (is_empty l.appenders) then own else up in
          let inner-From : From 4 inner =
            if-Closed (order root) 4 (not (is_empty l.appenders)) own up
              (Closed-le (order root) 4 5 own (omega arith) (
                each-Closed (order root) 5 (append_locks env s level) l.appenders
                  append_locks-From))
              (up-From f l.root e) in
          if-Closed (order root) 3 (at_least level l.level) (inside exclusive (logger p) inner) []
            (inside-Closed (order root) 3 exclusive (logger p) inner (ground arith) (
              Closed-le (order root) (suc (at_logger p)) 4 inner (ground (arith, other))
                inner-From))
            ([]-Closed (order root) 3)

      log_at_root-From : (f p : ℕ) → p ≡ root → From 3 (log_locks env s (suc (suc f)) level p)
      log_at_root-From f p e = rw e (
          Closed-le (order root) 3 4 (log_locks env s (suc (suc f)) level root) (omega arith)
            (log_root-From (suc f)))

      pub log_locks-From :
          (f p : ℕ)
          → (p ≡ root) ⊎ ((s.loggers p).root ≡ some root)
          → From 3 (log_locks env s (suc (suc f)) level p)
      log_locks-From f p (inl e) = log_at_root-From f p e
      log_locks-From f p (inr e) = elim (Bool-cases (p == root)) [
        | inl at ↦ log_at_root-From f p ((==_iff p root).0 at)
        | inr other ↦ log_other-From f p other e
      ]

      -- A macro on the root logger.
      pub macro_root-From :
          (low : ℕ) (text : Acts)
          → low ≤ 3
          → From low text
          → From low (macro_locks env s level text root)
      unfolding macro_locks
      macro_root-From low text le h =
          if-Closed (order root) low (at_least level (s.loggers root).level)
            (text ++ log_locks env s 2 level root) []
            (append-Closed (order root) low text (log_locks env s 2 level root) h (
              Closed-le (order root) low 4 (log_locks env s 2 level root) (omega arith)
                (log_root-From 1)))
            ([]-Closed (order root) low)
