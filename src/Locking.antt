-- ===== src/Locking.antt =====
-- The mutexes of atpdxy/log.h and atpdxy/config.h: those of LoggerManager, Logger and LogAppender,
-- which are taken alone, and those of ConfigVar and of Config, which have readers and writers.
pub mod Loggers
pub mod Configs
pub mod Framework
use atpdxy.Common.{ℕ, ◌≤◌, ◌≡◌, refl, ◌↔◌, Bool, true, false, arith, ◌==◌, ==_iff, if◌then◌else◌}

-- `Config::GetMutex()`, and `m_mutex` of a variable, of the manager, a logger and an appender.
pub data Lock : Type 0 where
  table manager : Lock
  variable logger appender : ℕ → Lock

unfoldable pub same_lock : Lock → Lock → Bool
same_lock table table = true
same_lock manager manager = true
same_lock (variable p) (variable q) = p == q
same_lock (logger p) (logger q) = p == q
same_lock (appender p) (appender q) = p == q
same_lock _ _ = false

pub same_lock_iff : (k l : Lock) → (same_lock k l ≡ true) ↔ (k ≡ l)
unfolding same_lock
same_lock_iff table l = ground arith
same_lock_iff manager l = ground arith
same_lock_iff (variable p) l = ground arith
same_lock_iff (logger p) l = ground arith
same_lock_iff (appender p) l = ground arith

-- The order in which they are taken, where the root logger is given.
abbrev pub order : ℕ → Lock → ℕ
order root table = 0
order root (variable p) = 1
order root manager = 2
order root (logger p) = if p == root then 4 else 3
order root (appender p) = 5

pub order-le : (root : ℕ) (l : Lock) → order root l ≤ 5
order-le root table = omega arith
order-le root (variable p) = omega arith
order-le root manager = omega arith
order-le root (logger p) = ground arith
order-le root (appender p) = omega arith
