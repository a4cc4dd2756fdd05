-- ===== src/Mutex.antt =====
-- atpdxy/mutex.h: the guards ScopedLockImpl, ReadLockImpl and WriteLockImpl, on any mutex. What a
-- guard does to its mutex are the calls that it makes.
pub mod Guards
pub mod Classes
pub mod CasLock
pub mod Order
pub mod Semaphore
use atpdxy.Common.{Bool, true, false, not, List, [], ◌∷◌, if◌then◌else◌}

-- Which of the three guards it is.
pub data Mode : Type 0 where
  scoped read write : Mode

pub data Call : Type 0 where
  lock rdlock wrlock unlock : Call

-- The call by which a guard takes its mutex.
abbrev pub acquire : Mode → Call
acquire scoped = lock
acquire read = rdlock
acquire write = wrlock

-- `m_locked`, and which guard it is.
pub record Guard : Type 0 where
  pub mode : Mode
  pub is_locked : Bool

-- The constructor.
pub new_guard : Mode → Guard × List Call
new_guard m = (record { mode = m; is_locked = true }, acquire m ∷ [])

-- `lock`
pub lock_guard : Guard → Guard × List Call
lock_guard g =
    if not g.is_locked then (record g { is_locked = true }, acquire g.mode ∷ []) else (g, [])

-- `unlock`
pub unlock_guard : Guard → Guard × List Call
unlock_guard g = if g.is_locked then (record g { is_locked = false }, unlock ∷ []) else (g, [])

-- The destructor.
pub destroy_guard : Guard → List Call
unfolding unlock_guard
destroy_guard g = (unlock_guard g).1
