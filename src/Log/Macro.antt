-- ===== src/Log/Macro.antt =====
-- The macros of atpdxy/log.h, and of atpdxy/log.cpp the class LogEventWrap and the two functions
-- LogEvent::format.
pub mod Guard
pub mod Assert
use atpdxy.Common.{ℕ, Bool, Option, ◌≡◌, if◌then◌else◌}
use atpdxy.Common.Bytes.{Bytes}
use atpdxy.Common.Result.{Result, ok}
use atpdxy.Fiber.{Machine}
use atpdxy.Util.{get_fiber_id32}
use atpdxy.Log.Level.{Level, at_least}
use atpdxy.Log.Event.{Event, new_event, stream, vformat}
use atpdxy.Log.Store.{Store}
use atpdxy.Log.Logger.{Env, log}

-- Where a macro stands: `__FILE__` and `__LINE__`, the thread's id of the kernel and its name, and
-- its fibers.
pub record Place : Type 0 where
  pub file : Bytes
  pub line : ℕ
  pub thread_id : ℕ
  pub thread_name : Bytes
  pub machine : Machine

-- `LogEvent::format(fmt, ...)`, which passes its arguments on; vasprintf is a parameter.
unfoldable pub format_args {ℓ} :
    {A : Type ℓ} → (Bytes → A → Option Bytes) → Event → Bytes → A → Event
format_args vasprintf e fmt args = vformat e (vasprintf fmt args)

module _ (strftime : Bytes → ℕ → Bytes) (env : Env) where
  -- The event of ATPDXY_LOG_LEVEL and ATPDXY_LOG_FMT_LEVEL.
  pub event_at : Place → ℕ → Level → Event
  event_at here logger level =
      new_event logger level here.file here.line 0 here.thread_id (get_fiber_id32 here.machine)
        env.now here.thread_name

  -- The destructor of LogEventWrap; the fuel is that of Logger::log.
  pub destroy_wrap : ℕ → Event → Store → Result Store
  destroy_wrap f e s = log strftime env f e.logger e.level e s

  -- `ATPDXY_LOG_LEVEL(logger, level) << text`.
  pub log_stream : ℕ → Place → ℕ → Level → Bytes → Store → Result Store
  unfolding event_at destroy_wrap
  log_stream f here logger level text s =
      if at_least level (s.loggers logger).level
      then destroy_wrap f (stream (event_at here logger level) text) s
      else ok s

  -- `ATPDXY_LOG_FMT_LEVEL(logger, level, fmt, ...)`.
  pub log_format {ℓ} :
      {A : Type ℓ}
      → (Bytes → A → Option Bytes)
      → ℕ
      → Place
      → ℕ
      → Level
      → Bytes
      → A
      → Store
      → Result Store
  unfolding event_at destroy_wrap
  log_format vasprintf f here logger level fmt args s =
      if at_least level (s.loggers logger).level
      then destroy_wrap f (format_args vasprintf (event_at here logger level) fmt args) s
      else ok s
