-- ===== src/Log/Event.antt =====
-- atpdxy/log.h and atpdxy/log.cpp, class LogEvent. The logger is a pointer into the store of
-- loggers; `m_ss` is what was written to it.
use atpdxy.Common.{ℕ, ◌-◌, ◌^◌, Bool, true, false, Option, none, some, [], ◌++◌, ltb, if◌then◌else◌}
use atpdxy.Common.Bytes.{Bytes}
use atpdxy.Log.Level.{Level}

pub record Event : Type 0 where
  pub file : Bytes
  pub line : ℕ
  pub elapse : ℕ
  pub thread_id : ℕ
  pub fiber_id : ℕ
  pub time : ℕ
  pub content : Bytes
  pub thread_name : Bytes
  pub logger : ℕ
  pub level : Level

-- The constructor; nothing has been written to the stream.
unfoldable pub new_event : ℕ → Level → Bytes → ℕ → ℕ → ℕ → ℕ → ℕ → Bytes → Event
new_event logger level file line elapse thread_id fiber_id time thread_name = record {
  file = file;
  line = line;
  elapse = elapse;
  thread_id = thread_id;
  fiber_id = fiber_id;
  time = time;
  content = [];
  thread_name = thread_name;
  logger = logger;
  level = level;
}

-- `getSS() << text`.
unfoldable pub stream : Event → Bytes → Event
stream e text = record e { content = e.content ++ text }

-- `format(fmt, al)`, given what vasprintf returns: the text, or nothing for -1.
unfoldable pub vformat : Event → Option Bytes → Event
vformat e none = e
vformat e (some text) = record e { content = e.content ++ text }

-- `getElapse` returns the uint32_t as an int32_t, which this writes to a stream.
unfoldable pub as_int32 : ℕ → Bool × ℕ
as_int32 n = if ltb n (2 ^ 31) then (false, n) else (true, 2 ^ 32 - n)
