-- ===== src/Log/Macro/Guard.antt =====
-- What a macro of atpdxy/log.h brings to the appenders.
use atpdxy.Common.{
  ℕ, suc, ◌%◌, ◌^◌, ◌<◌, ◌≡◌, refl, sym, ◌∙◌, [], inl, inr, none, some, false, Bool-cases,
  if◌then◌else◌, Option,
}
use atpdxy.Common.Bytes.{Bytes, is_empty}
use atpdxy.Common.Result.{ok}
use atpdxy.Fiber.{get_fiber_id}
use atpdxy.Util.{get_fiber_id32}
use atpdxy.Log.Level.{Level, at_least}
use atpdxy.Log.Event.{Event, new_event, stream, vformat}
use atpdxy.Log.Store.{Store}
use atpdxy.Log.Logger.{Env, log, append_all}
use atpdxy.Log.Logger.Formatters.{IsReady}
use atpdxy.Log.Logger.Delivery.{Same, targets, log_refused, log_lem}
use atpdxy.Log.Macro.{Place, format_args, event_at, destroy_wrap, log_stream, log_format}

-- The event that a call with this text is to bring to the appenders.
abbrev pub event_of : Place → ℕ → Level → ℕ → Bytes → Event
event_of here logger level now text = record {
  file = here.file;
  line = here.line;
  elapse = 0;
  thread_id = here.thread_id;
  fiber_id = get_fiber_id here.machine % 2 ^ 32;
  time = now;
  content = text;
  thread_name = here.thread_name;
  logger = logger;
  level = level;
}

-- What is written for the answer of vasprintf.
abbrev pub written : Option Bytes → Bytes
written none = []
written (some text) = text

module _ (strftime : Bytes → ℕ → Bytes) (env : Env) (level : Level) (here : Place) (s : Store) where
  guard_lem :
      (f p : ℕ) (e : Event)
      → (if at_least level (s.loggers p).level then log strftime env (suc f) p level e s else ok s)
        ≡ log strftime env (suc f) p level e s
  guard_lem f p e = elim (Bool-cases (at_least level (s.loggers p).level)) [
    | inl c ↦ rw c refl
    | inr c ↦ rw c (sym (log_refused strftime env level e s f p c))
  ]

  pub log_stream-log :
      (f p : ℕ) (text : Bytes)
      → log_stream strftime env (suc f) here p level text s
        ≡ log strftime env (suc f) p level (event_of here p level env.now text) s
  unfolding log_stream event_at destroy_wrap new_event stream get_fiber_id32
  log_stream-log f p text = guard_lem f p (event_of here p level env.now text)

  vformat-eq :
      (p : ℕ) (o : Option Bytes)
      → vformat (event_at strftime env here p level) o ≡ event_of here p level env.now (written o)
  unfolding event_at new_event vformat get_fiber_id32
  vformat-eq p none = refl
  vformat-eq p (some text) = refl

  log_format-log {ℓ} :
      {A : Type ℓ} (vasprintf : Bytes → A → Option Bytes) (f p : ℕ) (fmt : Bytes) (args : A)
      → log_format strftime env vasprintf (suc f) here p level fmt args s
        ≡ log strftime env
            (suc f)
            p
            level
            (event_of here p level env.now (written (vasprintf fmt args)))
            s
  unfolding log_format format_args destroy_wrap
  log_format-log vasprintf f p fmt args =
      rw (vformat-eq p (vasprintf fmt args))
        (guard_lem f p (event_of here p level env.now (written (vasprintf fmt args))))

  -- Where every made logger and the appenders attached to it have formatters: a macro on a made
  -- logger whose root is a made logger with appenders meets no null pointer with fuel 2. The
  -- stream macro and the one with a format bring the same event to the same appenders, which
  -- write it one after the other: none if the logger's level refuses it, the logger's own if it
  -- has any, otherwise those of the root if the root's level lets it through. The event has the
  -- text that was streamed, or what vasprintf gave, and nothing where that failed; the place, the
  -- time, the thread's name and id, and the lowest 32 bits of the fiber's id. Loggers and
  -- formatters are not changed.
  pub log_macros_lem {ℓ} :
      {A : Type ℓ} (vasprintf : Bytes → A → Option Bytes) (fmt : Bytes) (args : A) (p r : ℕ)
      → IsReady s
      → p < s.next_logger
      → r < s.next_logger
      → (s.loggers p).root ≡ some r
      → is_empty (s.loggers r).appenders ≡ false
      → (s' : Store) × (log_format strftime env vasprintf 2 here p level fmt args s ≡ ok s')
        × (log_stream strftime env 2 here p level (written (vasprintf fmt args)) s ≡ ok s')
        × (append_all strftime env
              (targets level (s.loggers p) (s.loggers r))
              level
              (event_of here p level env.now (written (vasprintf fmt args)))
              s
            ≡ ok s')
        × Same s s'
  log_macros_lem vasprintf fmt args p r h lp lr root filled =
      let text = written (vasprintf fmt args) in
      let (s', done, delivered, same) =
        log_lem strftime env level (event_of here p level env.now text) s p r h lp lr root filled in
      (
        s',
        log_format-log vasprintf 1 p fmt args ∙ done,
        log_stream-log 1 p text ∙ done,
        delivered,
        same,
      )
