-- ===== src/Log/Macro/Assert.antt =====
-- ATPDXY_ASSERT and ATPDXY_ASSERT2 of atpdxy/macro.h: what a failed assertion writes to the root
-- logger before `assert` of the C library ends the program.
use atpdxy.Common.{
  ℕ, suc, ◌<◌, ◌≡◌, refl, sym, ap, ◌∙◌, Bool, true, false, not, Option, none, some, List, ◌++◌, map,
  drop, All, if◌then◌else◌, inl, inr, Bool-cases, arith,
}
use atpdxy.Common.Bytes.{Bytes, codes, is_empty}
use atpdxy.Common.Result.{Result, ok, ok-injective, ◌>>=◌}
use atpdxy.Util.{pos, Traces, Work, backtrace_to_string}
use atpdxy.Util.Lines.{lines, IsLine}
use atpdxy.Util.Frames.{lines-backtrace_to_string}
use atpdxy.Log.Level.{Level, at_least}
use atpdxy.Log.Event.{Event}
use atpdxy.Log.Store.{Store}
use atpdxy.Log.Logger.{Env, append_all}
use atpdxy.Log.Logger.Formatters.{IsReady}
use atpdxy.Log.Logger.Delivery.{Same, own_targets, log_refused, log_root_lem}
use atpdxy.Log.Macro.{Place, log_stream}
use atpdxy.Log.Macro.Guard.{event_of, log_stream-log}

-- Whether the program goes on behind the assertion.
pub data Outcome : Type 0 where
  goes_on aborts : Outcome

-- `#x`, and `w` of ATPDXY_ASSERT2.
pub message : Bytes → Option Bytes → Bytes → Bytes
message x none trace = codes "ASSERTION: " ++ (x ++ (codes "\nbacktrace:\n" ++ trace))
message x (some w) trace =
    codes "ASSERTION: " ++ (x ++ (codes "\n" ++ (w ++ (codes "\nbacktrace:\n" ++ trace))))

module _ (strftime : Bytes → ℕ → Bytes) (env : Env) (traces : Traces) where
  -- The stream macro, on the root logger; the backtrace is made only if its guard lets it.
  report : ℕ → Place → ℕ → Bytes → Option Bytes → Store → Work → Result (Store × Work)
  unfolding message
  report f here root x w s work =
      let (trace, work') = backtrace_to_string traces 100 (pos 2) (codes "    ") work in
      if at_least Level.error (s.loggers root).level
      then (log_stream strftime env f here root Level.error (message x w trace) s >>= λ s'.
          ok (s', work'))
      else ok (s, work)

  -- `ATPDXY_ASSERT(x)` and `ATPDXY_ASSERT2(x, w)`, without NDEBUG.
  pub log_assert :
      ℕ → Place → ℕ → Bool → Bytes → Option Bytes → Store → Work → Result (Store × Work × Outcome)
  unfolding report
  log_assert f here root holds x w s work =
      if not holds
      then (report f here root x w s work >>= λ r. ok (r.0, r.1, aborts))
      else ok (s, work, goes_on)

  module _ (here : Place) (root : ℕ) (x : Bytes) (w : Option Bytes) (s : Store) (work : Work)
      (texts : List Bytes) where
    abbrev trace : Bytes
    trace = (backtrace_to_string traces 100 (pos 2) (codes "    ") work).0

    -- The event that a failed assertion brings to the root logger.
    abbrev pub failure : Event
    failure = event_of here root Level.error env.now (message x w trace)

    report_lem :
        (f : ℕ)
        → IsReady s
        → root < s.next_logger
        → is_empty (s.loggers root).appenders ≡ false
        → (backtrace_to_string traces 100 (pos 2) (codes "    ") work).1 ≡ work
        → (s' : Store) × (report (suc f) here root x w s work ≡ ok (s', work))
          × (append_all strftime env
                (own_targets Level.error (s.loggers root))
                Level.error
                failure
                s
              ≡ ok s')
          × Same s s'
    unfolding report
    report_lem f h lr filled same_work =
        let (s', done, delivered, same) =
          log_root_lem strftime env Level.error failure s f root h lr filled in
        let streamed = log_stream-log strftime env Level.error here s f root (message x w trace) in
        (
          s',
          elim (Bool-cases (at_least Level.error (s.loggers root).level)) [
            | inl c ↦ rw c (
                ap
                  (λ (r : Result Store). r >>= λ t.
                    ok (t, (backtrace_to_string traces 100 (pos 2) (codes "    ") work).1))
                  (streamed ∙ done)
                ∙ ap (λ (b : Work). ok (s', b)) same_work)
            | inr c ↦
                let kept : ◌≡◌ {A = Result Store} (ok s) (ok s') =
                  sym (log_refused strftime env Level.error failure s f root c) ∙ done in
                rw c (ap (λ (t : Store). ok (t, work)) (ok-injective kept))
          ],
          delivered,
          same,
        )

    -- Where every made logger and the appenders attached to it have formatters, the root logger
    -- is made and has appenders, and backtrace_symbols gives texts without newlines: an assertion
    -- that fails brings one event of level ERROR to the root logger's appenders, if its level
    -- lets it through, gives back the memory that the backtrace took, and aborts; the lines of
    -- the backtrace in the event are the texts but for the first two, each indented. One that
    -- holds does nothing.
    pub log_assert_lem :
        (f : ℕ)
        → IsReady s
        → root < s.next_logger
        → is_empty (s.loggers root).appenders ≡ false
        → traces.backtrace_symbols (traces.backtrace 100) ≡ some texts
        → All IsLine texts
        → ((s' : Store) × (log_assert (suc f) here root false x w s work ≡ ok (s', work, aborts))
            × (append_all strftime env
                  (own_targets Level.error (s.loggers root))
                  Level.error
                  failure
                  s
                ≡ ok s')
            × Same s s')
          × (lines trace ≡ map (λ text. codes "    " ++ text) (drop 2 texts))
          × (log_assert (suc f) here root true x w s work ≡ ok (s, work, goes_on))
    unfolding log_assert
    log_assert_lem f h lr filled e clean =
        let (split, same_work) =
          lines-backtrace_to_string traces 100 (pos 2) (codes "    ") work texts e (omega arith)
            clean in
        let (s', reported, delivered, same) = report_lem f h lr filled same_work in
        (
          (
            s',
            ap (λ (r : Result (Store × Work)). r >>= λ d. ok (d.0, d.1, aborts)) reported,
            delivered,
            same,
          ),
          split,
          refl,
        )
