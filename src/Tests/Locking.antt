-- ===== src/Tests/Locking.antt =====
-- Threads that log and configure at the same time.
use atpdxy.Common.{ℕ, ◌≡◌, refl, inr, true, [], ◌∷◌, arith, ◌++◌}
use atpdxy.Mutex.Order.{
  takes, shared, gives, exclusive, inside, Threads, move, idle, holds, bars, AllIdle, Step,
  step_takes, Steps, Reach, begin, steps, starts,
}
use atpdxy.Locking.{Lock, variable, logger, appender, same_lock}
use atpdxy.Locking.Loggers.{Acts, log_locks, on_change_locks}
use atpdxy.Locking.Loggers.Listener.{on_change_locks-From}
use atpdxy.Locking.Configs.{set_value_locks, writer_locks}
use atpdxy.Locking.Configs.Stuck.{own_listener_waits}
use atpdxy.Mutex.Order.Stuck.{Runs}
use atpdxy.Locking.Framework.{Started, logs, sets_value, locks_finish}
use atpdxy.Log.Level.{Level}
use atpdxy.Tests.Logs.{two_loggers, env, manager, net_define}
use atpdxy.Tests.Configs.{types, yaml, level, counted}

-- Logger 1 has no appenders, so its root logger 0 writes to appender 0.
abbrev logging : Acts
logging = log_locks env two_loggers 2 Level.info 1

logging_lem :
    logging
    ≡ inside exclusive (logger 1) (inside exclusive (logger 0) (inside exclusive (appender 0) []))
unfolding log_locks
logging_lem = refl

-- Thread 0 writes to logger 1; thread 1 sets a variable that the listener of LogIniter listens to.
abbrev setting : Acts
setting =
    set_value_locks env manager types true (λ i. on_change_locks env [] (net_define ∷ []) manager) 0
      9 level

abbrev both_started : Threads Lock
both_started =
    move 1 (record { todo = setting; held = [] })
      (move 0 (record { todo = logging; held = [] }) idle)

both_started-Reach : Reach same_lock (Started types yaml 0) 2 both_started
both_started-Reach =
    starts 1 setting
      (starts 0 logging begin (omega arith) refl
        (logs env two_loggers 0 Level.info 1 refl (inr refl)))
      (omega arith) refl
      (sets_value env manager true (λ i. on_change_locks env [] (net_define ∷ []) manager) 0 9 level
        (refl, refl) (λ i. on_change_locks-From env [] (net_define ∷ []) manager refl))

abbrev one_locked : Threads Lock
one_locked =
    move 0
      (record {
        todo =
            inside exclusive (logger 0) (inside exclusive (appender 0) []) ++ gives (logger 1) ∷ [];
        held = (exclusive, logger 1) ∷ [];
      })
      both_started

one_locked-Step : Step same_lock 2 both_started one_locked
unfolding log_locks bars holds
one_locked-Step =
    step_takes 0 exclusive (logger 1)
      (inside exclusive (logger 0) (inside exclusive (appender 0) []) ++ gives (logger 1) ∷ [])
      (omega arith) refl (λ j lt. ground arith)

locks_finish_example : (t : Threads Lock) × Steps same_lock 2 one_locked t × AllIdle 2 t
locks_finish_example = locks_finish types yaml 0 2 (steps both_started-Reach one_locked-Step)

-- The listener deletes itself; thread 0 has called it, and thread 1 starts to write.
abbrev self_deleting : ℕ → Acts
self_deleting i = writer_locks env manager types 0 ++ []

abbrev called : Threads Lock
called =
    move 0
      (record {
        todo =
            takes exclusive (variable 0)
            ∷ gives (variable 0)
            ∷ gives (variable 0)
            ∷ takes exclusive (variable 0)
            ∷ gives (variable 0)
            ∷ [];
        held = (shared, variable 0) ∷ [];
      })
      idle

abbrev writing : Threads Lock
writing = move 1 (record { todo = logging; held = [] }) called

own_listener_waits_example : writing 0 ≡ called 0
unfolding set_value_locks writer_locks
own_listener_waits_example =
    own_listener_waits env manager types true self_deleting 0 9 level (Started types yaml 0) 2 0 4
      counted [] [] [] {s = called} {u = writing} (omega arith) refl refl refl refl refl
      (Runs.starts 1 logging Runs.here (omega arith) refl
        (logs env two_loggers 0 Level.info 1 refl (inr refl)))
