-- ===== src/Tests/Locks.antt =====
-- Guards, locks, threads, and the threads of a scheduler.
use atpdxy.Common.{ℕ, suc, ◌+◌, ◌≤◌, ◌<◌, ◌≡◌, refl, true, false, some, [], ◌∷◌, ◌++◌, arith}
use atpdxy.Thread.Handshake.Lifetime.{
  turns, destroys, interruption, happen_all, new_object, uses_while_there, misused_after_interrupt,
}
use atpdxy.Thread.Handshake.{maker_turn, runner_turn, step}
use atpdxy.Common.Bytes.{codes}
use atpdxy.Mutex.{Mode}
use atpdxy.Mutex.Guards.{locks, unlocks, life}
use atpdxy.Mutex.Classes.{PthreadCall, rwmutex, calls_on, repeat, calls_on-life}
use atpdxy.Mutex.CasLock.{Pc, start, mutual_exclusion, lock_progress}
use atpdxy.Mutex.CasLock
use atpdxy.Thread.{new_thread, begin, returned}
use atpdxy.Thread.Handshake.{IsMade, run, round, handshake, handshake_ends}
use atpdxy.Fiber.{State}
use atpdxy.Scheduler.{fiber_task, pick, stopping, Pick}
use atpdxy.Scheduler.Threads.{Phase, System, Reach, Step, IsFresh, move, after_pick}
use atpdxy.Tests.Rounds.{busy}
use atpdxy.Scheduler.Threads.Counts.{busy_in, idle_in, total, counts_bounded}
use atpdxy.Scheduler.Threads.Stopping.{stopping-no_task}

calls_on-life_example :
    (n : ℕ) × (calls_on rwmutex (life Mode.read (unlocks ∷ unlocks ∷ locks ∷ []))
      ≡ some (repeat (suc n) (PthreadCall.rwlock_rdlock ∷ (PthreadCall.rwlock_unlock ∷ []))))
unfolding rwmutex
calls_on-life_example = calls_on-life rwmutex Mode.read (unlocks ∷ unlocks ∷ locks ∷ []) refl refl

-- Thread 0 takes the lock.
abbrev one_inside : CasLock.System
one_inside = record {
  flag = true;
  pc = CasLock.move 0 Pc.inside (CasLock.move 0 Pc.spinning (λ i. Pc.outside));
}

one_inside-reached : CasLock.Steps start one_inside
unfolding CasLock.new_flag CasLock.try_lock CasLock.test_and_set
one_inside-reached =
    CasLock.later (CasLock.later CasLock.here (CasLock.calls 0 refl)) (CasLock.tries 0 refl)

abbrev holder : ℕ
holder = 0

mutual_exclusion_example : holder ≡ 0
mutual_exclusion_example = mutual_exclusion one_inside-reached holder 0 refl refl

handshake_example :
    IsMade 7
      (codes "w")
      42
      9
      (run 7 (codes "w") 42 9 (round 7 (codes "w") 42 9) (begin 7 (codes "w")))
unfolding run
handshake_example =
    handshake 7 (codes "w") 42 9 (round 7 (codes "w") 42 9) (handshake_ends 7 (codes "w") 42 9 []).0

handshake_ends_example :
    ((run 7 (codes "w") 42 9 (round 7 (codes "w") 42 9) (begin 7 (codes "w"))).maker ≡ returned)
    × ((run 7 (codes "w") 42 9 (round 7 (codes "w") 42 9) (begin 7 (codes "w"))).called
        ≡ some 7 ∷ [])
handshake_ends_example = handshake_ends 7 (codes "w") 42 9 []

-- Two threads in front of their first round; the second system is told to stop.
abbrev threads : System
threads = record {
  sched = record busy { tasks = fiber_task 1 ∷ [] };
  states = λ p. State.init;
  at = λ i. Phase.searching;
  idle_over = λ i. false;
}

threads-IsFresh : IsFresh threads
threads-IsFresh = record {
  all_searching = λ i. refl;
  none_over = λ i. refl;
  no_active = refl;
  no_idle = refl;
}

abbrev stopped : System
stopped = record threads {
  sched = record busy { tasks = []; is_stopping = true; auto_stop = true };
}

stopped-IsFresh : IsFresh stopped
stopped-IsFresh = record {
  all_searching = λ i. refl;
  none_over = λ i. refl;
  no_active = refl;
  no_idle = refl;
}

abbrev tid : ℕ → ℕ
tid i = i + 100

abbrev first_pick : Pick
first_pick = record { taken = some (fiber_task 1); left = []; tickle_me = true }

abbrev one_busy : System
one_busy = record threads {
  sched = after_pick first_pick threads.sched;
  at = move 0 (Phase.found (fiber_task 1)) threads.at;
}

one_busy-reached : Reach 2 tid threads one_busy
unfolding pick
one_busy-reached = Reach.later Reach.here (Step.takes 0 first_pick (omega arith) refl refl)

counts_bounded_example :
    (one_busy.sched.active ≡ total 2 busy_in one_busy.at)
    × (one_busy.sched.idle ≡ total 2 idle_in one_busy.at)
    × (one_busy.sched.active + one_busy.sched.idle ≤ 2)
counts_bounded_example = counts_bounded (omega arith) threads-IsFresh one_busy-reached

stopping-no_task_example :
    (stopped.sched.tasks ≡ []) × ((i : ℕ) → i < 2 → busy_in (stopped.at i) ≡ 0)
unfolding stopping
stopping-no_task_example =
    stopping-no_task (omega arith) {tid = tid} stopped-IsFresh Reach.here refl

-- The owner destroys the Thread as soon as it can.
uses_while_there_example :
    (happen_all 7
      (codes "w")
      42
      9
      (turns maker_turn ∷ destroys ∷ turns runner_turn ∷ [])
      (new_object 7 (codes "w") 42 9)).misused
    ≡ false
uses_while_there_example =
    uses_while_there 7 (codes "w") 42 9 (turns maker_turn ∷ destroys ∷ turns runner_turn ∷ []) tt

-- The interruption comes in front of the first statement of `run`.
misused_after_interrupt_example :
    (happen_all 7
      (codes "w")
      42
      9
      ((turns maker_turn ∷ []) ++ interruption 7 (codes "w") 42 9)
      (new_object 7 (codes "w") 42 9)).misused
    ≡ true
unfolding happen_all step new_thread
misused_after_interrupt_example =
    misused_after_interrupt 7 (codes "w") 42 9 (turns maker_turn ∷ []) tt refl refl
