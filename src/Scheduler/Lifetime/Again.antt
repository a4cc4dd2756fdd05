-- ===== src/Scheduler/Lifetime/Again.antt =====
-- A second `stop` in atpdxy/scheduler.cpp, on a scheduler that has no thread but the one that made it.
use atpdxy.Common.{ℕ, ◌≡◌, refl, sym, ap, ◌∙◌, ◌≢◌, true, some, List, [], ◌∷◌, ◌++◌}
use atpdxy.Common.Result.{ok, fail, assertion}
use atpdxy.Fiber.{finished, Ending}
use atpdxy.Fiber.Calls.{call_finished}
use atpdxy.Scheduler.{has_work, schedule, tickle, Task, Scheduler}
use atpdxy.Scheduler.Schedule.{works, schedule-SameButQueue, schedule_rest, tasks-schedule}
use atpdxy.Scheduler.Round.{Turn}
use atpdxy.Scheduler.Round.Robin.{fibers, rounds, turns}
use atpdxy.Scheduler.Lifetime.{Site, call_root, stop}
use atpdxy.Scheduler.Lifetime.Entry.{IsAlone}
use atpdxy.Scheduler.Lifetime.Alone.{stopping_busy, stop_root_lem, stop_rest_lem, stop_eq, stop_lem}

stop_over :
    (self size tid r t : ℕ) (us : List Turn) (s : Site) {task : Task} {ts : List Task}
    → s.this_scheduler ≡ some self
    → s.sched.root_thread ≡ some tid
    → s.sched.thread_count ≡ 0
    → s.sched.root_fiber ≡ some r
    → s.machine.thread_fiber ≡ some t
    → t ≢ r
    → (s.machine.fibers r).ctx ≡ finished
    → s.sched.tasks ≡ task ∷ ts
    → stop self size tid us s ≡ fail assertion
unfolding call_root tickle
stop_over self size tid r t us s here root count fiber thread ne ctx tasks =
    let told : Scheduler = record s.sched { auto_stop = true; is_stopping = true } in
    let called_again : call_root self size tid us r (record s { sched = tickle told })
        ≡ fail assertion =
      rw (call_finished r t s.machine thread ne ctx) refl in
    stop_eq self size tid us s tasks
    ∙ stop_rest_lem self size tid r us (record s { sched = record s.sched { auto_stop = true } })
        here root count fiber
        (stop_root_lem self size tid r us (record s { sched = told })
          (stopping_busy (tickle told) tasks) called_again)

one_work : (task : Task) → has_work task ≡ true → works (task ∷ []) ≡ task ∷ []
one_work task h = rw h refl

-- On a thread with the only scheduler, of which it is the only thread, with fibers in the queue,
-- one or more, whose callbacks schedule nothing, yield a number of times and then return or
-- throw: `stop` succeeds. A further task with work can be scheduled, but `stop` called again then
-- fails an assertion, whatever turns are given: it calls the root fiber behind the end of its
-- function.
pub stop_again :
    (self size tid r t : ℕ) (end_of : ℕ → Ending) (p n : ℕ) (js : List (ℕ × ℕ)) (u v : Turn)
    (us : List Turn) (task : Task) (s : Site)
    → IsAlone self tid r t (p ∷ fibers js) s
    → has_work task ≡ true
    → (s' : Site) × (stop self size tid (turns end_of (rounds ((p, n) ∷ js)) ((p, n) ∷ js) u v) s
        ≡ ok (s', []))
      × (stop self size tid us (record s' { sched = schedule task s'.sched }) ≡ fail assertion)
stop_again self size tid r t end_of p n js u v us task s x work =
    let (s', e, d) = stop_lem self size tid r t end_of p n js u v s x in
    let q = schedule-SameButQueue task s'.sched in
    (
      s',
      e,
      stop_over self size tid r t us (record s' { sched = schedule task s'.sched }) {task = task}
          {ts = []} d.here_eq (q.root_thread_eq ∙ d.root_thread_eq ∙ x.root_thread_eq)
          (q.thread_count_eq ∙ d.no_threads ∙ x.no_threads)
          ((schedule_rest task s'.sched).0 ∙ d.root_eq ∙ x.root_eq) d.thread_eq
          (λ i. x.root_not_thread (sym i)) d.root_ctx
          (tasks-schedule task s'.sched
            ∙ ap (λ ts. ts ++ works (task ∷ [])) d.tasks_eq
            ∙ one_work task work),
    )
