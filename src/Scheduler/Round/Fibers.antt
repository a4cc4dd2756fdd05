-- ===== src/Scheduler/Round/Fibers.antt =====
-- A round of Scheduler::run in atpdxy/scheduler.cpp that takes a fiber.
use atpdxy.Common.{
  ℕ, ◌≡◌, refl, sym, ap, ◌∙◌, ◌≢◌, subst, true, false, some, List, [], ◌∷◌, ◌++◌, append-nil, arith,
}
use atpdxy.Common.Result.{Result, ok, fail, ◌>>=◌}
use atpdxy.Fiber.{is_exec, is_over, swap_in, State, hold, returned, threw}
use atpdxy.Fiber.Control.{
  stop, state_after, turn, turned, turn-turned, turned_state, turned_running, Stop, to_ready, bare,
  over,
}
use atpdxy.Fiber.Swaps.{CanGoOn, InMain}
use atpdxy.Scheduler.{fiber_task, pick, Task, Pick}
use atpdxy.Scheduler.Take.{pick-Picks, taken-Suits, Suits}
use atpdxy.Scheduler.Schedule.{works, tasks-schedule}
use atpdxy.Scheduler.Round.{
  spawn, run_turn, less_active, after_fiber, run_fiber, go_on, run_task, dispatch, round, run,
  World, Worker, Turn,
}
use atpdxy.Scheduler.Round.Grows.{spawn_lem}
use atpdxy.Scheduler.Round.Queue.{after_take, after_take-After, round_eq}

bind_assoc {ℓ κ μ} :
    {A : Type ℓ} {B : Type κ} {C : Type μ} (m : Result A) (f : A → Result B) (g : B → Result C)
    → (m >>= λ a. f a >>= g) ≡ ((m >>= f) >>= g)
bind_assoc (ok a) f g = refl
bind_assoc (fail e) f g = refl

pub run_turn-turned :
    (p f : ℕ) (t : Turn) (w : World)
    → InMain f w.machine
    → f ≢ p
    → CanGoOn p (w.machine.fibers p)
    → is_exec (w.machine.fibers p).state ≡ false
    → run_turn p t w
      ≡ ok (record { sched = spawn t.spawned w.sched; machine = turned p f t.how w.machine })
unfolding run_turn turn
run_turn-turned p f t w main ne goes rests =
    bind_assoc (swap_in p w.machine) (stop t.how) _
    ∙ ap (λ r. r >>= λ m'. ok (record { sched = spawn t.spawned w.sched; machine = m' }))
        (turn-turned p f t.how w.machine main ne goes rests)

-- The state in which the scheduler leaves a fiber after its turn.
abbrev pub rested : Stop → State
rested bare = hold
rested s = state_after s

-- A fiber that wants another turn goes to the end of the queue; the others do not.
abbrev pub requeued : Stop → ℕ → List Task
requeued to_ready p = fiber_task p ∷ []
requeued _ p = []

after_fiber_lem :
    (p : ℕ) (s : Stop) (w : World)
    → (w.machine.fibers p).state ≡ state_after s
    → (((after_fiber p w).machine.fibers p).state ≡ rested s)
      × ((after_fiber p w).sched.tasks ≡ w.sched.tasks ++ requeued s p)
      × ((after_fiber p w).machine.running ≡ w.machine.running)
unfolding after_fiber
after_fiber_lem p to_ready w e = rw (e) (e, tasks-schedule (fiber_task p) w.sched, refl)
after_fiber_lem p (over returned) w e = rw (e) (e, sym (append-nil w.sched.tasks), refl)
after_fiber_lem p (over threw) w e = rw (e) (e, sym (append-nil w.sched.tasks), refl)
after_fiber_lem p _ w e = rw (e) (ground arith, sym (append-nil w.sched.tasks), refl)

-- How a round leaves the fiber `p` that it took, whose turn `t` it was; `left` is what the inner loop
-- left in the queue, and `f` the scheduler's fiber.
pub record Served (p f : ℕ) (t : Turn) (left : List Task) (w' : World) : Type 0 where
  pub state_eq : (w'.machine.fibers p).state ≡ rested t.how
  pub tasks_eq : w'.sched.tasks ≡ (left ++ works t.spawned) ++ requeued t.how p
  pub back_in_main : w'.machine.running ≡ some f

run_fiber_lem :
    (p f : ℕ) (t : Turn) (k : Worker) (w : World)
    → InMain f w.machine
    → f ≢ p
    → CanGoOn p (w.machine.fibers p)
    → is_exec (w.machine.fibers p).state ≡ false
    → (w' : World) × (run_fiber p t k w ≡ ok (w', k)) × Served p f t w.sched.tasks w'
unfolding run_fiber
run_fiber_lem p f t k w main ne goes rests =
    let after : World = record {
      sched = spawn t.spawned w.sched;
      machine = turned p f t.how w.machine;
    } in
    let (st, ts, run) =
      after_fiber_lem p t.how (less_active after) (turned_state p f t.how w.machine) in
    (
      after_fiber p (less_active after),
      rw (run_turn-turned p f t w main ne goes rests),
      record {
        state_eq = st;
        tasks_eq = ts ∙ ap (λ v. v ++ requeued t.how p) ((spawn_lem t.spawned w.sched).0);
        back_in_main = run ∙ turned_running p f t.how w.machine;
      },
    )

pub dispatch_fiber :
    (size : ℕ) (task : Task) (t : Turn) (k : Worker) (w : World) {p : ℕ} {w' : World}
    → task.fiber ≡ some p
    → is_over (w.machine.fibers p).state ≡ false
    → run_fiber p t k w ≡ ok (w', k)
    → dispatch size (some task) t k w ≡ ok (w', k, true)
unfolding dispatch run_task
dispatch_fiber size task t k w {p} fib alive run =
    ap (λ o. run_task size o task.cb t k w) fib ∙ rw alive (ap (λ x. x >>= λ r. ok (go_on r)) run)

-- In a round whose inner loop takes a task with a fiber that has not ended and that goes on with
-- its own `MainFunc`, on a thread on which the code of another fiber, the scheduler's, runs, no
-- assertion fails and the loop goes on. The fiber has had its turn and the scheduler's fiber runs
-- again. The fiber's state is READY, HOLD, TERM or EXCEPT as its turn ended, HOLD also after a
-- bare swapOut. The queue is what the inner loop left, then the tasks with work that the turn
-- scheduled, and then the fiber itself, for any thread, if and only if it yielded with
-- YieldToReady.
pub round_fiber :
    (size : ℕ) (t : Turn) (k : Worker) (w : World) (p f : ℕ) {r : Pick} {task : Task}
    → InMain f w.machine
    → f ≢ p
    → CanGoOn p (w.machine.fibers p)
    → pick k.tid (λ q. (w.machine.fibers q).state) w.sched.tasks ≡ ok r
    → r.taken ≡ some task
    → task.fiber ≡ some p
    → is_over (w.machine.fibers p).state ≡ false
    → (w' : World) × (round size t k w ≡ ok (w', k, true)) × Served p f t r.left w'
round_fiber size t k w p f {r} {task} main ne goes e taken fib alive =
    let s : World = record w { sched = after_take w.sched r } in
    let suits : Suits k.tid (λ q. (w.machine.fibers q).state) task =
      taken-Suits {ts = w.sched.tasks}
        (pick-Picks k.tid (λ q. (w.machine.fibers q).state) w.sched.tasks e) taken in
    let rests : is_exec (w.machine.fibers p).state ≡ false = rw fib at suits.not_exec in
    let (w', run, served) = run_fiber_lem p f t k s main ne goes rests in
    (
      w',
      round_eq size t k w e
          ∙ ap (λ o. dispatch size o t k s) taken
          ∙ dispatch_fiber size task t k s fib alive run,
      subst (λ v. Served p f t v w') (after_take-After w.sched r).tasks_eq served,
    )
