-- ===== src/Scheduler/Round.antt =====
-- The outer loop of Scheduler::run in atpdxy/scheduler.cpp, a round at a time. A round is one step
-- here: what other threads do during it is left out. What a callback does in its turn is given: the
-- tasks that it schedules, and how it stops.
pub mod Grows
pub mod Queue
pub mod Stops
pub mod Fibers
pub mod Drain
pub mod Robin
use atpdxy.Common.{
  ℕ, ◌+◌, Bool, true, false, not, ◌||◌, Option, none, some, List, [], ◌∷◌, if◌then◌else◌,
}
use atpdxy.Common.Result.{Result, ok, fail, assertion, ◌>>=◌, ◌>>◌, assert}
use atpdxy.Fiber.{
  is_ready, is_over, is_some, set_state, increment, decrement, new_fiber, reset, swap_in, get_this,
  State, hold, term, Machine, returned,
}
use atpdxy.Fiber.Control.{stop, turn, Stop, to_hold, over}
use atpdxy.Scheduler.{fiber_task, schedule, stopping, is_elsewhere, take, Task, Scheduler}

-- The scheduler, and the fibers with one thread's pointers.
pub record World : Type 0 where
  pub sched : Scheduler
  pub machine : Machine

-- The local variables `idle_fiber` and `cb_fiber`, and the thread's id.
pub record Worker : Type 0 where
  pub tid : ℕ
  pub idle_fiber : ℕ
  pub cb_fiber : Option ℕ

pub record Turn : Type 0 where
  pub spawned : List Task
  pub how : Stop

abbrev idle_cb : ℕ
idle_cb = 0

-- In front of the loop. The callback of the idle fiber is that of `Scheduler::idle`.
unfoldable pub prepare : ℕ → ℕ → World → World × Worker
prepare size tid w =
    let (m, p) = get_this w.machine in
    let here : Machine =
      if is_elsewhere tid w.sched.root_thread || not (is_some w.sched.root_thread)
      then record m { main_fiber = some p }
      else w.machine in
    let (m', idle) = new_fiber size idle_cb 0 false here in
    (record w { machine = m' }, record { tid = tid; idle_fiber = idle; cb_fiber = none })

pub spawn : List Task → Scheduler → Scheduler
spawn [] s = s
spawn (t ∷ ts) s = spawn ts (schedule t s)

-- A fiber is swapped in, its callback schedules tasks, and it stops.
pub run_turn : ℕ → Turn → World → Result World
unfolding spawn
run_turn p t w = do
  m ← swap_in p w.machine
  m' ← stop t.how m
  ok (record { sched = spawn t.spawned w.sched; machine = m' })

abbrev pub less_active : World → World
less_active w = record w { sched = record w.sched { active = decrement w.sched.active } }

-- Behind the turn of a fiber of the queue.
pub after_fiber : ℕ → World → World
after_fiber p w =
    let state = (w.machine.fibers p).state in
    if is_ready state
    then record w { sched = schedule (fiber_task p) w.sched }
    else if not (is_over state)
    then record w { machine = set_state p hold w.machine }
    else w

pub run_fiber : ℕ → Turn → Worker → World → Result (World × Worker)
unfolding run_turn after_fiber
run_fiber p t k w = do w' ← run_turn p t w; ok (after_fiber p (less_active w'), k)

-- The callback's fiber is the one at hand, or a new one.
callback_fiber : ℕ → ℕ → Option ℕ → World → Result (World × ℕ)
callback_fiber size cb (some q) w = do
  m ← reset q (some cb) w.machine
  ok (record w { machine = m }, q)
callback_fiber size cb none w =
    let (m, q) = new_fiber size cb 0 false w.machine in ok (record w { machine = m }, q)

-- Behind the turn of a callback's fiber, which is kept only if it has ended.
after_callback : ℕ → Worker → World → Result (World × Worker)
after_callback q k w =
    let state = (w.machine.fibers q).state in
    if is_ready state
    then ok (record w { sched = schedule (fiber_task q) w.sched }, record k { cb_fiber = none })
    else if is_over state
    then (reset q none w.machine >>= λ m.
        ok (record w { machine = m }, record k { cb_fiber = some q }))
    else ok (record w { machine = set_state q hold w.machine }, record k { cb_fiber = none })

run_callback : ℕ → ℕ → Turn → Worker → World → Result (World × Worker)
unfolding callback_fiber run_turn after_callback
run_callback size cb t k w = do
  (w', q) ← callback_fiber size cb k.cb_fiber w
  w'' ← run_turn q t w'
  after_callback q k (less_active w'')

-- The body of `idle` up to its next yield: it goes on until `stopping` holds.
abbrev pub idle_turn : Scheduler → Turn
idle_turn s = record { spawned = []; how = if stopping s then over returned else to_hold }

abbrev pub count_idle : (ℕ → ℕ) → World → World
count_idle f w = record w { sched = record w.sched { idle = f w.sched.idle } }

after_idle : ℕ → World → World
after_idle p w =
    if not (is_over (w.machine.fibers p).state)
    then record w { machine = set_state p hold w.machine }
    else w

abbrev pub is_term : State → Bool
is_term State.term = true
is_term _ = false

-- The last part of the result says whether the loop goes on.
pub run_idle : Worker → World → Result (World × Worker × Bool)
unfolding run_turn after_idle stopping
run_idle k w =
    let p = k.idle_fiber in
    let turn : Result World = run_turn p (idle_turn w.sched) (count_idle increment w) in
    if is_term (w.machine.fibers p).state
    then ok (w, k, false)
    else (turn >>= λ w'. ok (after_idle p (count_idle decrement w'), k, true))

abbrev go_on : World × Worker → World × Worker × Bool
go_on (w, k) = (w, k, true)

-- `else if(ft.cb)`, and what is behind it, for a task that was taken.
run_rest : ℕ → Option ℕ → Turn → Worker → World → Result (World × Worker × Bool)
unfolding run_callback
run_rest size none t k w = ok (less_active w, k, true)
run_rest size (some cb) t k w = do r ← run_callback size cb t k w; ok (go_on r)

-- What follows the inner loop for a task that was taken; the first option is its fiber.
run_task : ℕ → Option ℕ → Option ℕ → Turn → Worker → World → Result (World × Worker × Bool)
unfolding run_fiber run_rest
run_task size none cb t k w = run_rest size cb t k w
run_task size (some p) cb t k w =
    if not (is_over (w.machine.fibers p).state)
    then (run_fiber p t k w >>= λ r. ok (go_on r))
    else run_rest size cb t k w

-- What follows the inner loop.
unfoldable pub dispatch : ℕ → Option Task → Turn → Worker → World → Result (World × Worker × Bool)
unfolding run_task run_idle
dispatch size none t k w = run_idle k w
dispatch size (some task) t k w = run_task size task.fiber task.cb t k w

-- One round of the outer loop.
unfoldable pub round : ℕ → Turn → Worker → World → Result (World × Worker × Bool)
unfolding take dispatch
round size t k w = do
  (s, taken) ← take k.tid w.machine w.sched
  dispatch size taken t k (record w { sched = s })

abbrev count_round : Option (World × ℕ) → Option (World × ℕ)
count_round none = none
count_round (some (w, n)) = some (w, n + 1)

-- The outer loop, on what the callbacks do in their turns: the world at its end, with the number of
-- rounds; `none` where the list of turns ends first.
unfoldable pub run : ℕ → List Turn → Worker → World → Result (Option (World × ℕ))
run size [] k w = ok none
run size (t ∷ ts) k w = do
  (w', k', more) ← round size t k w
  let rest = run size ts k' w'
  if more then (rest >>= λ r. ok (count_round r)) else ok (some (w', 1))
