-- ===== src/Scheduler/Lifetime.antt =====
-- atpdxy/scheduler.cpp: the constructor, `start`, `stop` and the destructor of Scheduler, as the
-- thread that calls them goes through them. `stop` is called from the thread's own fiber.
pub mod Entry
pub mod Alone
pub mod Again
pub mod Making
pub mod Submit
pub mod Whole
use atpdxy.Common.{
  ℕ, zero, suc, ◌+◌, ◌-◌, ltb, ◌==◌, Bool, true, false, not, ◌&&◌, ◌||◌, Option, none, some, List,
  [], ◌∷◌, ◌++◌, if◌then◌else◌,
}
use atpdxy.Common.Bytes.{Bytes, is_empty}
use atpdxy.Common.Result.{Result, ok, fail, out_of_fuel, unmodelled, ◌>>=◌, ◌>>◌, assert}
use atpdxy.Fiber.{
  is_some, points_to, new_fiber, call, get_this, caller_main_func_end, State, init, term, Func,
  caller_main_func, Context, Machine, returned,
}
use atpdxy.Thread.{Thread, Locals, set_name}
use atpdxy.Scheduler.{tickle, stopping, Scheduler}
use atpdxy.Scheduler.Round.{prepare, run, World, Worker, Turn}

-- The scheduler, the fibers, and of the calling thread `t_scheduler`, its Thread, if it has one, and
-- the name that Thread::SetName sets.
pub record Site : Type 0 where
  pub sched : Scheduler
  pub machine : Machine
  pub this_scheduler : Option ℕ
  pub thread : Option Thread
  pub locals : Locals

-- What the members are initialised to.
abbrev pub blank : Bytes → Scheduler
blank name = record {
  tasks = [];
  root_fiber = none;
  name = name;
  threads = [];
  thread_ids = [];
  thread_count = 0;
  active = 0;
  idle = 0;
  is_stopping = true;
  auto_stop = false;
  root_thread = some 0;
  tickles = 0;
}

-- The branch `use_caller` of the constructor, for the scheduler `self` in the thread `tid`; `cb` is
-- the callback that is bound to `run`.
take_caller : ℕ → ℕ → ℕ → ℕ → ℕ → Site → Result Site
take_caller self size cb tid threads s = do
  let (m, _) = get_this s.machine
  assert (not (is_some s.this_scheduler))
  let (made, root) = new_fiber size cb 0 true m
  let (thread, locals) = set_name s.sched.name s.thread s.locals
  let sched : Scheduler = record s.sched {
    root_fiber = some root;
    root_thread = some tid;
    thread_ids = s.sched.thread_ids ++ tid ∷ [];
    thread_count = threads - 1;
  }
  let machine : Machine = record made { main_fiber = some root }
  ok (record {
    sched = sched;
    machine = machine;
    this_scheduler = some self;
    thread = thread;
    locals = locals;
  })

-- The constructor. The members of `s.sched` are overwritten.
unfoldable pub construct : ℕ → ℕ → ℕ → ℕ → ℕ → Bool → Bytes → Site → Result Site
unfolding take_caller
construct self size cb tid threads use_caller name s =
    let new : Site = record s { sched = blank name } in
    let alone : Scheduler = record (blank name) { root_thread = none; thread_count = threads } in
    assert (ltb 0 threads)
    >> (if use_caller
        then take_caller self size cb tid threads new
        else ok (record new { sched = alone }))

-- The destructor.
pub destroy : ℕ → Site → Result Site
destroy self s =
    assert s.sched.is_stopping
    >> ok (if points_to s.this_scheduler self then record s { this_scheduler = none } else s)

-- The loop of `start`: so many threads, from that number on. A thread is known by its number, and
-- its name is left out; the ids are given, and are set when Thread's constructor is over.
pub start_from : (ℕ → ℕ) → ℕ → ℕ → Scheduler → Scheduler
start_from id_of zero i s = s
start_from id_of (suc n) i s =
    start_from id_of n (i + 1)
      (record s { threads = s.threads ++ i ∷ []; thread_ids = s.thread_ids ++ id_of i ∷ [] })

-- `start`.
unfoldable pub start : (ℕ → ℕ) → Scheduler → Result Scheduler
unfolding start_from
start id_of s =
    if not s.is_stopping
    then ok s
    else (assert (is_empty s.threads)
        >> ok (start_from id_of s.thread_count 0 (record s { is_stopping = false })))

-- What `m_rootFiber->call()` goes on with. At its start `CallerMainFunc` runs `run`, given what
-- callbacks do in their turns, and goes back. A root fiber that was suspended inside `run` goes on
-- there, which is not modelled: it comes of a `stop` inside a task.
run_context : ℕ → ℕ → ℕ → List Turn → Func → Context → Site → Result Site
run_context self size tid turns caller_main_func Context.start s = do
  let (w, k) = prepare size tid (record { sched = s.sched; machine = s.machine })
  r ← run size turns k w
  (w', rounds) ← elim r [ none ↦ fail out_of_fuel | some x ↦ ok x ]
  m ← caller_main_func_end returned w'.machine
  ok (record s { sched = w'.sched; machine = m; this_scheduler = some self })
run_context self size tid turns _ _ s = fail unmodelled

pub call_root : ℕ → ℕ → ℕ → List Turn → ℕ → Site → Result Site
unfolding run_context
call_root self size tid turns root s = do
  let f = s.machine.fibers root
  m ← call root s.machine
  run_context self size tid turns f.func f.ctx (record s { machine = m })

-- `m_rootFiber->getState() == TERM || m_rootFiber->getState() == INIT`
abbrev pub is_term_or_init : State → Bool
is_term_or_init init = true
is_term_or_init term = true
is_term_or_init _ = false

abbrev pub root_at_rest : Option ℕ → Machine → Bool
root_at_rest none m = false
root_at_rest (some r) m = is_term_or_init (m.fibers r).state

tickle_times : ℕ → Scheduler → Scheduler
unfolding tickle
tickle_times zero s = s
tickle_times (suc n) s = tickle_times n (tickle s)

-- The last part of `stop` that concerns the root fiber.
pub stop_root : ℕ → ℕ → ℕ → List Turn → Option ℕ → Site → Result Site
unfolding tickle call_root stopping
stop_root self size tid turns none s = ok s
stop_root self size tid turns (some r) s =
    let tickled : Site = record s { sched = tickle s.sched } in
    if not (stopping tickled.sched) then call_root self size tid turns r tickled else ok tickled

-- `stop`: the site behind it, and the threads that were joined.
pub stop_rest : ℕ → ℕ → ℕ → List Turn → Site → Result (Site × List ℕ)
unfolding tickle_times stop_root
stop_rest self size tid turns s = do
  let is_here = points_to s.this_scheduler self
  assert (if is_some s.sched.root_thread then is_here else not is_here)
  let told : Scheduler = record s.sched { is_stopping = true }
  let woken : Site = record s { sched = tickle_times told.thread_count told }
  s' ← stop_root self size tid turns s.sched.root_fiber woken
  ok (record s' { sched = record s'.sched { threads = [] } }, s'.sched.threads)

pub stop : ℕ → ℕ → ℕ → List Turn → Site → Result (Site × List ℕ)
unfolding stop_rest stopping
stop self size tid turns s =
    let auto : Site = record s { sched = record s.sched { auto_stop = true } } in
    let idle_root =
      (auto.sched.thread_count == 0) && root_at_rest auto.sched.root_fiber auto.machine in
    let told : Site = record auto { sched = record auto.sched { is_stopping = true } } in
    let rest : Result (Site × List ℕ) = stop_rest self size tid turns auto in
    if idle_root && stopping told.sched then ok (told, []) else rest
