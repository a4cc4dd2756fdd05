-- ===== src/Scheduler.antt =====
-- atpdxy/scheduler.h and atpdxy/scheduler.cpp: the queue of tasks, and the loop of a thread that
-- takes tasks from it.
pub mod Schedule
pub mod Take
pub mod Round
pub mod Threads
pub mod Lifetime
use atpdxy.Common.{
  ℕ, ◌+◌, Bool, true, false, not, ◌&&◌, ◌||◌, Option, none, some, List, [], ◌∷◌, ◌++◌, ◌==◌,
  if◌then◌else◌,
}
use atpdxy.Common.Bytes.{Bytes, is_empty}
use atpdxy.Common.Result.{Result, ok, fail, assertion, ◌>>=◌, ◌>>◌, assert}
use atpdxy.Fiber.{is_exec, is_some, increment, State, Machine}

-- `Scheduler::Task`: a fiber or a callback, and the thread that must run it, `none` for -1.
pub record Task : Type 0 where
  pub fiber : Option ℕ
  pub cb : Option ℕ
  pub thread : Option ℕ

-- `tickles` counts the calls of the virtual function `tickle`, which only logs here; `root_thread`
-- is `none` for -1.
pub record Scheduler : Type 0 where
  pub tasks : List Task
  pub root_fiber : Option ℕ
  pub name : Bytes
  pub threads : List ℕ
  pub thread_ids : List ℕ
  pub thread_count : ℕ
  pub active : ℕ
  pub idle : ℕ
  pub is_stopping : Bool
  pub auto_stop : Bool
  pub root_thread : Option ℕ
  pub tickles : ℕ

-- `ft.fiber || ft.cb`
abbrev pub has_work : Task → Bool
has_work t = is_some t.fiber || is_some t.cb

abbrev pub fiber_task : ℕ → Task
fiber_task p = record { fiber = some p; cb = none; thread = none }

-- `tickle`.
pub tickle : Scheduler → Scheduler
tickle s = record s { tickles = s.tickles + 1 }

-- `scheduleNoLock`: whether the queue was empty is reported, also where nothing is added.
pub schedule_no_lock : Task → Scheduler → Scheduler × Bool
schedule_no_lock t s =
    (if has_work t then record s { tasks = s.tasks ++ t ∷ [] } else s, is_empty s.tasks)

-- `schedule(fc, thread)`.
unfoldable pub schedule : Task → Scheduler → Scheduler
unfolding schedule_no_lock tickle
schedule t s = let (s', need) = schedule_no_lock t s in if need then tickle s' else s'

-- The loop of `schedule(begin, end)`, and what comes behind it.
pub schedule_onto : List Task → Bool → Scheduler → Scheduler
unfolding schedule_no_lock tickle
schedule_onto [] need s = if need then tickle s else s
schedule_onto (t ∷ ts) need s =
    let (s', empty) = schedule_no_lock (record t { thread = none }) s in
    schedule_onto ts (empty || need) s'

unfoldable pub schedule_all : List Task → Scheduler → Scheduler
unfolding schedule_onto
schedule_all ts s = schedule_onto ts false s

-- `stopping`.
unfoldable pub stopping : Scheduler → Bool
stopping s = s.auto_stop && (s.is_stopping && (is_empty s.tasks && (s.active == 0)))

-- `it->thread != -1 && it->thread != GetThreadId()`
abbrev pub is_elsewhere : ℕ → Option ℕ → Bool
is_elsewhere tid none = false
is_elsewhere tid (some t) = not (t == tid)

-- `it->fiber && it->fiber->getState() == Fiber::EXEC`
abbrev pub runs_already : (ℕ → State) → Option ℕ → Bool
runs_already state none = false
runs_already state (some p) = is_exec (state p)

-- What the inner loop of `run` finds: the task, the queue that is left, and `tickle_me`.
pub record Pick : Type 0 where
  pub taken : Option Task
  pub left : List Task
  pub tickle_me : Bool

pub pass : Task → Bool → Pick → Pick
pass t elsewhere r = record {
  taken = r.taken;
  left = t ∷ r.left;
  tickle_me = elsewhere || r.tickle_me;
}

-- The inner loop of `run`, on the part of the queue from `it` on. Where a task is taken, the test
-- `it != m_tasks.end()` behind the loop is made on the iterator of the erased element: it is read
-- as true, as it is for the nodes of a std::list.
unfoldable pub pick : ℕ → (ℕ → State) → List Task → Result Pick
unfolding pass
pick tid state [] = ok (record { taken = none; left = []; tickle_me = false })
pick tid state (t ∷ ts) =
    let rest = pick tid state ts in
    if is_elsewhere tid t.thread
    then (rest >>= λ r. ok (pass t true r))
    else if not (has_work t)
    then fail assertion
    else if runs_already state t.fiber
    then (rest >>= λ r. ok (pass t false r))
    else ok (record { taken = some t; left = ts; tickle_me = true })

-- What a round does under the lock, and the call of `tickle` behind it; the flag is `is_active`.
pub take : ℕ → Machine → Scheduler → Result (Scheduler × Option Task)
unfolding pick tickle
take tid m s = do
  r ← pick tid (λ p. (m.fibers p).state) s.tasks
  let active = if is_some r.taken then increment s.active else s.active
  let s' : Scheduler = record s { tasks = r.left; active = active }
  ok (if r.tickle_me then tickle s' else s', r.taken)
