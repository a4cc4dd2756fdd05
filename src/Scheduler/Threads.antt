-- ===== src/Scheduler/Threads.antt =====
-- Scheduler::run in atpdxy/scheduler.cpp on several threads at once, over one scheduler. A step is
-- what a thread does between two points at which others can come in: what it does under the lock,
-- an operation on a counter, a swap of contexts. Of a fiber only its state is kept.
pub mod Counts
pub mod Stopping
use atpdxy.Common.{
  ℕ, zero, suc, ◌+◌, ◌<◌, ◌≡◌, Bool, true, false, not, Option, none, some, List, [], ◌∷◌, ◌==◌,
  if◌then◌else◌,
}
use atpdxy.Common.Result.{ok}
use atpdxy.Fiber.{
  State, init, hold, exec, is_exec, is_ready, is_over, is_at_rest, is_some, increment, decrement,
  update,
}
use atpdxy.Scheduler.{Task, Scheduler, Pick, tickle, schedule, pick, stopping, fiber_task}

-- Where a thread is in `run`. The flag of a turn says that the fiber is that of a callback; `found`
-- is behind the lock with a task, and `nothing` without; `turned` is in front of the decrement of
-- `m_activeThreadCount`, and `counted` behind it; `idled` says whether the idle fiber has ended.
pub data Phase : Type 0 where
  searching : Phase
  found : Task → Phase
  in_turn : Bool → ℕ → Phase
  turned : Bool → ℕ → Phase
  counted : Bool → ℕ → Phase
  nothing : Phase
  idling : Phase
  idled : Bool → Phase
  left : Phase

-- `idle_over` says of a thread that its idle fiber is in state TERM.
pub record System : Type 0 where
  pub sched : Scheduler
  pub states : ℕ → State
  pub at : ℕ → Phase
  pub idle_over : ℕ → Bool

abbrev pub move {ℓ} : {A : Type ℓ} → ℕ → A → (ℕ → A) → ℕ → A
move i p f j = if i == j then p else f j

-- The queue and the count as the inner loop leaves them, and the call of `tickle`.
abbrev pub after_pick : Pick → Scheduler → Scheduler
unfolding tickle
after_pick r s =
    let active = if is_some r.taken then increment s.active else s.active in
    let s' : Scheduler = record s { tasks = r.left; active = active } in
    if r.tickle_me then tickle s' else s'

abbrev pub phase_of : Option Task → Phase
phase_of none = nothing
phase_of (some t) = found t

-- `ft.fiber && (ft.fiber->getState() != Fiber::TERM && ...)` fails.
abbrev pub has_no_fiber : (ℕ → State) → Option ℕ → Bool
has_no_fiber states none = true
has_no_fiber states (some p) = is_over (states p)

abbrev pub less_active : Scheduler → Scheduler
less_active s = record s { active = decrement s.active }

-- Behind a turn: a fiber that is ready is scheduled; a callback's fiber that is over is reset, and
-- any other that is not over is on hold.
pub settle : Bool → ℕ → System → System
settle is_cb p s =
    let state = s.states p in
    if is_ready state
    then record s { sched = schedule (fiber_task p) s.sched }
    else if is_over state
    then record s { states = if is_cb then move p init s.states else s.states }
    else record s { states = move p hold s.states }

-- One step of one thread of `n`, whose ids `tid` gives; or of any other thread, which schedules a
-- task or calls `stop`. Where an assertion fails the thread takes no step any more.
pub data Step (n : ℕ) (tid : ℕ → ℕ) (s : System) : System → Type 0 where
  takes :
      (i : ℕ) (r : Pick)
      → i < n
      → s.at i ≡ searching
      → pick (tid i) s.states s.sched.tasks ≡ ok r
      → Step n tid s
          (record s { sched = after_pick r s.sched; at = move i (phase_of r.taken) s.at })
  swaps_in :
      (i p : ℕ) (t : Task)
      → i < n
      → s.at i ≡ found t
      → t.fiber ≡ some p
      → is_over (s.states p) ≡ false
      → is_exec (s.states p) ≡ false
      → Step n tid s
          (record s { states = move p exec s.states; at = move i (in_turn false p) s.at })
  swaps_in_callback :
      (i p cb : ℕ) (t : Task)
      → i < n
      → s.at i ≡ found t
      → has_no_fiber s.states t.fiber ≡ true
      → t.cb ≡ some cb
      → is_at_rest (s.states p) ≡ true
      → Step n tid s (record s { states = move p exec s.states; at = move i (in_turn true p) s.at })
  drops :
      (i : ℕ) (t : Task)
      → i < n
      → s.at i ≡ found t
      → has_no_fiber s.states t.fiber ≡ true
      → t.cb ≡ none
      → Step n tid s (record s { sched = less_active s.sched; at = move i searching s.at })
  swaps_out :
      (i p : ℕ) (is_cb : Bool) (state : State)
      → i < n
      → s.at i ≡ in_turn is_cb p
      → Step n tid s
          (record s { states = move p state s.states; at = move i (turned is_cb p) s.at })
  counts :
      (i p : ℕ) (is_cb : Bool)
      → i < n
      → s.at i ≡ turned is_cb p
      → Step n tid s (record s { sched = less_active s.sched; at = move i (counted is_cb p) s.at })
  settles :
      (i p : ℕ) (is_cb : Bool)
      → i < n
      → s.at i ≡ counted is_cb p
      → Step n tid s (record (settle is_cb p s) { at = move i searching s.at })
  idles :
      (i : ℕ)
      → i < n
      → s.at i ≡ nothing
      → s.idle_over i ≡ false
      → Step n tid s (record s {
        sched = record s.sched { idle = increment s.sched.idle };
        at = move i idling s.at;
      })
  looks :
      (i : ℕ)
      → i < n
      → s.at i ≡ idling
      → Step n tid s (record s { at = move i (idled (stopping s.sched)) s.at })
  wakes :
      (i : ℕ) (is_over : Bool)
      → i < n
      → s.at i ≡ idled is_over
      → Step n tid s (record s {
        sched = record s.sched { idle = decrement s.sched.idle };
        at = move i searching s.at;
        idle_over = move i is_over s.idle_over;
      })
  leaves :
      (i : ℕ)
      → i < n
      → s.at i ≡ nothing
      → s.idle_over i ≡ true
      → Step n tid s (record s { at = move i left s.at })
  submits : (t : Task) → Step n tid s (record s { sched = schedule t s.sched })
  sets_auto_stop : Step n tid s (record s { sched = record s.sched { auto_stop = true } })
  sets_stopping : Step n tid s (record s { sched = record s.sched { is_stopping = true } })

-- Each thread is in front of its first round, and the counts are 0.
pub record IsFresh (s : System) : Type 0 where
  pub all_searching : (i : ℕ) → s.at i ≡ searching
  pub none_over : (i : ℕ) → s.idle_over i ≡ false
  pub no_active : s.sched.active ≡ 0
  pub no_idle : s.sched.idle ≡ 0

pub data Reach (n : ℕ) (tid : ℕ → ℕ) (s : System) : System → Type 0 where
  here : Reach n tid s s
  later : {t u : System} → Reach n tid s t → Step n tid t u → Reach n tid s u
