-- ===== src/Scheduler/Schedule.antt =====
-- What scheduling does to the queue of atpdxy/scheduler.h.
use atpdxy.Common.{
  ◌≡◌, ap, ◌∙◌, Bool, true, false, ◌||◌, none, List, [], ◌∷◌, ◌++◌, map, append_assoc, append-nil,
  arith, if◌then◌else◌, All,
}
use atpdxy.Scheduler.{
  has_work, schedule_no_lock, schedule, schedule_onto, schedule_all, Task, Scheduler,
}

-- The tasks that have work.
abbrev pub works : List Task → List Task
works [] = []
works (t ∷ ts) = if has_work t then t ∷ works ts else works ts

pub works-All : (ts : List Task) → All (λ t. has_work t ≡ true) (works ts)
works-All [] = tt
works-All (t ∷ ts) = ground (arith, works-All ts)

-- The two schedulers differ in the queue and the number of tickles alone.
pub record SameButQueue (s s' : Scheduler) : Type 0 where
  pub active_eq : s'.active ≡ s.active
  pub idle_eq : s'.idle ≡ s.idle
  pub is_stopping_eq : s'.is_stopping ≡ s.is_stopping
  pub auto_stop_eq : s'.auto_stop ≡ s.auto_stop
  pub root_thread_eq : s'.root_thread ≡ s.root_thread
  pub thread_count_eq : s'.thread_count ≡ s.thread_count

pub schedule-SameButQueue : (t : Task) (s : Scheduler) → SameButQueue s (schedule t s)
unfolding schedule
schedule-SameButQueue t s = ground arith

pub schedule_rest :
    (t : Task) (s : Scheduler)
    → ((schedule t s).root_fiber ≡ s.root_fiber) × ((schedule t s).threads ≡ s.threads)
unfolding schedule
schedule_rest t s = ground arith

pub tasks-schedule : (t : Task) (s : Scheduler) → (schedule t s).tasks ≡ s.tasks ++ works (t ∷ [])
unfolding schedule
tasks-schedule t s = ground (arith, append-nil s.tasks)

abbrev unpin : Task → Task
unpin t = record t { thread = none }

pub SameButQueue-trans :
    {a b c : Scheduler} → SameButQueue a b → SameButQueue b c → SameButQueue a c
SameButQueue-trans x y = ground arith

works-cons : (t : Task) (ts : List Task) → works (t ∷ []) ++ works ts ≡ works (t ∷ ts)
works-cons t ts = ground arith

-- A step and the rest of a loop that schedules tasks one by one.
pub tasks_trans :
    (q : List Task) (t : Task) (ts : List Task) {a b : List Task}
    → a ≡ q ++ works (t ∷ [])
    → b ≡ a ++ works ts
    → b ≡ q ++ works (t ∷ ts)
tasks_trans q t ts e f =
    f
    ∙ ap (λ v. v ++ works ts) e
    ∙ append_assoc q (works (t ∷ [])) (works ts)
    ∙ ap (◌++◌ q) (works-cons t ts)

schedule_onto_lem :
    (ts : List Task) (need : Bool) (s : Scheduler)
    → ((schedule_onto ts need s).tasks ≡ s.tasks ++ works (map unpin ts))
      × SameButQueue s (schedule_onto ts need s)
unfolding schedule_onto
schedule_onto_lem [] need s = (ground (arith, append-nil s.tasks), ground arith)
schedule_onto_lem (t ∷ ts) need s =
    let x = schedule_no_lock (unpin t) s in
    let (q, r) = schedule_onto_lem ts (x.1 || need) x.0 in
    (
      tasks_trans s.tasks (unpin t) (map unpin ts) (ground (arith, append-nil s.tasks)) q,
      SameButQueue-trans (ground arith) r,
    )

-- Scheduling a range of tasks puts those of them that have work behind the queue, in order and
-- for any thread, and changes the queue and the number of tickles alone.
pub schedule_all_lem :
    (ts : List Task) (s : Scheduler)
    → ((schedule_all ts s).tasks ≡ s.tasks ++ works (map unpin ts))
      × SameButQueue s (schedule_all ts s)
unfolding schedule_all
schedule_all_lem ts s = schedule_onto_lem ts false s
