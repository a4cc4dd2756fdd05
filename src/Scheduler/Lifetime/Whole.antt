-- ===== src/Scheduler/Lifetime/Whole.antt =====
-- The life of a Scheduler of atpdxy/scheduler.cpp with one thread, which is the one that makes it.
use atpdxy.Common.{
  ℕ, ◌+◌, ◌≡◌, refl, sym, ap, ◌∙◌, subst, true, false, none, List, [], ◌∷◌, inl, inr, Bool-cases,
  ==_self, length,
}
use atpdxy.Common.Bytes.{Bytes}
use atpdxy.Common.Result.{ok}
use atpdxy.Fiber.{Ending}
use atpdxy.Scheduler.{Scheduler}
use atpdxy.Scheduler.Round.{Turn}
use atpdxy.Scheduler.Round.Robin.{fibers, rounds, turns}
use atpdxy.Scheduler.Lifetime.Submit.{submit_all, submit_all-IsAlone}
use atpdxy.Scheduler.Lifetime.{Site, construct, start, start_from, stop, destroy}
use atpdxy.Scheduler.Lifetime.Entry.{IsAlone}
use atpdxy.Scheduler.Lifetime.Alone.{IsDone, stop_lem}
use atpdxy.Scheduler.Lifetime.Making.{construct-IsAlone, start_eq, numbers}

running : Scheduler → Scheduler
running s = record s { is_stopping = false }

started-IsAlone :
    {self tid r t : ℕ} {ps : List ℕ} (s : Site)
    → IsAlone self tid r t ps s
    → IsAlone self tid r t ps (record s { sched = running s.sched })
unfolding running
started-IsAlone s x = record {
  root_eq = x.root_eq;
  root_thread_eq = x.root_thread_eq;
  no_threads = x.no_threads;
  threads_eq = x.threads_eq;
  no_active = x.no_active;
  tasks_eq = x.tasks_eq;
  here_eq = x.here_eq;
  main_eq = x.main_eq;
  thread_eq = x.thread_eq;
  runs = x.runs;
  root_ctx = x.root_ctx;
  root_func = x.root_func;
  root_made = x.root_made;
  root_not_thread = x.root_not_thread;
  thread_made = x.thread_made;
  waiting = x.waiting;
  distinct = x.distinct;
}

-- `start` makes no thread where none is to be made.
start-IsAlone :
    {self tid r t : ℕ} {ps : List ℕ} (id_of : ℕ → ℕ) (s : Site)
    → IsAlone self tid r t ps s
    → (q : Scheduler) × (start id_of s.sched ≡ ok q)
      × IsAlone self tid r t ps (record s { sched = q })
unfolding start running
start-IsAlone id_of s x = elim (Bool-cases s.sched.is_stopping) [
  | inl e ↦ (
    running s.sched,
    start_eq id_of s.sched e x.threads_eq
        ∙ ap (λ n. ok (start_from id_of n 0 (running s.sched))) x.no_threads,
    started-IsAlone s x,
  )
  | inr e ↦ (s.sched, rw e refl, x)
]

destroy_done :
    {self r t : ℕ} {end_of : ℕ → Ending} {ps : List ℕ} {s : Site} (s' : Site)
    → IsDone self r t end_of ps s s'
    → destroy self s' ≡ ok (record s' { this_scheduler = none })
unfolding destroy
destroy_done {self = self} s' d = rw (d.is_stopping_eq, d.here_eq, ==_self self) refl

-- The fibers with the number of times that each yields.
abbrev pub jobs : (ℕ → ℕ) → List ℕ → List (ℕ × ℕ)
jobs count [] = []
jobs count (p ∷ ps) = (p, count p) ∷ jobs count ps

fibers-jobs : (count : ℕ → ℕ) (ps : List ℕ) → fibers (jobs count ps) ≡ ps
fibers-jobs count [] = refl
fibers-jobs count (p ∷ ps) = ap (◌∷◌ p) (fibers-jobs count ps)

-- The life of a scheduler, whose fibers `ps` have the callbacks `cbs` and yield `count` times: it is
-- constructed, the fibers are made and scheduled, it is started and stopped, and destroyed.
abbrev pub Lives :
    ℕ
    → ℕ
    → ℕ
    → ℕ
    → Bytes
    → (ℕ → ℕ)
    → (ℕ → ℕ)
    → (ℕ → Ending)
    → List ℕ
    → List ℕ
    → Turn
    → Turn
    → Site
    → Type 0
Lives self size root tid name id_of count end_of cbs ps u v s =
    (made : Site) × (construct self size root tid 1 true name s ≡ ok made)
    × (begun : Scheduler) × (start id_of (submit_all size cbs made).sched ≡ ok begun)
    × (done : Site) × (stop self size tid
          (turns end_of (rounds (jobs count ps)) (jobs count ps) u v)
          (record (submit_all size cbs made) { sched = begun })
        ≡ ok (done, []))
    × IsDone self (s.machine.next + 1) s.machine.next end_of ps
        (record (submit_all size cbs made) { sched = begun }) done
    × (destroy self done ≡ ok (record done { this_scheduler = none }))

-- On a thread that has no scheduler and has made no fiber yet: a scheduler of one thread that
-- uses the caller is constructed; one fiber or more, whose callbacks schedule nothing, yield a
-- number of times with YieldToReady and then return or throw, are made and scheduled; `start` and
-- `stop` are called; and the scheduler is destroyed. No call fails. Behind `stop` the queue is
-- empty and `stopping` holds, no thread is left to join, each fiber is in state TERM or EXCEPT as
-- its callback ended, the root fiber is in state TERM, the thread's own fiber runs, and of the
-- fibers made before `start` all but these and the thread's own are as they were.
pub life_ends :
    (self size root tid : ℕ) (name : Bytes) (id_of count : ℕ → ℕ) (end_of : ℕ → Ending) (cb : ℕ)
    (cbs : List ℕ) (u v : Turn) (s : Site)
    → s.this_scheduler ≡ none
    → s.machine.this_fiber ≡ none
    → Lives self size root tid name id_of count end_of
        (cb ∷ cbs)
        (numbers (length (cb ∷ cbs)) (s.machine.next + 2))
        u
        v
        s
life_ends self size root tid name id_of count end_of cb cbs u v s fresh first =
    let r = s.machine.next + 1 in
    let ps = numbers (length (cb ∷ cbs)) (s.machine.next + 2) in
    let (made, e, x, next) = construct-IsAlone self size root tid name s fresh first in
    let all = submit_all size (cb ∷ cbs) made in
    let y = submit_all-IsAlone self size (cb ∷ cbs) tid r s.machine.next [] made x in
    let z : IsAlone self tid r s.machine.next ps all =
      subst (λ n. IsAlone self tid r s.machine.next (numbers (length (cb ∷ cbs)) n) all) next y in
    let (begun, g, alone) = start-IsAlone id_of all z in
    let p = s.machine.next + 2 in
    let ps' = numbers (length cbs) (p + 1) in
    let same = ap (◌∷◌ p) (fibers-jobs count ps') in
    let t : Site = record all { sched = begun } in
    let (done, h, d) =
      stop_lem self size tid r s.machine.next end_of p (count p) (jobs count ps') u v t
        (subst (λ qs. IsAlone self tid r s.machine.next qs t) (sym same) alone) in
    let d' = subst (λ qs. IsDone self r s.machine.next end_of qs t done) same d in
    (made, e, begun, g, done, h, d', destroy_done done d')
