-- ===== src/Scheduler/Lifetime/Entry.antt =====
-- How the root fiber of a scheduler of atpdxy/scheduler.cpp, on the thread that made it, comes to the
-- loop of Scheduler::run.
use mathlib.Core.List.{map}
use atpdxy.Common.{
  ℕ, ◌≡◌, refl, sym, ap, ◌∙◌, subst, ◌≢◌, ◌<◌, true, false, none, some, List, [], ◌∷◌, arith, All,
  ==_self,
}
use atpdxy.Fiber.{is_exec, is_over, new_fiber, init, caller_main_func, start, Machine}
use atpdxy.Fiber.Swaps.{CanGoOn}
use atpdxy.Fiber.Calls.{called, called_other, called_rest}
use atpdxy.Scheduler.{fiber_task, tickle}
use atpdxy.Scheduler.Round.{prepare, World, Worker}
use atpdxy.Scheduler.Round.Drain.{Distinct, CanRun, Loop}
use atpdxy.Scheduler.Lifetime.{Site}

-- In front of `run`'s loop, on the thread that made the scheduler.
abbrev pub prepared : ℕ → ℕ → World → World × Worker
prepared size tid w = (
  record w { machine = (new_fiber size 0 0 false w.machine).0 },
  record { tid = tid; idle_fiber = w.machine.next; cb_fiber = none },
)

pub prepare-prepared :
    (size tid : ℕ) (w : World)
    → w.sched.root_thread ≡ some tid
    → prepare size tid w ≡ prepared size tid w
unfolding prepare new_fiber
prepare-prepared size tid w e = rw (e, ==_self tid) refl

-- The fiber `p` can have its turn, and is neither the root fiber `r` nor the thread's fiber `t`.
pub record CanStart (r t : ℕ) (m : Machine) (p : ℕ) : Type 0 where
  pub alive : is_over (m.fibers p).state ≡ false
  pub rests : is_exec (m.fibers p).state ≡ false
  pub goes_on : CanGoOn p (m.fibers p)
  pub not_root : r ≢ p
  pub not_thread : t ≢ p
  pub made : p < m.next

-- The thread that made the scheduler is its only one, and the fibers `ps` are in the queue.
pub record IsAlone (self tid r t : ℕ) (ps : List ℕ) (s : Site) : Type 0 where
  pub root_eq : s.sched.root_fiber ≡ some r
  pub root_thread_eq : s.sched.root_thread ≡ some tid
  pub no_threads : s.sched.thread_count ≡ 0
  pub threads_eq : s.sched.threads ≡ []
  pub no_active : s.sched.active ≡ 0
  pub tasks_eq : s.sched.tasks ≡ map fiber_task ps
  pub here_eq : s.this_scheduler ≡ some self
  pub main_eq : s.machine.main_fiber ≡ some r
  pub thread_eq : s.machine.thread_fiber ≡ some t
  pub runs : s.machine.running ≡ some t
  pub root_ctx : (s.machine.fibers r).ctx ≡ start
  pub root_func : (s.machine.fibers r).func ≡ caller_main_func
  pub root_made : r < s.machine.next
  pub root_not_thread : r ≢ t
  pub thread_made : t < s.machine.next
  pub waiting : All (CanStart r t s.machine) ps
  pub distinct : Distinct ps

pub new_other :
    (size cb : ℕ) (m : Machine) (q : ℕ)
    → q < m.next
    → (new_fiber size cb 0 false m).0.fibers q ≡ m.fibers q
unfolding new_fiber
new_other size cb m q h = ground arith

pub new_rest :
    (size cb : ℕ) (m : Machine)
    → ((new_fiber size cb 0 false m).0.thread_fiber ≡ m.thread_fiber)
      × ((new_fiber size cb 0 false m).0.main_fiber ≡ m.main_fiber)
      × ((new_fiber size cb 0 false m).0.running ≡ m.running)
      × (((new_fiber size cb 0 false m).0.fibers m.next).state ≡ init)
      × CanGoOn m.next ((new_fiber size cb 0 false m).0.fibers m.next)
unfolding new_fiber
new_rest size cb m =
    (refl, refl, refl, ground arith, record { goes = ground arith; func_eq = ground arith })

-- The world in which the root fiber starts the loop.
abbrev pub entered : ℕ → ℕ → ℕ → Site → World
entered size r t s = record {
  sched = tickle (record s.sched { auto_stop = true; is_stopping = true });
  machine = (new_fiber size 0 0 false (called r t s.machine)).0;
}

abbrev pub root_worker : ℕ → Site → Worker
root_worker tid s = record { tid = tid; idle_fiber = s.machine.next; cb_fiber = none }

pub called_lem :
    (r t : ℕ) (m : Machine) (size q : ℕ)
    → r ≢ q
    → t ≢ q
    → q < m.next
    → (new_fiber size 0 0 false (called r t m)).0.fibers q ≡ m.fibers q
called_lem r t m size q a b h =
    new_other size 0 (called r t m) q (subst (λ n. q < n) (sym (called_rest r t m).2) h)
    ∙ called_other r t m q a b

pub entered-CanRun :
    (size r t : ℕ) (m : Machine) (ps : List ℕ)
    → All (CanStart r t m) ps
    → All (CanRun r m.next (new_fiber size 0 0 false (called r t m)).0) ps
entered-CanRun size r t m [] h = tt
entered-CanRun size r t m (p ∷ ps) (c, h) =
    let same = called_lem r t m size p c.not_root c.not_thread c.made in
    (
      record {
        alive = ap (λ x. is_over x.state) same ∙ c.alive;
        rests = ap (λ x. is_exec x.state) same ∙ c.rests;
        goes_on = subst (CanGoOn p) (sym same) c.goes_on;
        not_main = c.not_root;
        not_idle = omega (arith, c.made);
      },
      entered-CanRun size r t m ps h,
    )

pub entered-Loop :
    (self size tid r t : ℕ) (ps : List ℕ) (s : Site)
    → IsAlone self tid r t ps s
    → Loop r (root_worker tid s) ps (entered size r t s)
unfolding tickle
entered-Loop self size tid r t ps s x =
    let made = (new_fiber size 0 0 false (called r t s.machine)).0 in
    let (_, m, run, i, g) = new_rest size 0 (called r t s.machine) in
    let (_, m', n) = called_rest r t s.machine in
    let fresh : (made.fibers s.machine.next).state ≡ init =
      subst (λ q. (made.fibers q).state ≡ init) n i in
    record {
      main = record { main = m ∙ m' ∙ x.main_eq; runs = run };
      tasks_eq = x.tasks_eq;
      auto_stop = refl;
      is_stopping = refl;
      no_active = x.no_active;
      can_run = entered-CanRun size r t s.machine ps x.waiting;
      distinct = x.distinct;
      main_not_idle = omega (arith, x.root_made);
      idle_goes_on = subst (λ q. CanGoOn q (made.fibers q)) n g;
      idle_rests = rw fresh refl;
      idle_alive = rw fresh refl;
    }
