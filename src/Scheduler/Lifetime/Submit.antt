-- ===== src/Scheduler/Lifetime/Submit.antt =====
-- Fibers that are made and scheduled on a scheduler of atpdxy/scheduler.cpp, before it stops.
use mathlib.Core.List.{map-append}
use atpdxy.Common.{
  ℕ, ◌+◌, ◌≡◌, refl, sym, ap, ◌∙◌, subst, ◌≢◌, ◌<◌, false, List, [], ◌∷◌, ◌++◌, append-nil,
  append_assoc, arith, All, All-append, length,
}
use atpdxy.Fiber.{new_fiber, Machine}
use atpdxy.Scheduler.{fiber_task, schedule}
use atpdxy.Scheduler.Schedule.{schedule-SameButQueue, tasks-schedule, schedule_rest}
use atpdxy.Scheduler.Round.Drain.{Distinct}
use atpdxy.Scheduler.Lifetime.{Site}
use atpdxy.Scheduler.Lifetime.Entry.{CanStart, IsAlone}
use atpdxy.Scheduler.Lifetime.Making.{numbers}

-- A fiber is made, and scheduled.
abbrev pub submit : ℕ → ℕ → Site → Site
submit size cb s = record s {
  sched = schedule (fiber_task s.machine.next) s.sched;
  machine = (new_fiber size cb 0 false s.machine).0;
}

unfoldable pub submit_all : ℕ → List ℕ → Site → Site
submit_all size [] s = s
submit_all size (cb ∷ cbs) s = submit_all size cbs (submit size cb s)

new_fiber-CanStart :
    (size cb r t : ℕ) (m : Machine) (ps : List ℕ)
    → All (CanStart r t m) ps
    → All (CanStart r t (new_fiber size cb 0 false m).0) ps
unfolding new_fiber
new_fiber-CanStart size cb r t m [] h = tt
new_fiber-CanStart size cb r t m (p ∷ ps) (c, h) = (
  record {
    alive = ground (arith, c.alive, c.made);
    rests = ground (arith, c.rests, c.made);
    goes_on = record {
      goes = ground (arith, c.goes_on.goes, c.made);
      func_eq = ground (arith, c.goes_on.func_eq, c.made);
    };
    not_root = c.not_root;
    not_thread = c.not_thread;
    made = omega (arith, c.made);
  },
  new_fiber-CanStart size cb r t m ps h,
)

made-CanStart :
    (size cb r t : ℕ) (m : Machine)
    → r < m.next
    → t < m.next
    → CanStart r t (new_fiber size cb 0 false m).0 m.next
unfolding new_fiber
made-CanStart size cb r t m a b = record {
  alive = ground arith;
  rests = ground arith;
  goes_on = record { goes = ground arith; func_eq = ground arith };
  not_root = omega (arith, a);
  not_thread = omega (arith, b);
  made = omega arith;
}

Distinct-snoc :
    (ps : List ℕ) (r t : ℕ) (m : Machine)
    → Distinct ps
    → All (CanStart r t m) ps
    → Distinct (ps ++ m.next ∷ [])
Distinct-snoc [] r t m h k = (tt, tt)
Distinct-snoc (p ∷ ps) r t m (d, h) (c, k) = (
  All-append (λ q. p ≢ q) ps (m.next ∷ []) d (omega (arith, c.made), tt),
  Distinct-snoc ps r t m h k,
)

new_fiber_rest :
    (size cb q : ℕ) (m : Machine)
    → ((new_fiber size cb 0 false m).0.main_fiber ≡ m.main_fiber)
      × ((new_fiber size cb 0 false m).0.thread_fiber ≡ m.thread_fiber)
      × ((new_fiber size cb 0 false m).0.next ≡ m.next + 1)
      × (q < m.next → (new_fiber size cb 0 false m).0.fibers q ≡ m.fibers q)
unfolding new_fiber
new_fiber_rest size cb q m = (refl, refl, refl, λ h. ground arith)

new_fiber_running :
    (size cb : ℕ) (m : Machine) → (new_fiber size cb 0 false m).0.running ≡ m.running
unfolding new_fiber
new_fiber_running size cb m = refl

submit-IsAlone :
    (self size cb tid r t : ℕ) (ps : List ℕ) (s : Site)
    → IsAlone self tid r t ps s
    → IsAlone self tid r t (ps ++ s.machine.next ∷ []) (submit size cb s)
submit-IsAlone self size cb tid r t ps s x =
    let p = s.machine.next in
    let q = schedule-SameButQueue (fiber_task p) s.sched in
    let (root, threads) = schedule_rest (fiber_task p) s.sched in
    let (main, thread, next, same) = new_fiber_rest size cb r s.machine in
    record {
      root_eq = root ∙ x.root_eq;
      root_thread_eq = q.root_thread_eq ∙ x.root_thread_eq;
      no_threads = q.thread_count_eq ∙ x.no_threads;
      threads_eq = threads ∙ x.threads_eq;
      no_active = q.active_eq ∙ x.no_active;
      tasks_eq =
          tasks-schedule (fiber_task p) s.sched
          ∙ ap (λ ts. ts ++ fiber_task p ∷ []) x.tasks_eq
          ∙ sym (map-append fiber_task ps (p ∷ []));
      here_eq = x.here_eq;
      main_eq = main ∙ x.main_eq;
      thread_eq = thread ∙ x.thread_eq;
      runs = new_fiber_running size cb s.machine ∙ x.runs;
      root_ctx = ap (λ f. f.ctx) (same x.root_made) ∙ x.root_ctx;
      root_func = ap (λ f. f.func) (same x.root_made) ∙ x.root_func;
      root_made = omega (arith, x.root_made, next);
      root_not_thread = x.root_not_thread;
      thread_made = omega (arith, x.thread_made, next);
      waiting =
          All-append (CanStart r t (new_fiber size cb 0 false s.machine).0) ps (p ∷ [])
            (new_fiber-CanStart size cb r t s.machine ps x.waiting)
            (made-CanStart size cb r t s.machine x.root_made x.thread_made, tt);
      distinct = Distinct-snoc ps r t s.machine x.distinct x.waiting;
    }

pub submit_all-IsAlone :
    (self size : ℕ) (cbs : List ℕ) (tid r t : ℕ) (ps : List ℕ) (s : Site)
    → IsAlone self tid r t ps s
    → IsAlone self tid r t (ps ++ numbers (length cbs) s.machine.next) (submit_all size cbs s)
unfolding submit_all
submit_all-IsAlone self size [] tid r t ps s x =
    subst (λ qs. IsAlone self tid r t qs s) (sym (append-nil ps)) x
submit_all-IsAlone self size (cb ∷ cbs) tid r t ps s x =
    let p = s.machine.next in
    let rest =
      submit_all-IsAlone self size cbs tid r t (ps ++ p ∷ []) (submit size cb s)
        (submit-IsAlone self size cb tid r t ps s x) in
    subst (λ qs. IsAlone self tid r t qs (submit_all size cbs (submit size cb s)))
      (ap (λ n. (ps ++ p ∷ []) ++ numbers (length cbs) n) (new_fiber_rest size cb p s.machine).2
        ∙ append_assoc ps (p ∷ []) (numbers (length cbs) (p + 1)))
      rest
