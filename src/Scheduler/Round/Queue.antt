-- ===== src/Scheduler/Round/Queue.antt =====
-- The queue and the counts of threads under a round of Scheduler::run in atpdxy/scheduler.cpp.
use atpdxy.Scheduler.Round.Grows.{Grows, decrement-increment, dispatch-Grows}
use atpdxy.Common.{
  ℕ, ◌^◌, ◌<◌, ◌≡◌, refl, sym, ap, ◌∙◌, inl, inr, Bool, Option, none, some, List, ◌++◌,
  if◌then◌else◌, Bool-cases,
}
use atpdxy.Common.Result.{ok}
use atpdxy.Fiber.{is_some, increment, decrement, Machine}
use atpdxy.Scheduler.{tickle, pick, take, Task, Scheduler, Pick}
use atpdxy.Scheduler.Round.{dispatch, round, World, Worker, Turn}

abbrev pub after_take : Scheduler → Pick → Scheduler
after_take s r =
    let active = if is_some r.taken then increment s.active else s.active in
    let s' : Scheduler = record s { tasks = r.left; active = active } in
    if r.tickle_me then tickle s' else s'

pub take_eq :
    (tid : ℕ) (m : Machine) (s : Scheduler) {r : Pick}
    → pick tid (λ p. (m.fibers p).state) s.tasks ≡ ok r
    → take tid m s ≡ ok (after_take s r, r.taken)
unfolding take
take_eq tid m s e = rw e

pub record After (o : Option Task) (left : List Task) (s s' : Scheduler) : Type 0 where
  pub tasks_eq : s'.tasks ≡ left
  pub active_eq : s'.active ≡ (if is_some o then increment s.active else s.active)
  pub idle_eq : s'.idle ≡ s.idle

pub after_take-After : (s : Scheduler) (r : Pick) → After r.taken r.left s (after_take s r)
unfolding tickle
after_take-After s r = elim (Bool-cases r.tickle_me) [
  | inl e ↦ rw e (record { tasks_eq = refl; active_eq = refl; idle_eq = refl })
  | inr e ↦ rw e (record { tasks_eq = refl; active_eq = refl; idle_eq = refl })
]

After-Grows :
    (o : Option Task) {left : List Task} {s s' u : Scheduler}
    → After o left s s'
    → s.active < 2 ^ 64
    → Grows (if is_some o then decrement s'.active else s'.active) s'.idle s' u
    → Grows s.active s.idle (record s { tasks = left }) u
After-Grows none a small g = record {
  new = g.new;
  tasks_eq = g.tasks_eq ∙ ap (λ v. v ++ g.new) a.tasks_eq;
  new_work = g.new_work;
  active_is = g.active_is ∙ a.active_eq;
  idle_is = g.idle_is ∙ a.idle_eq;
}
After-Grows (some t) {s} a small g = record {
  new = g.new;
  tasks_eq = g.tasks_eq ∙ ap (λ v. v ++ g.new) a.tasks_eq;
  new_work = g.new_work;
  active_is = g.active_is ∙ ap decrement a.active_eq ∙ decrement-increment s.active small;
  idle_is = g.idle_is ∙ a.idle_eq;
}

-- A round is the inner loop and what follows it.
pub round_eq :
    (size : ℕ) (t : Turn) (k : Worker) (w : World) {r : Pick}
    → pick k.tid (λ p. (w.machine.fibers p).state) w.sched.tasks ≡ ok r
    → round size t k w ≡ dispatch size r.taken t k (record w { sched = after_take w.sched r })
unfolding round
round_eq size t k w e = rw (take_eq k.tid w.machine w.sched e)

-- Whatever a round takes and however the turn in it ends, if the round succeeds and the two
-- counters are in range, then the queue it leaves is what the inner loop left, in order, with new
-- tasks that all have work behind it, and the counts of active and of idle threads are those from
-- before the round.
pub round-Grows :
    (size : ℕ) (t : Turn) (k : Worker) (w : World) {r : Pick} {x : World × Worker × Bool}
    → w.sched.active < 2 ^ 64
    → w.sched.idle < 2 ^ 64
    → pick k.tid (λ p. (w.machine.fibers p).state) w.sched.tasks ≡ ok r
    → round size t k w ≡ ok x
    → Grows w.sched.active w.sched.idle (record w.sched { tasks = r.left }) x.0.sched
round-Grows size t k w {r} small_a small_i p e =
    let e' = sym (round_eq size t k w p) ∙ e in
    let s = after_take w.sched r in
    let a = after_take-After w.sched r in
    After-Grows r.taken a small_a
      (dispatch-Grows size r.taken t k (record w { sched = s }) (rw (a.idle_eq) small_i) e')
