-- ===== src/Scheduler/Round/Grows.antt =====
-- The queue and the counts of threads under the parts of a round of Scheduler::run in
-- atpdxy/scheduler.cpp.
use atpdxy.Common.{
  ℕ, ◌^◌, ◌<◌, ◌≡◌, refl, sym, ap, ◌∙◌, subst, inl, inr, Bool, true, not, Option, none, some, List,
  [], ◌∷◌, ◌++◌, append_assoc, append-nil, arith, if◌then◌else◌, Bool-cases, All, All-append,
}
use atpdxy.Common.Result.{ok, >>=-eq-ok, ok-injective}
use atpdxy.Fiber.{is_ready, is_over, is_some, increment, decrement, reset, swap_in}
use atpdxy.Fiber.Control.{stop}
use atpdxy.Scheduler.{has_work, fiber_task, schedule, Task, Scheduler}
use atpdxy.Scheduler.Schedule.{
  works, works-All, schedule-SameButQueue, tasks-schedule, SameButQueue-trans, tasks_trans,
  SameButQueue,
}
use atpdxy.Scheduler.Round.{
  spawn, run_turn, less_active, after_fiber, run_fiber, callback_fiber, after_callback,
  run_callback, idle_turn, count_idle, after_idle, is_term, run_idle, run_rest, run_task, dispatch,
  World, Worker, Turn,
}

pub spawn_lem :
    (ts : List Task) (s : Scheduler)
    → ((spawn ts s).tasks ≡ s.tasks ++ works ts) × SameButQueue s (spawn ts s)
unfolding spawn
spawn_lem [] s = (sym (append-nil s.tasks), ground arith)
spawn_lem (t ∷ ts) s =
    let (q, r) = spawn_lem ts (schedule t s) in
    (
      tasks_trans s.tasks t ts (tasks-schedule t s) q,
      SameButQueue-trans (schedule-SameButQueue t s) r,
    )

-- What a part of a round does to the scheduler: tasks with work come to the end of the queue, and
-- the two counts of threads end as `active` and `idle` say.
pub record Grows (active idle : ℕ) (s s' : Scheduler) : Type 0 where
  pub new : List Task
  pub tasks_eq : s'.tasks ≡ s.tasks ++ new
  pub new_work : All (λ t. has_work t ≡ true) new
  pub active_is : s'.active ≡ active
  pub idle_is : s'.idle ≡ idle

Grows-then :
    {a i : ℕ} {s t u : Scheduler} → Grows a i s t → Grows t.active t.idle t u → Grows a i s u
Grows-then {s} x y = record {
  new = x.new ++ y.new;
  tasks_eq = y.tasks_eq ∙ ap (λ v. v ++ y.new) x.tasks_eq ∙ append_assoc s.tasks x.new y.new;
  new_work = All-append _ x.new y.new x.new_work y.new_work;
  active_is = y.active_is ∙ x.active_is;
  idle_is = y.idle_is ∙ x.idle_is;
}

spawn-Grows : (ts : List Task) (s : Scheduler) → Grows s.active s.idle s (spawn ts s)
spawn-Grows ts s =
    let (q, r) = spawn_lem ts s in
    record {
      new = works ts;
      tasks_eq = q;
      new_work = works-All ts;
      active_is = r.active_eq;
      idle_is = r.idle_eq;
    }

schedule-Grows : (t : Task) (s : Scheduler) → Grows s.active s.idle s (schedule t s)
schedule-Grows t s =
    let r = schedule-SameButQueue t s in
    record {
      new = works (t ∷ []);
      tasks_eq = tasks-schedule t s;
      new_work = works-All (t ∷ []);
      active_is = r.active_eq;
      idle_is = r.idle_eq;
    }

Grows-refl : (s : Scheduler) → Grows s.active s.idle s s
Grows-refl s = record {
  new = [];
  tasks_eq = sym (append-nil s.tasks);
  new_work = tt;
  active_is = refl;
  idle_is = refl;
}

run_turn-Grows :
    (p : ℕ) (t : Turn) (w : World) {w' : World}
    → run_turn p t w ≡ ok w'
    → Grows w.sched.active w.sched.idle w.sched w'.sched
unfolding run_turn
run_turn-Grows p t w e =
    let (m, _, f) = >>=-eq-ok (swap_in p w.machine) _ e in
    let (m', _, g) = >>=-eq-ok (stop t.how m) _ f in
    subst (λ x. Grows w.sched.active w.sched.idle w.sched x.sched) (ok-injective g)
      (spawn-Grows t.spawned w.sched)

after_fiber-Grows :
    (p : ℕ) (w : World) → Grows w.sched.active w.sched.idle w.sched (after_fiber p w).sched
unfolding after_fiber
after_fiber-Grows p w = elim (Bool-cases (is_ready (w.machine.fibers p).state)) [
  | inl e ↦ rw e (schedule-Grows (fiber_task p) w.sched)
  | inr e ↦ elim (Bool-cases (not (is_over (w.machine.fibers p).state))) [
    | inl f ↦ rw (e, f) (Grows-refl w.sched)
    | inr f ↦ rw (e, f) (Grows-refl w.sched)
  ]
]

-- The number of active threads at the end of the turn is one less.
less_active-Grows :
    {a i : ℕ} {s : Scheduler} (w : World)
    → Grows a i s w.sched
    → Grows (decrement a) i s (less_active w).sched
less_active-Grows w g = record {
  new = g.new;
  tasks_eq = g.tasks_eq;
  new_work = g.new_work;
  active_is = ap decrement g.active_is;
  idle_is = g.idle_is;
}

-- The scheduler is as a part of the round left it, with one active thread less.
abbrev Less : Scheduler → Scheduler → Type 0
Less s s' = Grows (decrement s.active) s.idle s s'

run_fiber-Grows :
    (p : ℕ) (t : Turn) (k : Worker) (w : World) {x : World × Worker}
    → run_fiber p t k w ≡ ok x
    → Less w.sched x.0.sched
unfolding run_fiber
run_fiber-Grows p t k w e =
    let (w', f, g) = >>=-eq-ok (run_turn p t w) _ e in
    subst (λ x. Less w.sched x.0.sched) (ok-injective g)
      (Grows-then (less_active-Grows w' (run_turn-Grows p t w f))
        (after_fiber-Grows p (less_active w')))

after_callback-Grows :
    (q : ℕ) (k : Worker) (w : World) {x : World × Worker}
    → after_callback q k w ≡ ok x
    → Grows w.sched.active w.sched.idle w.sched x.0.sched
unfolding after_callback
after_callback-Grows q k w {x} e = elim (Bool-cases (is_ready (w.machine.fibers q).state)) [
  | inl r ↦
      subst (λ x. Grows w.sched.active w.sched.idle w.sched x.0.sched) (ok-injective (rw r at e))
        (schedule-Grows (fiber_task q) w.sched)
  | inr r ↦ elim (Bool-cases (is_over (w.machine.fibers q).state)) [
    | inl f ↦
        let (m, _, g) = >>=-eq-ok (reset q none w.machine) _ (rw (r, f) at e) in
        subst (λ x. Grows w.sched.active w.sched.idle w.sched x.0.sched) (ok-injective g)
          (Grows-refl w.sched)
    | inr f ↦
        subst (λ x. Grows w.sched.active w.sched.idle w.sched x.0.sched)
          (ok-injective (rw (r, f) at e)) (Grows-refl w.sched)
  ]
]

-- Getting the callback's fiber leaves the scheduler alone.
callback_fiber-sched :
    (size cb : ℕ) (o : Option ℕ) (w : World) {x : World × ℕ}
    → callback_fiber size cb o w ≡ ok x
    → x.0.sched ≡ w.sched
unfolding callback_fiber
callback_fiber-sched size cb (some q) w e =
    let (m, _, g) = >>=-eq-ok (reset q (some cb) w.machine) _ e in
    sym (ap (λ x. x.0.sched) (ok-injective g))
callback_fiber-sched size cb none w e = sym (ap (λ x. x.0.sched) (ok-injective e))

run_callback-Grows :
    (size cb : ℕ) (t : Turn) (k : Worker) (w : World) {x : World × Worker}
    → run_callback size cb t k w ≡ ok x
    → Less w.sched x.0.sched
unfolding run_callback
run_callback-Grows size cb t k w {x} e =
    let (a, f, g) = >>=-eq-ok (callback_fiber size cb k.cb_fiber w) _ e in
    let (b, h, l) = >>=-eq-ok (run_turn a.1 t a.0) _ g in
    subst (λ s. Less s x.0.sched) (callback_fiber-sched size cb k.cb_fiber w f)
      (Grows-then (less_active-Grows b (run_turn-Grows a.1 t a.0 h))
        (after_callback-Grows a.1 k (less_active b) l))

run_rest-Grows :
    (size : ℕ) (o : Option ℕ) (t : Turn) (k : Worker) (w : World) {x : World × Worker × Bool}
    → run_rest size o t k w ≡ ok x
    → Less w.sched x.0.sched
unfolding run_rest
run_rest-Grows size none t k w e =
    subst (λ x. Less w.sched x.0.sched) (ok-injective e) (less_active-Grows w (Grows-refl w.sched))
run_rest-Grows size (some cb) t k w e =
    let (a, f, g) = >>=-eq-ok (run_callback size cb t k w) _ e in
    subst (λ x. Less w.sched x.0.sched) (ok-injective g) (run_callback-Grows size cb t k w f)

pub decrement-increment : (n : ℕ) → n < 2 ^ 64 → decrement (increment n) ≡ n
decrement-increment n h = omega arith

after_idle-sched : (p : ℕ) (w : World) → (after_idle p w).sched ≡ w.sched
unfolding after_idle
after_idle-sched p w = ground arith

after_idle-Grows :
    {a i : ℕ} {s : Scheduler} (p : ℕ) (w : World)
    → Grows a (increment i) (record s { idle = increment i }) w.sched
    → i < 2 ^ 64
    → Grows a i s (after_idle p (count_idle decrement w)).sched
after_idle-Grows {i} p w g small = rw (after_idle-sched p (count_idle decrement w)) (record {
  new = g.new;
  tasks_eq = g.tasks_eq;
  new_work = g.new_work;
  active_is = g.active_is;
  idle_is = ap decrement g.idle_is ∙ decrement-increment i small;
})

run_idle-Grows :
    (k : Worker) (w : World) {x : World × Worker × Bool}
    → w.sched.idle < 2 ^ 64
    → run_idle k w ≡ ok x
    → Grows w.sched.active w.sched.idle w.sched x.0.sched
unfolding run_idle
run_idle-Grows k w small e = elim (Bool-cases (is_term (w.machine.fibers k.idle_fiber).state)) [
  | inl t ↦
      subst (λ x. Grows w.sched.active w.sched.idle w.sched x.0.sched) (ok-injective (rw t at e))
        (Grows-refl w.sched)
  | inr t ↦
      let (a, f, g) =
        >>=-eq-ok (run_turn k.idle_fiber (idle_turn w.sched) (count_idle increment w)) _
          (rw t at e) in
      subst (λ x. Grows w.sched.active w.sched.idle w.sched x.0.sched) (ok-injective g)
        (after_idle-Grows k.idle_fiber a
          (run_turn-Grows k.idle_fiber (idle_turn w.sched) (count_idle increment w) f) small)
]

run_task-Grows :
    (size : ℕ) (o cb : Option ℕ) (t : Turn) (k : Worker) (w : World) {x : World × Worker × Bool}
    → run_task size o cb t k w ≡ ok x
    → Less w.sched x.0.sched
unfolding run_task
run_task-Grows size none cb t k w e = run_rest-Grows size cb t k w e
run_task-Grows size (some p) cb t k w {x} e =
    elim (Bool-cases (not (is_over (w.machine.fibers p).state))) [
      | inl h ↦
          let (a, f, g) = >>=-eq-ok (run_fiber p t k w) _ (rw h at e) in
          subst (λ x. Less w.sched x.0.sched) (ok-injective g) (run_fiber-Grows p t k w f)
      | inr h ↦ run_rest-Grows size cb t k w (rw h at e)
    ]

pub dispatch-Grows :
    (size : ℕ) (o : Option Task) (t : Turn) (k : Worker) (w : World) {x : World × Worker × Bool}
    → w.sched.idle < 2 ^ 64
    → dispatch size o t k w ≡ ok x
    → Grows
        (if is_some o then decrement w.sched.active else w.sched.active)
        w.sched.idle
        w.sched
        x.0.sched
unfolding dispatch
dispatch-Grows size none t k w small e = run_idle-Grows k w small e
dispatch-Grows size (some task) t k w small e = run_task-Grows size task.fiber task.cb t k w e
