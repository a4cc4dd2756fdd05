-- ===== src/Scheduler/Round/Robin.antt =====
-- The loop of Scheduler::run in atpdxy/scheduler.cpp on fibers that yield a number of times and then
-- end, after `stop` has been called: they take turns.
use mathlib.Core.List.{map, map-append}
use atpdxy.Common.{
  ℕ, zero, suc, ◌+◌, ◌≡◌, refl, sym, ap, ◌∙◌, subst, ◌≢◌, true, false, some, List, [], ◌∷◌, ◌++◌,
  arith, All, All-append, ==_self,
}
use atpdxy.Common.Result.{ok}
use atpdxy.Fiber.{is_exec, is_over, increment, decrement, ready, Machine, Ending}
use atpdxy.Fiber.Control.{
  turned, turned_state, turned_thread, turned_main_fiber, turned_running, turned_ctx, turned_func,
  turned_other, to_ready,
}
use atpdxy.Fiber.Swaps.{goes_to, CanGoOn, InMain}
use atpdxy.Scheduler.{fiber_task, tickle, schedule, pick, Task}
use atpdxy.Scheduler.Schedule.{schedule-SameButQueue, tasks-schedule, schedule_rest}
use atpdxy.Scheduler.Round.{
  spawn, less_active, after_fiber, run_fiber, is_term, round, run, World, Worker, Turn,
}
use atpdxy.Scheduler.Round.Queue.{after_take, round_eq}
use atpdxy.Scheduler.Round.Fibers.{run_turn-turned, dispatch_fiber}
use atpdxy.Scheduler.Round.Drain.{
  ends, Distinct, first_pick, pick_first, served, round_over, CanRun, Loop, Drained, drain_nil,
  still-CanRun, served-Loop, served-Drained, run_more,
}

-- A turn in which the callback schedules nothing and yields with YieldToReady.
abbrev pub again : Turn
again = record { spawned = []; how = to_ready }

-- A round that takes the fiber in front, which yields.
abbrev yielded : ℕ → ℕ → List Task → World → World
yielded p f ts w =
    let w' : World = less_active (record {
      sched = after_take w.sched (first_pick p ts);
      machine = turned p f to_ready w.machine;
    }) in
    record w' { sched = schedule (fiber_task p) w'.sched }

after_fiber_ready :
    (p : ℕ) (w : World)
    → (w.machine.fibers p).state ≡ ready
    → after_fiber p w ≡ record w { sched = schedule (fiber_task p) w.sched }
unfolding after_fiber
after_fiber_ready p w h = rw h refl

run_fiber_ready :
    (p f : ℕ) (k : Worker) (w : World)
    → InMain f w.machine
    → f ≢ p
    → CanGoOn p (w.machine.fibers p)
    → is_exec (w.machine.fibers p).state ≡ false
    → run_fiber p again k w ≡ (
        let w' : World =
          less_active (record { sched = w.sched; machine = turned p f to_ready w.machine }) in
        ok (record w' { sched = schedule (fiber_task p) w'.sched }, k))
unfolding run_fiber spawn
run_fiber_ready p f k w main ne goes rests =
    let after : World = record { sched = w.sched; machine = turned p f to_ready w.machine } in
    rw (run_turn-turned p f again w main ne goes rests) (
      ap (λ v. ok (v, k))
        (after_fiber_ready p (less_active after) (turned_state p f to_ready w.machine)))

round-again :
    (size p f : ℕ) (ts : List Task) (k : Worker) (w : World)
    → InMain f w.machine
    → w.sched.tasks ≡ fiber_task p ∷ ts
    → CanRun f k.idle_fiber w.machine p
    → round size again k w ≡ ok (yielded p f ts w, k, true)
round-again size p f ts k w main q c =
    let s : World = record w { sched = after_take w.sched (first_pick p ts) } in
    round_eq size again k w
      (ap (pick k.tid (λ q. (w.machine.fibers q).state)) q ∙ pick_first k.tid p _ ts c.rests)
    ∙ dispatch_fiber size (fiber_task p) again k s refl c.alive
        (run_fiber_ready p f k s main c.not_main c.goes_on c.rests)

-- The fiber in front goes to the end.
Distinct-rotate : (p : ℕ) (ps : List ℕ) → Distinct (p ∷ ps) → Distinct (ps ++ p ∷ [])
Distinct-rotate p [] d = (tt, tt)
Distinct-rotate p (q ∷ ps) ((a, b), (c, d)) =
    (All-append (λ r. q ≢ r) ps (p ∷ []) c ((λ e. a (sym e)), tt), Distinct-rotate p ps (b, d))

All-unsnoc : (P : ℕ → Type 0) (ps : List ℕ) (p : ℕ) → All P (ps ++ p ∷ []) → All P ps × P p
All-unsnoc P [] p h = (tt, h.0)
All-unsnoc P (q ∷ ps) p (a, h) = let (b, c) = All-unsnoc P ps p h in ((a, b), c)

turned-CanGoOn :
    (p f : ℕ) (m : Machine) → CanGoOn p (m.fibers p) → CanGoOn p ((turned p f to_ready m).fibers p)
turned-CanGoOn p f m c = record {
  goes = ap (goes_to p) (turned_ctx p f to_ready m) ∙ ==_self p;
  func_eq = turned_func p f to_ready m ∙ c.func_eq;
}

yielded-Loop :
    (f p : ℕ) (ps : List ℕ) (k : Worker) (w : World)
    → Loop f k (p ∷ ps) w
    → Loop f k (ps ++ p ∷ []) (yielded p f (map fiber_task ps) w)
unfolding tickle
yielded-Loop f p ps k w l =
    let i = k.idle_fiber in
    let c = l.can_run.0 in
    let w' : World = less_active (record {
      sched = after_take w.sched (first_pick p (map fiber_task ps));
      machine = turned p f to_ready w.machine;
    }) in
    let q = schedule-SameButQueue (fiber_task p) w'.sched in
    let is_ready' = turned_state p f to_ready w.machine in
    let same = turned_other p f to_ready w.machine i (λ x. c.not_idle (sym x)) l.main_not_idle in
    record {
      main = record {
        main = turned_main_fiber p f to_ready w.machine ∙ l.main.main;
        runs = turned_running p f to_ready w.machine;
      };
      tasks_eq = tasks-schedule (fiber_task p) w'.sched ∙ sym (map-append fiber_task ps (p ∷ []));
      auto_stop = q.auto_stop_eq ∙ l.auto_stop;
      is_stopping = q.is_stopping_eq ∙ l.is_stopping;
      no_active = q.active_eq ∙ ap (λ a. decrement (increment a)) l.no_active;
      can_run =
          All-append (CanRun f i (turned p f to_ready w.machine)) ps (p ∷ [])
            (still-CanRun p f i to_ready w.machine ps l.distinct.0 l.can_run.1)
            (
              record {
                alive = ap is_over is_ready';
                rests = ap is_exec is_ready';
                goes_on = turned-CanGoOn p f w.machine c.goes_on;
                not_main = c.not_main;
                not_idle = c.not_idle;
              },
              tt,
            );
      distinct = Distinct-rotate p ps l.distinct;
      main_not_idle = l.main_not_idle;
      idle_goes_on = subst (CanGoOn i) (sym same) l.idle_goes_on;
      idle_rests = ap (λ x. is_exec x.state) same ∙ l.idle_rests;
      idle_alive = ap (λ x. is_term x.state) same ∙ l.idle_alive;
    }

yielded-Drained :
    (f p : ℕ) (ps : List ℕ) (end_of : ℕ → Ending) (k : Worker) (w w' : World)
    → Drained f k.idle_fiber end_of (ps ++ p ∷ []) (yielded p f (map fiber_task ps) w) w'
    → Drained f k.idle_fiber end_of (p ∷ ps) w w'
unfolding tickle
yielded-Drained f p ps end_of k w w' d =
    let v : World = less_active (record {
      sched = after_take w.sched (first_pick p (map fiber_task ps));
      machine = turned p f to_ready w.machine;
    }) in
    let q = schedule-SameButQueue (fiber_task p) v.sched in
    let (init, last) = All-unsnoc _ ps p d.ended in
    record {
      tasks_eq = d.tasks_eq;
      no_active = d.no_active;
      auto_stop_eq = d.auto_stop_eq ∙ q.auto_stop_eq;
      is_stopping_eq = d.is_stopping_eq ∙ q.is_stopping_eq;
      threads_eq = d.threads_eq ∙ (schedule_rest (fiber_task p) v.sched).1;
      root_fiber_eq = d.root_fiber_eq ∙ (schedule_rest (fiber_task p) v.sched).0;
      root_thread_eq = d.root_thread_eq ∙ q.root_thread_eq;
      thread_count_eq = d.thread_count_eq ∙ q.thread_count_eq;
      this_eq = d.this_eq;
      running_eq = d.running_eq;
      thread_eq = d.thread_eq ∙ turned_thread p f to_ready w.machine;
      ended = (last, init);
      others = λ r a b i.
          d.others r (All-append (λ j. r ≢ j) ps (p ∷ []) a.1 (a.0, tt)) b i
          ∙ turned_other p f to_ready w.machine r (λ x. a.0 (sym x)) b;
    }

-- The fibers in the queue, each with the number of times that it will yield.
abbrev pub fibers : List (ℕ × ℕ) → List ℕ
fibers [] = []
fibers ((p, n) ∷ js) = p ∷ fibers js

abbrev pub rounds : List (ℕ × ℕ) → ℕ
rounds [] = 0
rounds ((p, n) ∷ js) = suc n + rounds js

-- The turns in so many rounds, and two for the idle fiber.
abbrev pub turns : (ℕ → Ending) → ℕ → List (ℕ × ℕ) → Turn → Turn → List Turn
turns end_of (suc r) ((p, zero) ∷ js) t u = ends (end_of p) ∷ turns end_of r js t u
turns end_of (suc r) ((p, suc n) ∷ js) t u = again ∷ turns end_of r (js ++ (p, n) ∷ []) t u
turns end_of _ _ t u = t ∷ u ∷ []

fibers-append : (is js : List (ℕ × ℕ)) → fibers (is ++ js) ≡ fibers is ++ fibers js
fibers-append [] js = refl
fibers-append ((p, n) ∷ is) js = ap (◌∷◌ p) (fibers-append is js)

rounds-append : (is js : List (ℕ × ℕ)) → rounds (is ++ js) ≡ rounds is + rounds js
rounds-append [] js = omega arith
rounds-append ((p, n) ∷ is) js = omega (arith, rounds-append is js)

drain_in :
    (size f : ℕ) (end_of : ℕ → Ending) (r : ℕ) (js : List (ℕ × ℕ)) (t u : Turn) (k : Worker)
    (w : World)
    → rounds js ≡ r
    → Loop f k (fibers js) w
    → (w' : World) × (run size (turns end_of r js t u) k w ≡ ok (some (w', r + 2)))
      × Drained f k.idle_fiber end_of (fibers js) w w'
drain_in size f end_of zero [] t u k w e l = drain_nil size f end_of t u k w l
drain_in size f end_of zero ((p, n) ∷ js) t u k w e l = let no : ⊥ = omega (arith, e) in elim no [ ]
drain_in size f end_of (suc r) [] t u k w e l = let no : ⊥ = omega (arith, e) in elim no [ ]
drain_in size f end_of (suc r) ((p, zero) ∷ js) t u k w e l =
    let c = l.can_run.0 in
    let ps = fibers js in
    let first =
      round_over size p f (end_of p) (map fiber_task ps) k w l.main c.not_main c.goes_on l.tasks_eq
        c.rests c.alive in
    let (w', g, d) =
      drain_in size f end_of r js t u k (served p f (end_of p) (map fiber_task ps) w)
        (omega (arith, e)) (served-Loop f p ps (end_of p) k w l) in
    (
      w',
      run_more size (ends (end_of p)) (turns end_of r js t u) k w first g
          ∙ ap (λ n. ok (some (w', n))) (omega arith),
      served-Drained f p ps end_of k w w' l d,
    )
drain_in size f end_of (suc r) ((p, suc n) ∷ js) t u k w e l =
    let ps = fibers js in
    let v = yielded p f (map fiber_task ps) w in
    let more = js ++ (p, n) ∷ [] in
    let same = fibers-append js ((p, n) ∷ []) in
    let (w', g, d) =
      drain_in size f end_of r more t u k v (omega (arith, e, rounds-append js ((p, n) ∷ [])))
        (subst (λ qs. Loop f k qs v) (sym same) (yielded-Loop f p ps k w l)) in
    (
      w',
      run_more size again (turns end_of r more t u) k w
            (round-again size p f (map fiber_task ps) k w l.main l.tasks_eq l.can_run.0) g
          ∙ ap (λ n. ok (some (w', n))) (omega arith),
      yielded-Drained f p ps end_of k w w'
          (subst (λ qs. Drained f k.idle_fiber end_of qs v w') same d),
    )

-- In front of a round, with fibers in the queue that can run, that yield so many times and then end,
-- the loop ends after all their turns and two rounds more, and has drained the queue.
pub drain_lem :
    (size f : ℕ) (end_of : ℕ → Ending) (js : List (ℕ × ℕ)) (t u : Turn) (k : Worker) (w : World)
    → Loop f k (fibers js) w
    → (w' : World) × (run size (turns end_of (rounds js) js t u) k w
        ≡ ok (some (w', rounds js + 2)))
      × Drained f k.idle_fiber end_of (fibers js) w w'
drain_lem size f end_of js t u k w l = drain_in size f end_of (rounds js) js t u k w refl l
