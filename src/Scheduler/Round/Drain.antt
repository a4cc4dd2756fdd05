-- ===== src/Scheduler/Round/Drain.antt =====
-- The loop of Scheduler::run in atpdxy/scheduler.cpp on fibers that run to their end, after `stop`
-- has been called.
use mathlib.Core.List.{map}
use atpdxy.Common.{
  ℕ, ◌+◌, ◌≡◌, refl, sym, ap, ◌∙◌, subst, ◌≢◌, true, false, some, List, [], ◌∷◌, All,
}
use atpdxy.Common.Result.{ok}
use atpdxy.Fiber.{is_exec, is_over, increment, decrement, State, Machine, Ending, returned, threw}
use atpdxy.Fiber.Control.{
  state_after, turned, turned_state, turned_running, turned_thread, turned_this, turned_main_fiber,
  turned_other, Stop, over,
}
use atpdxy.Fiber.Swaps.{CanGoOn, InMain}
use atpdxy.Scheduler.{fiber_task, tickle, pick, Task, Pick}
use atpdxy.Scheduler.Round.{
  spawn, less_active, after_fiber, run_fiber, is_term, round, run, World, Worker, Turn,
}
use atpdxy.Scheduler.Round.Queue.{after_take, round_eq}
use atpdxy.Scheduler.Round.Fibers.{run_turn-turned, dispatch_fiber}
use atpdxy.Scheduler.Round.Stops.{run-final, final, stopping_made}

-- A turn in which the callback schedules nothing and ends.
abbrev pub ends : Ending → Turn
ends e = record { spawned = []; how = over e }

abbrev pub Distinct : List ℕ → Type 0
Distinct [] = Unit
Distinct (p ∷ ps) = All (λ q. p ≢ q) ps × Distinct ps

abbrev pub first_pick : ℕ → List Task → Pick
first_pick p ts = record { taken = some (fiber_task p); left = ts; tickle_me = true }

-- A round that takes the fiber in front, which ends.
abbrev pub served : ℕ → ℕ → Ending → List Task → World → World
served p f e ts w = less_active (record {
  sched = after_take w.sched (first_pick p ts);
  machine = turned p f (over e) w.machine;
})

over_is_over : (e : Ending) → is_over (state_after (over e)) ≡ true
over_is_over returned = refl
over_is_over threw = refl

after_fiber_over :
    (p : ℕ) (e : Ending) (w : World)
    → (w.machine.fibers p).state ≡ state_after (over e)
    → after_fiber p w ≡ w
unfolding after_fiber
after_fiber_over p returned w h = rw h refl
after_fiber_over p threw w h = rw h refl

run_fiber_over :
    (p f : ℕ) (e : Ending) (k : Worker) (w : World)
    → InMain f w.machine
    → f ≢ p
    → CanGoOn p (w.machine.fibers p)
    → is_exec (w.machine.fibers p).state ≡ false
    → run_fiber p (ends e) k w
      ≡ ok (less_active (record { sched = w.sched; machine = turned p f (over e) w.machine }), k)
unfolding run_fiber spawn
run_fiber_over p f e k w main ne goes rests =
    let after : World = record { sched = w.sched; machine = turned p f (over e) w.machine } in
    rw (run_turn-turned p f (ends e) w main ne goes rests) (
      ap (λ v. ok (v, k))
        (after_fiber_over p e (less_active after) (turned_state p f (over e) w.machine)))

pub pick_first :
    (tid p : ℕ) (state : ℕ → State) (ts : List Task)
    → is_exec (state p) ≡ false
    → pick tid state (fiber_task p ∷ ts) ≡ ok (first_pick p ts)
unfolding pick
pick_first tid p state ts h = rw h refl

pub round_over :
    (size p f : ℕ) (e : Ending) (ts : List Task) (k : Worker) (w : World)
    → InMain f w.machine
    → f ≢ p
    → CanGoOn p (w.machine.fibers p)
    → w.sched.tasks ≡ fiber_task p ∷ ts
    → is_exec (w.machine.fibers p).state ≡ false
    → is_over (w.machine.fibers p).state ≡ false
    → round size (ends e) k w ≡ ok (served p f e ts w, k, true)
round_over size p f e ts k w main ne goes q rests alive =
    let s : World = record w { sched = after_take w.sched (first_pick p ts) } in
    round_eq size (ends e) k w
      (ap (pick k.tid (λ q. (w.machine.fibers q).state)) q ∙ pick_first k.tid p _ ts rests)
    ∙ dispatch_fiber size (fiber_task p) (ends e) k s refl alive
        (run_fiber_over p f e k s main ne goes rests)

-- The fiber `p` of the queue can have its turn, and is neither the scheduler's fiber nor the idle
-- fiber.
pub record CanRun (f idle : ℕ) (m : Machine) (p : ℕ) : Type 0 where
  pub alive : is_over (m.fibers p).state ≡ false
  pub rests : is_exec (m.fibers p).state ≡ false
  pub goes_on : CanGoOn p (m.fibers p)
  pub not_main : f ≢ p
  pub not_idle : idle ≢ p

-- In front of a round of the loop, with the fibers `ps` in the queue.
pub record Loop (f : ℕ) (k : Worker) (ps : List ℕ) (w : World) : Type 0 where
  pub main : InMain f w.machine
  pub tasks_eq : w.sched.tasks ≡ map fiber_task ps
  pub auto_stop : w.sched.auto_stop ≡ true
  pub is_stopping : w.sched.is_stopping ≡ true
  pub no_active : w.sched.active ≡ 0
  pub can_run : All (CanRun f k.idle_fiber w.machine) ps
  pub distinct : Distinct ps
  pub main_not_idle : f ≢ k.idle_fiber
  pub idle_goes_on : CanGoOn k.idle_fiber (w.machine.fibers k.idle_fiber)
  pub idle_rests : is_exec (w.machine.fibers k.idle_fiber).state ≡ false
  pub idle_alive : is_term (w.machine.fibers k.idle_fiber).state ≡ false

-- The loop has ended: the queue is empty, each of the fibers has ended as its callback did, and no
-- other but the idle fiber and the scheduler's fiber, which runs, is touched.
pub record Drained (f idle : ℕ) (end_of : ℕ → Ending) (ps : List ℕ) (w w' : World) : Type 0 where
  pub tasks_eq : w'.sched.tasks ≡ []
  pub no_active : w'.sched.active ≡ 0
  pub auto_stop_eq : w'.sched.auto_stop ≡ w.sched.auto_stop
  pub is_stopping_eq : w'.sched.is_stopping ≡ w.sched.is_stopping
  pub threads_eq : w'.sched.threads ≡ w.sched.threads
  pub root_fiber_eq : w'.sched.root_fiber ≡ w.sched.root_fiber
  pub root_thread_eq : w'.sched.root_thread ≡ w.sched.root_thread
  pub thread_count_eq : w'.sched.thread_count ≡ w.sched.thread_count
  pub this_eq : w'.machine.this_fiber ≡ some f
  pub running_eq : w'.machine.running ≡ some f
  pub thread_eq : w'.machine.thread_fiber ≡ w.machine.thread_fiber
  pub ended : All (λ p. (w'.machine.fibers p).state ≡ state_after (over (end_of p))) ps
  pub others :
      (q : ℕ) → All (λ p. q ≢ p) ps → f ≢ q → idle ≢ q → w'.machine.fibers q ≡ w.machine.fibers q

-- The loop on an empty queue: the idle fiber ends, and then the loop.
pub drain_nil :
    (size f : ℕ) (end_of : ℕ → Ending) (t u : Turn) (k : Worker) (w : World)
    → Loop f k [] w
    → (w' : World) × (run size (t ∷ u ∷ []) k w ≡ ok (some (w', 2)))
      × Drained f k.idle_fiber end_of [] w w'
unfolding spawn
drain_nil size f end_of t u k w l =
    let p = k.idle_fiber in
    let stops = stopping_made w.sched l.auto_stop l.is_stopping l.tasks_eq l.no_active in
    (
      final f k w,
      run-final size t u [] k w f l.main l.main_not_idle l.idle_goes_on l.idle_rests l.idle_alive
          stops,
      record {
        tasks_eq = refl;
        no_active = l.no_active;
        auto_stop_eq = refl;
        is_stopping_eq = refl;
        threads_eq = refl;
        root_fiber_eq = refl;
        root_thread_eq = refl;
        thread_count_eq = refl;
        this_eq = turned_this p f (over returned) w.machine ∙ l.main.main;
        running_eq = turned_running p f (over returned) w.machine;
        thread_eq = turned_thread p f (over returned) w.machine;
        ended = tt;
        others = λ q a b c. turned_other p f (over returned) w.machine q c b;
      },
    )

-- A fiber that a turn of another leaves alone can still run.
pub still-CanRun :
    (p f idle : ℕ) (s : Stop) (m : Machine) (qs : List ℕ)
    → All (λ q. p ≢ q) qs
    → All (CanRun f idle m) qs
    → All (CanRun f idle (turned p f s m)) qs
still-CanRun p f idle s m [] d h = tt
still-CanRun p f idle s m (q ∷ qs) d h =
    let same = turned_other p f s m q d.0 h.0.not_main in
    (
      record {
        alive = ap (λ x. is_over x.state) same ∙ h.0.alive;
        rests = ap (λ x. is_exec x.state) same ∙ h.0.rests;
        goes_on = subst (CanGoOn q) (sym same) h.0.goes_on;
        not_main = h.0.not_main;
        not_idle = h.0.not_idle;
      },
      still-CanRun p f idle s m qs d.1 h.1,
    )

pub served-Loop :
    (f p : ℕ) (ps : List ℕ) (e : Ending) (k : Worker) (w : World)
    → Loop f k (p ∷ ps) w
    → Loop f k ps (served p f e (map fiber_task ps) w)
unfolding tickle
served-Loop f p ps e k w l =
    let i = k.idle_fiber in
    let same =
      turned_other p f (over e) w.machine i (λ x. l.can_run.0.not_idle (sym x)) l.main_not_idle in
    record {
      main = record {
        main = turned_main_fiber p f (over e) w.machine ∙ l.main.main;
        runs = turned_running p f (over e) w.machine;
      };
      tasks_eq = refl;
      auto_stop = l.auto_stop;
      is_stopping = l.is_stopping;
      no_active = ap (λ a. decrement (increment a)) l.no_active;
      can_run = still-CanRun p f i (over e) w.machine ps l.distinct.0 l.can_run.1;
      distinct = l.distinct.1;
      main_not_idle = l.main_not_idle;
      idle_goes_on = subst (CanGoOn i) (sym same) l.idle_goes_on;
      idle_rests = ap (λ x. is_exec x.state) same ∙ l.idle_rests;
      idle_alive = ap (λ x. is_term x.state) same ∙ l.idle_alive;
    }

pub served-Drained :
    (f p : ℕ) (ps : List ℕ) (end_of : ℕ → Ending) (k : Worker) (w w' : World)
    → Loop f k (p ∷ ps) w
    → Drained f k.idle_fiber end_of ps (served p f (end_of p) (map fiber_task ps) w) w'
    → Drained f k.idle_fiber end_of (p ∷ ps) w w'
unfolding tickle
served-Drained f p ps end_of k w w' l d =
    let c = l.can_run.0 in
    record {
      tasks_eq = d.tasks_eq;
      no_active = d.no_active;
      auto_stop_eq = d.auto_stop_eq;
      is_stopping_eq = d.is_stopping_eq;
      threads_eq = d.threads_eq;
      root_fiber_eq = d.root_fiber_eq;
      root_thread_eq = d.root_thread_eq;
      thread_count_eq = d.thread_count_eq;
      this_eq = d.this_eq;
      running_eq = d.running_eq;
      thread_eq = d.thread_eq ∙ turned_thread p f (over (end_of p)) w.machine;
      ended = (
        ap (λ x. x.state) (d.others p l.distinct.0 c.not_main c.not_idle)
            ∙ turned_state p f (over (end_of p)) w.machine,
        d.ended,
      );
      others = λ q a b i.
          d.others q a.1 b i ∙ turned_other p f (over (end_of p)) w.machine q (λ x. a.0 (sym x)) b;
    }

pub run_more :
    (size : ℕ) (t : Turn) (ts : List Turn) (k : Worker) (w : World) {w' w'' : World} {n : ℕ}
    → round size t k w ≡ ok (w', k, true)
    → run size ts k w' ≡ ok (some (w'', n))
    → run size (t ∷ ts) k w ≡ ok (some (w'', n + 1))
unfolding run
run_more size t ts k w e g = rw (e, g) refl
