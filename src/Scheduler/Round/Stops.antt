-- ===== src/Scheduler/Round/Stops.antt =====
-- How the loop of Scheduler::run in atpdxy/scheduler.cpp ends.
use atpdxy.Common.{ℕ, ◌≡◌, refl, ap, ◌∙◌, ◌≢◌, true, false, none, some, List, [], ◌∷◌, arith}
use atpdxy.Common.Result.{ok}
use atpdxy.Fiber.{is_exec, increment, decrement, State, term, returned}
use atpdxy.Fiber.Control.{turned, turned_state, over}
use atpdxy.Fiber.Swaps.{CanGoOn, InMain}
use atpdxy.Scheduler.{stopping, pick, Task, Scheduler, Pick}
use atpdxy.Scheduler.Round.{
  spawn, run_turn, idle_turn, count_idle, after_idle, is_term, run_idle, dispatch, round, run,
  World, Worker, Turn,
}
use atpdxy.Scheduler.Round.Queue.{after_take, round_eq}
use atpdxy.Scheduler.Round.Fibers.{run_turn-turned}

abbrev pub nothing_left : Pick
nothing_left = record { taken = none; left = []; tickle_me = false }

pick_nil :
    (tid : ℕ) (state : ℕ → State) (ts : List Task) → ts ≡ [] → pick tid state ts ≡ ok nothing_left
unfolding pick
pick_nil tid state ts e = rw e

stopping_tasks : (s : Scheduler) → stopping s ≡ true → s.tasks ≡ []
unfolding stopping
stopping_tasks s h = ground arith

pub stopping_made :
    (s : Scheduler)
    → s.auto_stop ≡ true
    → s.is_stopping ≡ true
    → s.tasks ≡ []
    → s.active ≡ 0
    → stopping s ≡ true
unfolding stopping
stopping_made s a b c d = ground arith

-- A round on an empty queue is the idle fiber's.
round_empty :
    (size : ℕ) (t : Turn) (k : Worker) (w : World)
    → w.sched.tasks ≡ []
    → round size t k w ≡ run_idle k (record w { sched = after_take w.sched nothing_left })
round_empty size t k w e =
    round_eq size t k w (pick_nil k.tid (λ p. (w.machine.fibers p).state) w.sched.tasks e)
    ∙ unfold dispatch in refl

abbrev last_turn : Turn
last_turn = record { spawned = []; how = over returned }

idle_turn_stops : (s : Scheduler) → stopping s ≡ true → idle_turn s ≡ last_turn
idle_turn_stops s h = rw h

abbrev pub ended_idle : ℕ → ℕ → World → World
ended_idle p f w = record {
  sched = spawn [] (count_idle increment w).sched;
  machine = turned p f (over returned) w.machine;
}

idle_run :
    (k : Worker) (w : World) (f : ℕ)
    → is_term (w.machine.fibers k.idle_fiber).state ≡ false
    → run_turn k.idle_fiber (idle_turn w.sched) (count_idle increment w)
      ≡ ok (ended_idle k.idle_fiber f w)
    → run_idle k w ≡ ok (count_idle decrement (ended_idle k.idle_fiber f w), k, true)
unfolding run_idle after_idle
idle_run k w f alive e = rw (alive, e, turned_state k.idle_fiber f (over returned) w.machine)

idle_leaves :
    (k : Worker) (w : World)
    → (w.machine.fibers k.idle_fiber).state ≡ term
    → run_idle k w ≡ ok (w, k, false)
unfolding run_idle
idle_leaves k w e = rw e

stopping_nothing : (s : Scheduler) → stopping s ≡ true → stopping (after_take s nothing_left) ≡ true
unfolding stopping
stopping_nothing s h = ground arith

run_two :
    (size : ℕ) (t u : Turn) (ts : List Turn) (k : Worker) (w : World) {w' w'' : World}
    → round size t k w ≡ ok (w', k, true)
    → round size u k w' ≡ ok (w'', k, false)
    → run size (t ∷ u ∷ ts) k w ≡ ok (some (w'', 2))
unfolding run
run_two size t u ts k w e f = rw (e, f)

-- What the two last rounds of the loop leave.
abbrev pub idled : ℕ → Worker → World → World
idled f k w =
    count_idle decrement
      (ended_idle k.idle_fiber f (record w { sched = after_take w.sched nothing_left }))

abbrev pub final : ℕ → Worker → World → World
final f k w = record (idled f k w) { sched = after_take (idled f k w).sched nothing_left }

idle_ends :
    (size : ℕ) (t : Turn) (k : Worker) (w : World) (f : ℕ)
    → InMain f w.machine
    → f ≢ k.idle_fiber
    → CanGoOn k.idle_fiber (w.machine.fibers k.idle_fiber)
    → is_exec (w.machine.fibers k.idle_fiber).state ≡ false
    → is_term (w.machine.fibers k.idle_fiber).state ≡ false
    → stopping w.sched ≡ true
    → round size t k w ≡ ok (idled f k w, k, true)
idle_ends size t k w f main ne goes rests alive stops =
    let v : World = record w { sched = after_take w.sched nothing_left } in
    round_empty size t k w (stopping_tasks w.sched stops)
    ∙ idle_run k v f alive (
        ap (λ t. run_turn k.idle_fiber t (count_idle increment v))
          (idle_turn_stops v.sched (stopping_nothing w.sched stops))
        ∙ run_turn-turned k.idle_fiber f last_turn (count_idle increment v) main ne goes rests)

pub run-final :
    (size : ℕ) (t u : Turn) (ts : List Turn) (k : Worker) (w : World) (f : ℕ)
    → InMain f w.machine
    → f ≢ k.idle_fiber
    → CanGoOn k.idle_fiber (w.machine.fibers k.idle_fiber)
    → is_exec (w.machine.fibers k.idle_fiber).state ≡ false
    → is_term (w.machine.fibers k.idle_fiber).state ≡ false
    → stopping w.sched ≡ true
    → run size (t ∷ u ∷ ts) k w ≡ ok (some (final f k w, 2))
unfolding spawn
run-final size t u ts k w f main ne goes rests alive stops =
    run_two size t u ts k w (idle_ends size t k w f main ne goes rests alive stops) (
      round_empty size u k (idled f k w) refl
      ∙ idle_leaves k (final f k w) (turned_state k.idle_fiber f (over returned) w.machine))

-- On a thread on which the code of the scheduler's fiber runs, whose idle fiber is another one
-- that goes on with its own `MainFunc` and is neither running nor in state TERM, once `stopping`
-- holds the loop of `run` ends in two rounds, whatever turns are given, and the queue is empty at
-- its end.
pub run-stops :
    (size : ℕ) (t u : Turn) (ts : List Turn) (k : Worker) (w : World) (f : ℕ)
    → InMain f w.machine
    → f ≢ k.idle_fiber
    → CanGoOn k.idle_fiber (w.machine.fibers k.idle_fiber)
    → is_exec (w.machine.fibers k.idle_fiber).state ≡ false
    → is_term (w.machine.fibers k.idle_fiber).state ≡ false
    → stopping w.sched ≡ true
    → (w' : World) × (run size (t ∷ u ∷ ts) k w ≡ ok (some (w', 2))) × (w'.sched.tasks ≡ [])
run-stops size t u ts k w f main ne goes rests alive stops =
    (final f k w, run-final size t u ts k w f main ne goes rests alive stops, refl)
