-- ===== src/Tests/Rounds.antt =====
-- The scheduler of atpdxy/scheduler.cpp.
use atpdxy.Common.{ℕ, ◌≡◌, refl, ◌≢◌, Bool, true, false, none, some, [], ◌∷◌, arith}
use atpdxy.Common.Bytes.{codes}
use atpdxy.Common.Result.{Result, ok, fail}
use atpdxy.Fiber.{State, swap_in, yield_to_ready}
use atpdxy.Fiber.Control.{to_ready, stop}
use atpdxy.Scheduler.{Task, Scheduler, Pick, pick, fiber_task, stopping}
use atpdxy.Scheduler.Take.{Picks, pick-Picks}
use atpdxy.Scheduler.Round.{World, Worker, Turn, round, run, dispatch}
use atpdxy.Scheduler.Round.Grows.{Grows}
use atpdxy.Scheduler.Round.Queue.{round-Grows}
use atpdxy.Scheduler.Round.Fibers.{Served, round_fiber}
use atpdxy.Scheduler.Round.Stops.{run-stops}
use atpdxy.Tests.Fibers.{two_fibers, in_main, one_goes_on, not_one}

-- A task of another thread, a fiber, and a callback.
abbrev elsewhere : Task
elsewhere = record { fiber = some 2; cb = none; thread = some 9 }

abbrev callback : Task
callback = record { fiber = none; cb = some 4; thread = none }

abbrev pub busy : Scheduler
busy = record {
  tasks = elsewhere ∷ fiber_task 1 ∷ callback ∷ [];
  root_fiber = none;
  name = codes "test";
  threads = [];
  thread_ids = [];
  thread_count = 1;
  active = 0;
  idle = 0;
  is_stopping = false;
  auto_stop = false;
  root_thread = none;
  tickles = 0;
}

abbrev states : ℕ → State
states p = (two_fibers.fibers p).state

abbrev world : World
world = record { sched = busy; machine = two_fibers }

abbrev worker : Worker
worker = record { tid = 5; idle_fiber = 2; cb_fiber = none }

abbrev pub yields : Turn
yields = record { spawned = callback ∷ []; how = to_ready }

abbrev found_first : Pick
found_first = record {
  taken = some (fiber_task 1);
  left = elsewhere ∷ callback ∷ [];
  tickle_me = true;
}

pick-Picks_example : Picks 5 states busy.tasks found_first
unfolding pick
pick-Picks_example = pick-Picks 5 states busy.tasks refl

round_fiber_example :
    (w' : World) × (round 1024 yields worker world ≡ ok (w', worker, true))
    × Served 1 0 yields (elsewhere ∷ callback ∷ []) w'
unfolding pick
round_fiber_example =
    round_fiber 1024 yields worker world 1 0 {r = found_first} {task = fiber_task 1} in_main not_one
      one_goes_on refl refl refl refl

abbrev value {ℓ} : {A : Type ℓ} → A → Result A → A
value a (ok b) = b
value a (fail e) = a

abbrev after_round : World × Worker × Bool
after_round = value (world, worker, false) (round 1024 yields worker world)

round-Grows_example :
    Grows 0 0 (record busy { tasks = elsewhere ∷ callback ∷ [] }) after_round.0.sched
unfolding pick round dispatch swap_in stop yield_to_ready
round-Grows_example =
    round-Grows 1024 yields worker world {r = found_first} (omega arith) (omega arith) refl refl

abbrev ending : World
ending = record world { sched = record busy { tasks = []; is_stopping = true; auto_stop = true } }

not_two : ◌≢◌ {A = ℕ} 0 2
not_two e = omega arith

run-stops_example :
    (w' : World) × (run 1024 (yields ∷ yields ∷ []) worker ending ≡ ok (some (w', 2)))
    × (w'.sched.tasks ≡ [])
unfolding stopping
run-stops_example =
    run-stops 1024 yields yields [] worker ending 0 in_main not_two
      (record { goes = refl; func_eq = refl }) refl refl refl
