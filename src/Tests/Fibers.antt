-- ===== src/Tests/Fibers.antt =====
-- The fibers of atpdxy/fiber.cpp.
use atpdxy.Common.{ℕ, ◌≡◌, refl, ◌≢◌, true, false, none, some, ◌==◌, if◌then◌else◌, arith}
use atpdxy.Common.Result.{ok, fail, assertion, ◌>>=◌}
use atpdxy.Fiber.{Fiber, Machine, State, Func, Context, threw, reset, destroy, decrement}
use atpdxy.Fiber.Control.{to_ready, over, turn, turned, Returned, turn_lem}
use atpdxy.Fiber.Swaps.{CanGoOn, InMain}
use atpdxy.Fiber.Stacks.{Space, make_fiber, make_main, nothing_made, makes_main, drop_fiber}
use atpdxy.Fiber.Stacks.Balance.{stacks_balanced}
use atpdxy.Fiber.Stacks
use atpdxy.Fiber.Lifecycle.{HasIds, renewed, reset_after_end}

abbrev pub main_of_thread : Fiber
main_of_thread = record {
  id = 0;
  stacksize = 0;
  state = State.exec;
  func = Func.of_thread;
  ctx = Context.unset;
  has_stack = false;
  cb = none;
}

abbrev pub worker_fiber : Fiber
worker_fiber = record {
  id = 1;
  stacksize = 1024;
  state = State.init;
  func = Func.main_func;
  ctx = Context.start;
  has_stack = true;
  cb = some 7;
}

-- The fiber 0 of the thread, and the fibers 1, 2 and so on, of which the first `next` are made.
abbrev pub two_fibers : Machine
two_fibers = record {
  fibers = λ p. if p == 0 then main_of_thread else record worker_fiber { id = p };
  next = 3;
  fiber_id = 2;
  fiber_count = 3;
  this_fiber = some 0;
  thread_fiber = some 0;
  main_fiber = some 0;
  running = some 0;
}

pub not_one : ◌≢◌ {A = ℕ} 0 1
not_one e = omega arith

abbrev pub in_main : InMain 0 two_fibers
in_main = record { main = refl; runs = refl }

abbrev pub one_goes_on : CanGoOn 1 (two_fibers.fibers 1)
one_goes_on = record { goes = refl; func_eq = refl }

turn_lem_example :
    (m' : Machine) × (turn 1 to_ready two_fibers ≡ ok m') × Returned 1 0 to_ready two_fibers m'
turn_lem_example = turn_lem 1 0 to_ready two_fibers in_main not_one one_goes_on refl

reset_after_end_example :
    ((turn 1 (over threw) two_fibers >>= turn 1 to_ready) ≡ fail assertion)
    × (m' : Machine) × ((turn 1 (over threw) two_fibers >>= λ a.
          reset 1 (some 8) a >>= turn 1 to_ready)
        ≡ ok m')
    × Returned 1 0 to_ready (renewed 1 (some 8) (turned 1 0 (over threw) two_fibers)) m'
reset_after_end_example =
    reset_after_end 1 0 (over threw) two_fibers in_main not_one one_goes_on refl refl 8 to_ready
      refl

two_fibers-HasIds : HasIds two_fibers
two_fibers-HasIds = record {
  below = λ p lt. ground arith;
  distinct = λ p q lp lq sp sq e. ground arith;
}

-- A thread with its own fiber makes another one, whose stack is block 9.
abbrev none_yet : Machine
none_yet = record two_fibers { next = 0; this_fiber = none; running = none }

abbrev with_one : Space
with_one = make_fiber 9 1024 7 0 false (make_main (nothing_made none_yet))

with_one-Reach : Stacks.Reach none_yet with_one
unfolding make_main
with_one-Reach =
    Stacks.later (Stacks.later Stacks.here makes_main) (Stacks.makes 9 1024 7 0 false refl)

abbrev counted_down : Machine
counted_down = record with_one.machine { fiber_count = decrement with_one.machine.fiber_count }

stacks_balanced_example :
    (t : Space) × (drop_fiber 1 with_one ≡ ok t)
    × (t.machine ≡ counted_down)
    × (t.is_there 1 ≡ false)
    × ((b : ℕ)
        → t.live b ≡ true
        → (q : ℕ) × (t.is_there q ≡ true)
          × ((t.machine.fibers q).has_stack ≡ true)
          × (t.stack q ≡ some b))
unfolding make_fiber make_main destroy
stacks_balanced_example = stacks_balanced with_one-Reach 1 counted_down refl refl
