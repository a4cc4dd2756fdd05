-- ===== src/Fiber/Control.antt =====
-- Turns of the fibers of atpdxy/fiber.cpp.
use atpdxy.Common.{ℕ, ◌≡◌, refl, ap, ◌∙◌, ◌≢◌, false, some, arith}
use atpdxy.Common.Result.{Result, ok, ◌>>=◌, deref}
use atpdxy.Fiber.{
  is_exec, set_state, set_this, swap_in, swap_out, get_this_of, get_this, yield_to_ready,
  yield_to_hold, ended, main_func_end, caller_main_func_end, State, hold, exec, term, ready, except,
  Func, of_thread, main_func, caller_main_func, Context, suspended, finished, Machine, Ending,
  returned, threw,
}
use atpdxy.Fiber.Swaps.{
  switched, swapped_in, CanGoOn, InMain, HasTurn, swap_in-swapped_in, swapped_in-HasTurn,
  swap_out_lem, yield_lem,
}

-- How a turn of a fiber ends: a yield, a call of `swapOut` by the callback itself, or the end of
-- its function.
pub data Stop : Type 0 where
  to_ready to_hold bare : Stop
  over : Ending → Stop

-- Where the callback of a function ends, that function goes on behind it. The code of a thread is no
-- such function, and no part of this one.
func_end : Func → Ending → Machine → Result Machine
func_end main_func e m = main_func_end e m
func_end caller_main_func e m = caller_main_func_end e m
func_end of_thread e m = ok m

-- On the fiber whose code is on the processor.
unfoldable pub stop : Stop → Machine → Result Machine
unfolding func_end
stop to_ready m = yield_to_ready m
stop to_hold m = yield_to_hold m
stop bare m = let (got, cur) = get_this m in swap_out (suspended got.running) cur got
stop (over e) m = do p ← deref m.running; func_end (m.fibers p).func e m

abbrev pub state_after : Stop → State
state_after to_ready = ready
state_after to_hold = hold
state_after bare = exec
state_after (over returned) = term
state_after (over threw) = except

-- One turn: swapped in, and later out again.
unfoldable pub turn : ℕ → Stop → Machine → Result Machine
unfolding stop
turn p s m = swap_in p m >>= stop s

-- What is saved behind a turn.
abbrev pub point_after : Stop → ℕ → Context
point_after (over e) p = finished
point_after _ p = suspended (some p)

-- What a turn of the fiber `p`, taken from the scheduler's fiber `f`, leaves.
pub record Returned (p f : ℕ) (s : Stop) (m m' : Machine) : Type 0 where
  pub back_in_main : m'.running ≡ some f
  pub this_is_main : m'.this_fiber ≡ some f
  pub state_eq : (m'.fibers p).state ≡ state_after s
  pub main_state : (m'.fibers f).state ≡ (m.fibers f).state
  pub next_turn : (m'.fibers p).ctx ≡ point_after s p
  pub others : (q : ℕ) → p ≢ q → f ≢ q → m'.fibers q ≡ m.fibers q

abbrev pub leave : Stop → ℕ → Machine → Machine
leave to_ready p m = set_state p ready m
leave to_hold p m = set_state p hold m
leave bare p m = m
leave (over e) p m = ended e p m

abbrev pub turned : ℕ → ℕ → Stop → Machine → Machine
turned p f s m = switched (point_after s p) p f (
    set_this m.main_fiber
      (leave s p (switched (suspended m.running) f p (set_state p exec (set_this (some p) m)))))

abbrev left : ℕ → ℕ → Stop → Machine → Machine
left p f s m = switched (point_after s p) p f (set_this m.main_fiber (leave s p m))

ended_other : (e : Ending) (p q : ℕ) (m : Machine) → q ≢ p → (ended e p m).fibers q ≡ m.fibers q
unfolding ended
ended_other returned p q m ne = ground arith
ended_other threw p q m ne = ground arith

ended_main : (e : Ending) (p : ℕ) (m : Machine) → (ended e p m).main_fiber ≡ m.main_fiber
unfolding ended
ended_main returned p m = refl
ended_main threw p m = refl

stop-left :
    (p f : ℕ) (s : Stop) (m : Machine) → HasTurn p f m → f ≢ p → stop s m ≡ ok (left p f s m)
unfolding stop yield_to_ready yield_to_hold get_this main_func_end get_this_of func_end
stop-left p f to_ready m h ne = yield_lem ready p f m h ne
stop-left p f to_hold m h ne = yield_lem hold p f m h ne
stop-left p f bare m h ne =
    ap (λ o. let (got, cur) = get_this_of o m in swap_out (suspended got.running) cur got) h.this
    ∙ ap (λ o. swap_out (suspended o) p m) h.runs
    ∙ swap_out_lem (suspended (some p)) p f m h.main ne h.back_to
stop-left p f (over e) m h ne =
    ap (λ o. deref o >>= λ p. func_end (m.fibers p).func e m) h.runs
    ∙ ap (λ c. func_end c e m) h.func_eq
    ∙ ap (λ o. deref o >>= λ p. swap_out finished p (ended e p m)) h.runs
    ∙ swap_out_lem finished p f (ended e p m) (ended_main e p m ∙ h.main) ne
        (ap (λ x. x.ctx) (ended_other e p f m ne) ∙ h.back_to)
    ∙ ap (λ o. ok (switched finished p f (set_this o (ended e p m)))) (ended_main e p m)

pub turn-turned :
    (p f : ℕ) (s : Stop) (m : Machine)
    → InMain f m
    → f ≢ p
    → CanGoOn p (m.fibers p)
    → is_exec (m.fibers p).state ≡ false
    → turn p s m ≡ ok (turned p f s m)
unfolding turn set_this
turn-turned p f s m h ne c st =
    rw (swap_in-swapped_in p f m h ne c st)
      (stop-left p f s (swapped_in p f m) (swapped_in-HasTurn p f m h ne c) ne)

pub turned_state :
    (p f : ℕ) (s : Stop) (m : Machine) → ((turned p f s m).fibers p).state ≡ state_after s
unfolding set_this ended
turned_state p f to_ready m = ground arith
turned_state p f to_hold m = ground arith
turned_state p f bare m = ground arith
turned_state p f (over returned) m = ground arith
turned_state p f (over threw) m = ground arith

pub turned_main :
    (p f : ℕ) (s : Stop) (m : Machine)
    → f ≢ p
    → ((turned p f s m).fibers f).state ≡ (m.fibers f).state
unfolding set_this ended
turned_main p f (over returned) m ne = ground arith
turned_main p f (over threw) m ne = ground arith
turned_main p f _ m ne = ground arith

pub turned_other :
    (p f : ℕ) (s : Stop) (m : Machine) (q : ℕ)
    → p ≢ q
    → f ≢ q
    → (turned p f s m).fibers q ≡ m.fibers q
unfolding set_this ended
turned_other p f (over returned) m q a b = ground arith
turned_other p f (over threw) m q a b = ground arith
turned_other p f _ m q a b = ground arith

pub turned_running : (p f : ℕ) (s : Stop) (m : Machine) → (turned p f s m).running ≡ some f
turned_running p f s m = refl

pub turned_thread :
    (p f : ℕ) (s : Stop) (m : Machine) → (turned p f s m).thread_fiber ≡ m.thread_fiber
unfolding set_this ended
turned_thread p f (over returned) m = refl
turned_thread p f (over threw) m = refl
turned_thread p f _ m = refl

pub turned_this : (p f : ℕ) (s : Stop) (m : Machine) → (turned p f s m).this_fiber ≡ m.main_fiber
unfolding set_this ended
turned_this p f (over returned) m = refl
turned_this p f (over threw) m = refl
turned_this p f _ m = refl

pub turned_main_fiber :
    (p f : ℕ) (s : Stop) (m : Machine) → (turned p f s m).main_fiber ≡ m.main_fiber
unfolding set_this ended
turned_main_fiber p f (over returned) m = refl
turned_main_fiber p f (over threw) m = refl
turned_main_fiber p f _ m = refl

pub turned_ctx :
    (p f : ℕ) (s : Stop) (m : Machine) → ((turned p f s m).fibers p).ctx ≡ point_after s p
turned_ctx p f s m = ground arith

pub turned_func :
    (p f : ℕ) (s : Stop) (m : Machine) → ((turned p f s m).fibers p).func ≡ (m.fibers p).func
unfolding set_this ended
turned_func p f (over returned) m = ground arith
turned_func p f (over threw) m = ground arith
turned_func p f to_ready m = ground arith
turned_func p f to_hold m = ground arith
turned_func p f bare m = ground arith

turned-Returned :
    (p f : ℕ) (s : Stop) (m : Machine)
    → m.main_fiber ≡ some f
    → f ≢ p
    → Returned p f s m (turned p f s m)
turned-Returned p f s m h ne = record {
  back_in_main = refl;
  this_is_main = unfold set_this in h;
  state_eq = turned_state p f s m;
  main_state = turned_main p f s m ne;
  next_turn = turned_ctx p f s m;
  others = turned_other p f s m;
}

-- Swapping a fiber that is not running and that goes on with its own `MainFunc` in from another
-- fiber, the scheduler's fiber of the thread, whose code runs, and letting it yield, swap out or
-- end, fails no assertion: afterwards the code of the scheduler's fiber runs again, and `t_fiber`
-- is that fiber, whose state is as before. The state of the fiber says how its turn ended; it
-- goes on with its own code the next time, or, where its function has ended, with the assertion
-- behind that. Every third fiber is untouched.
pub turn_lem :
    (p f : ℕ) (s : Stop) (m : Machine)
    → InMain f m
    → f ≢ p
    → CanGoOn p (m.fibers p)
    → is_exec (m.fibers p).state ≡ false
    → (m' : Machine) × (turn p s m ≡ ok m') × Returned p f s m m'
turn_lem p f s m h ne c st =
    (turned p f s m, turn-turned p f s m h ne c st, turned-Returned p f s m h.main ne)
