-- ===== src/Fiber/Calls.antt =====
-- `call` of atpdxy/fiber.cpp, and the end of CallerMainFunc.
use atpdxy.Common.{ℕ, ◌≡◌, refl, ap, ◌∙◌, ◌≢◌, some, arith}
use atpdxy.Common.Result.{ok, fail, assertion, ◌>>=◌, deref}
use atpdxy.Fiber.{
  set_state, set_this, resume, swapcontext, back, call, ended, caller_main_func_end, exec, term,
  start, suspended, finished, Machine, Ending, returned,
}
use atpdxy.Fiber.Swaps.{switched, swapcontext-switched}

-- What `call` of the fiber `r` leaves, from the thread's fiber `t`.
abbrev pub called : ℕ → ℕ → Machine → Machine
called r t m = switched (suspended m.running) t r (set_state r exec (set_this (some r) m))

pub call-called :
    (r t : ℕ) (m : Machine)
    → m.thread_fiber ≡ some t
    → t ≢ r
    → (m.fibers r).ctx ≡ start
    → call r m ≡ ok (called r t m)
unfolding call set_this
call-called r t m h ne c =
    let entered = set_state r exec (set_this (some r) m) in
    ap (λ o. deref o >>= λ t. swapcontext (suspended m.running) t r entered) h
    ∙ swapcontext-switched (suspended m.running) t r entered (ground (arith, c))

-- A fiber whose function has ended goes on at the assertion behind it.
pub call_finished :
    (r t : ℕ) (m : Machine)
    → m.thread_fiber ≡ some t
    → t ≢ r
    → (m.fibers r).ctx ≡ finished
    → call r m ≡ fail assertion
unfolding call set_this swapcontext resume
call_finished r t m h ne c = rw h (ground arith)

pub called_other :
    (r t : ℕ) (m : Machine) (q : ℕ) → r ≢ q → t ≢ q → (called r t m).fibers q ≡ m.fibers q
unfolding set_this
called_other r t m q a b = ground arith

pub called_back :
    (r t : ℕ) (m : Machine) → t ≢ r → ((called r t m).fibers t).ctx ≡ suspended m.running
unfolding set_this
called_back r t m ne = ground arith

-- The pointers of the thread, and the number of the next fiber, are as before.
pub called_rest :
    (r t : ℕ) (m : Machine)
    → ((called r t m).thread_fiber ≡ m.thread_fiber)
      × ((called r t m).main_fiber ≡ m.main_fiber)
      × ((called r t m).next ≡ m.next)
unfolding set_this
called_rest r t m = (refl, refl, refl)

-- What the end of the function of a fiber that was called leaves.
abbrev pub caller_ended : ℕ → ℕ → Ending → Machine → Machine
caller_ended r t e m = switched finished r t (set_this (some t) (ended e r m))

pub caller_main_func_end-ended :
    (r t : ℕ) (m : Machine)
    → m.running ≡ some r
    → m.thread_fiber ≡ some t
    → t ≢ r
    → (m.fibers t).ctx ≡ suspended (some t)
    → caller_main_func_end returned m ≡ ok (caller_ended r t returned m)
unfolding caller_main_func_end back ended set_this
caller_main_func_end-ended r t m h k ne c =
    ap (λ o. deref o >>= λ p. back finished p (ended returned p m)) h
    ∙ ap (λ o. deref o >>= λ t. swapcontext finished r t (set_this o (ended returned r m))) k
    ∙ swapcontext-switched finished r t (set_this (some t) (ended returned r m)) (ground (arith, c))

pub caller_ended_lem :
    (r t : ℕ) (m : Machine)
    → (((caller_ended r t returned m).fibers r).state ≡ term)
      × ((caller_ended r t returned m).running ≡ some t)
      × ((caller_ended r t returned m).this_fiber ≡ some t)
      × (((caller_ended r t returned m).fibers r).ctx ≡ finished)
unfolding set_this ended
caller_ended_lem r t m = (ground arith, refl, refl, ground arith)

pub caller_ended_other :
    (r t : ℕ) (m : Machine) (q : ℕ) → r ≢ q → (caller_ended r t returned m).fibers q ≡ m.fibers q
unfolding set_this ended
caller_ended_other r t m q a = ground arith

pub caller_ended_thread :
    (r t : ℕ) (m : Machine) → (caller_ended r t returned m).thread_fiber ≡ m.thread_fiber
unfolding set_this ended
caller_ended_thread r t m = refl
