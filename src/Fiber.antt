-- ===== src/Fiber.antt =====
-- atpdxy/fiber.h and atpdxy/fiber.cpp: fibers, and the thread-local pointers that say which of them
-- runs. A pointer to a fiber is a number. The calls of getcontext, makecontext and swapcontext are
-- taken to succeed; `running` says which fiber's code is on the processor, and a context remembers
-- which code it goes on with, so nested swaps and fibers that have ended do what the program does.
pub mod Swaps
pub mod Control
pub mod Calls
pub mod Lifecycle
pub mod Stacks
use atpdxy.Common.{
  ℕ, ◌+◌, ◌-◌, ◌%◌, ◌^◌, Bool, true, false, not, Option, none, some, ◌==◌, if◌then◌else◌, set,
}
use atpdxy.Common.Result.{Result, ok, fail, assertion, no_context, ◌>>=◌, ◌>>◌, assert, deref}

-- `Fiber::State`.
pub data State : Type 0 where
  init hold exec term ready except : State

-- The function that makecontext was last given for the stack of a fiber; the fiber of a thread has
-- its code from elsewhere.
pub data Func : Type 0 where
  of_thread main_func caller_main_func : Func

-- What `m_ctx` goes on with: nothing, where no swap has saved anything since getcontext in a
-- constructor that has returned; the function from its beginning; the code that was on the processor
-- when a swap saved it, that of a fiber if the thread had one; or the assertion at the end of
-- `MainFunc` and `CallerMainFunc` that is never to be reached.
pub data Context : Type 0 where
  unset start finished : Context
  suspended : Option ℕ → Context

-- A callback is a value of which only the identity matters here.
pub record Fiber : Type 0 where
  pub id : ℕ
  pub stacksize : ℕ
  pub state : State
  pub func : Func
  pub ctx : Context
  pub has_stack : Bool
  pub cb : Option ℕ

abbrev pub is_exec : State → Bool
is_exec exec = true
is_exec _ = false

abbrev pub is_ready : State → Bool
is_ready ready = true
is_ready _ = false

-- `m_state == TERM || m_state == EXCEPT`
abbrev pub is_over : State → Bool
is_over term = true
is_over except = true
is_over _ = false

-- `m_state == TERM || m_state == EXCEPT || m_state == INIT`
abbrev pub is_at_rest : State → Bool
is_at_rest init = true
is_at_rest s = is_over s

abbrev pub is_some {ℓ} : {A : Type ℓ} → Option A → Bool
is_some none = false
is_some (some a) = true

-- `s_fiber_id`, `s_fiber_count` and the fibers, which all threads share; and of one thread
-- `t_fiber`, `t_threadFiber` and `t_scheduler_fiber`.
pub record Machine : Type 0 where
  pub fibers : ℕ → Fiber
  pub next : ℕ
  pub fiber_id : ℕ
  pub fiber_count : ℕ
  pub this_fiber : Option ℕ
  pub thread_fiber : Option ℕ
  pub main_fiber : Option ℕ
  pub running : Option ℕ

abbrev pub update : (ℕ → Fiber) → ℕ → Fiber → ℕ → Fiber
update f p v q = if p == q then v else f q

abbrev pub put : ℕ → Fiber → Machine → Machine
put p v m = record m { fibers = update m.fibers p v }

abbrev pub set_state : ℕ → State → Machine → Machine
set_state p s m = put p (record (m.fibers p) { state = s }) m

-- `++` and `--` on a std::atomic<uint64_t>.
abbrev pub increment : ℕ → ℕ
increment n = (n + 1) % 2 ^ 64

abbrev pub decrement : ℕ → ℕ
decrement n = (n + 2 ^ 64 - 1) % 2 ^ 64

-- `SetThis`.
pub set_this : Option ℕ → Machine → Machine
set_this p m = record m { this_fiber = p }

-- The second half of swapcontext: what was saved in the fiber `to` goes on.
pub resume : Context → ℕ → Machine → Result Machine
resume unset to m = fail no_context
resume start to m = ok (record m { running = some to })
resume finished to m = fail assertion
resume (suspended q) to m = ok (record m { running = q })

abbrev pub save : Context → ℕ → Machine → Machine
save point from m = put from (record (m.fibers from) { ctx = point }) m

-- `swapcontext`: the point where the caller goes on later is saved in the fiber `from`.
pub swapcontext : Context → ℕ → ℕ → Machine → Result Machine
unfolding resume
swapcontext point from to m = let saved = save point from m in resume (saved.fibers to).ctx to saved

-- The private constructor `Fiber()`: the fiber of the thread itself.
pub new_main : Machine → Machine × ℕ
unfolding set_this
new_main m =
    let p = m.next in
    let f : Fiber = record {
      id = 0;
      stacksize = 0;
      state = exec;
      func = of_thread;
      ctx = unset;
      has_stack = false;
      cb = none;
    } in
    let made = set_this (some p) (put p f m) in
    (record made { next = p + 1; fiber_count = increment m.fiber_count; running = some p }, p)

-- The constructor `Fiber(cb, stacksize, use_caller)`; `default_size` is the configured stack size.
unfoldable pub new_fiber : ℕ → ℕ → ℕ → Bool → Machine → Machine × ℕ
new_fiber default_size cb stacksize use_caller m =
    let p = m.next in
    let f : Fiber = record {
      id = increment m.fiber_id;
      stacksize = (if stacksize == 0 then default_size else stacksize) % 2 ^ 32;
      state = init;
      func = if use_caller then caller_main_func else main_func;
      ctx = start;
      has_stack = true;
      cb = some cb;
    } in
    let made = put p f m in
    (
      record made {
        next = p + 1;
        fiber_id = increment m.fiber_id;
        fiber_count = increment m.fiber_count;
      },
      p,
    )

abbrev pub points_to : Option ℕ → ℕ → Bool
points_to none p = false
points_to (some q) p = q == p

-- The destructor.
unfoldable pub destroy : ℕ → Machine → Result Machine
unfolding set_this
destroy p m =
    let f = m.fibers p in
    let counted : Machine = record m { fiber_count = decrement m.fiber_count } in
    if f.has_stack
    then assert (is_at_rest f.state) >> ok counted
    else (assert (not (is_some f.cb))
        >> (assert (is_exec f.state)
            >> ok (if points_to m.this_fiber p then set_this none counted else counted)))

-- `reset(cb)`; the callback may be null.
pub reset : ℕ → Option ℕ → Machine → Result Machine
reset p cb m = do
  let f = m.fibers p
  assert f.has_stack
  assert (is_at_rest f.state)
  ok (put p (record f { cb = cb; func = main_func; ctx = start; state = init }) m)

-- `back`; `point` is what follows the call of it.
pub back : Context → ℕ → Machine → Result Machine
unfolding set_this swapcontext
back point p m = do
  let set = set_this m.thread_fiber m
  t ← deref m.thread_fiber
  swapcontext point p t set

pub call : ℕ → Machine → Result Machine
unfolding set_this swapcontext
call p m = do
  let entered = set_state p exec (set_this (some p) m)
  t ← deref m.thread_fiber
  swapcontext (suspended m.running) t p entered

unfoldable pub swap_in : ℕ → Machine → Result Machine
unfolding set_this swapcontext
swap_in p m = do
  let set = set_this (some p) m
  assert (not (is_exec (m.fibers p).state))
  let entered = set_state p exec set
  s ← deref m.main_fiber
  swapcontext (suspended m.running) s p entered

-- `swapOut`; `point` is what follows the call of it.
pub swap_out : Context → ℕ → Machine → Result Machine
unfolding set_this swapcontext
swap_out point p m = do
  let set = set_this m.main_fiber m
  s ← deref m.main_fiber
  swapcontext point p s set

-- The branch of `GetThis` on `t_fiber`.
pub get_this_of : Option ℕ → Machine → Machine × ℕ
unfolding new_main
get_this_of (some p) m = (m, p)
get_this_of none m = let (made, p) = new_main m in (record made { thread_fiber = some p }, p)

unfoldable pub get_this : Machine → Machine × ℕ
unfolding get_this_of
get_this m = get_this_of m.this_fiber m

-- `YieldToReady` and `YieldToHold` differ by the state that they set.
pub yield : State → Machine → Result Machine
unfolding get_this swap_out
yield s m = do
  let (got, cur) = get_this m
  assert (is_exec (got.fibers cur).state)
  swap_out (suspended got.running) cur (set_state cur s got)

unfoldable pub yield_to_ready : Machine → Result Machine
unfolding yield
yield_to_ready = yield ready

pub yield_to_hold : Machine → Result Machine
unfolding yield
yield_to_hold = yield hold

-- How the callback of a fiber ends.
pub data Ending : Type 0 where
  returned threw : Ending

-- Behind the call of the callback in `MainFunc` and `CallerMainFunc`.
pub ended : Ending → ℕ → Machine → Machine
ended returned p m = put p (record (m.fibers p) { cb = none; state = term }) m
ended threw p m = set_state p except m

-- The rest of `MainFunc`, from the end of the callback on. Its `cur` is the fiber whose code this is:
-- `t_fiber` when it started.
pub main_func_end : Ending → Machine → Result Machine
unfolding ended swap_out
main_func_end e m = do cur ← deref m.running; swap_out finished cur (ended e cur m)

-- The rest of `CallerMainFunc`.
pub caller_main_func_end : Ending → Machine → Result Machine
unfolding ended back
caller_main_func_end e m = do cur ← deref m.running; back finished cur (ended e cur m)

-- `GetFiberId`.
id_of : Option ℕ → Machine → ℕ
id_of none m = 0
id_of (some p) m = (m.fibers p).id

unfoldable pub get_fiber_id : Machine → ℕ
unfolding id_of
get_fiber_id m = id_of m.this_fiber m

-- `TotalFibers`.
unfoldable pub total_fibers : Machine → ℕ
total_fibers m = m.fiber_count
