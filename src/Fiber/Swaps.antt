-- ===== src/Fiber/Swaps.antt =====
-- Which code runs behind swapIn, swapOut and the yields of atpdxy/fiber.cpp.
use atpdxy.Common.{ℕ, ◌≡◌, refl, ap, ◌∙◌, ◌≢◌, Bool, true, false, not, some, ◌==◌, arith}
use atpdxy.Common.Result.{ok, fail, assertion, assert, ◌>>=◌, ◌>>◌, deref}
use atpdxy.Fiber.{
  is_exec, set_state, set_this, save, resume, swapcontext, swap_in, swap_out, get_this_of, get_this,
  yield, State, exec, main_func, Context, start, suspended, finished, Fiber, Machine,
}

-- The context goes on with the code of the fiber `p`.
abbrev pub goes_to : ℕ → Context → Bool
goes_to p start = true
goes_to p (suspended (some q)) = q == p
goes_to p _ = false

-- The fiber `p`, as it is in `x`, goes on with its own code, which is `MainFunc`, when it is
-- swapped in.
pub record CanGoOn (p : ℕ) (x : Fiber) : Type 0 where
  pub goes : goes_to p x.ctx ≡ true
  pub func_eq : x.func ≡ main_func

-- The code of the scheduler's fiber `f` of the thread is on the processor.
pub record InMain (f : ℕ) (m : Machine) : Type 0 where
  pub main : m.main_fiber ≡ some f
  pub runs : m.running ≡ some f

-- A swap from the fiber `p` to the code of the fiber `q`.
abbrev pub switched : Context → ℕ → ℕ → Machine → Machine
switched point p q m = record (save point p m) { running = some q }

resume_goes :
    (c : Context) (q : ℕ) (m : Machine)
    → goes_to q c ≡ true
    → resume c q m ≡ ok (record m { running = some q })
unfolding resume
resume_goes start q m h = refl
resume_goes (suspended (some r)) q m h = ground arith
resume_goes _ q m h = ground arith

pub swapcontext-switched :
    (point : Context) (p q : ℕ) (m : Machine)
    → goes_to q ((save point p m).fibers q).ctx ≡ true
    → swapcontext point p q m ≡ ok (switched point p q m)
unfolding swapcontext
swapcontext-switched point p q m h =
    resume_goes ((save point p m).fibers q).ctx q (save point p m) h

abbrev pub swapped_in : ℕ → ℕ → Machine → Machine
swapped_in p f m = switched (suspended m.running) f p (set_state p exec (set_this (some p) m))

pub swap_in-swapped_in :
    (p f : ℕ) (m : Machine)
    → InMain f m
    → f ≢ p
    → CanGoOn p (m.fibers p)
    → is_exec (m.fibers p).state ≡ false
    → swap_in p m ≡ ok (swapped_in p f m)
unfolding swap_in set_this
swap_in-swapped_in p f m h ne c st =
    let entered = set_state p exec (set_this (some p) m) in
    ap
      (λ b.
        assert (not b)
        >> (deref m.main_fiber >>= λ s. swapcontext (suspended m.running) s p entered))
      st
    ∙ ap (λ o. deref o >>= λ s. swapcontext (suspended m.running) s p entered) h.main
    ∙ swapcontext-switched (suspended m.running) f p entered (ground (arith, c.goes))

-- A fiber whose function has ended goes on at the assertion behind it.
pub swap_in_finished :
    (p f : ℕ) (m : Machine)
    → m.main_fiber ≡ some f
    → f ≢ p
    → (m.fibers p).ctx ≡ finished
    → is_exec (m.fibers p).state ≡ false
    → swap_in p m ≡ fail assertion
unfolding swap_in set_this swapcontext resume
swap_in_finished p f m main ne c st =
    let entered = set_state p exec (set_this (some p) m) in
    ap
      (λ b.
        assert (not b)
        >> (deref m.main_fiber >>= λ s. swapcontext (suspended m.running) s p entered))
      st
    ∙ ap (λ o. deref o >>= λ s. swapcontext (suspended m.running) s p entered) main
    ∙ ground (arith, c)

-- The fiber `p` has been swapped in from the scheduler's fiber `f`.
pub record HasTurn (p f : ℕ) (m : Machine) : Type 0 where
  pub runs : m.running ≡ some p
  pub this : m.this_fiber ≡ some p
  pub main : m.main_fiber ≡ some f
  pub exec_eq : (m.fibers p).state ≡ exec
  pub func_eq : (m.fibers p).func ≡ main_func
  pub back_to : (m.fibers f).ctx ≡ suspended (some f)

pub swapped_in-HasTurn :
    (p f : ℕ) (m : Machine)
    → InMain f m
    → f ≢ p
    → CanGoOn p (m.fibers p)
    → HasTurn p f (swapped_in p f m)
unfolding set_this
swapped_in-HasTurn p f m h ne c = record {
  runs = refl;
  this = refl;
  main = h.main;
  exec_eq = ground arith;
  func_eq = ground (arith, c.func_eq);
  back_to = ground (arith, h.runs);
}

pub swap_out_lem :
    (point : Context) (p f : ℕ) (m : Machine)
    → m.main_fiber ≡ some f
    → f ≢ p
    → (m.fibers f).ctx ≡ suspended (some f)
    → swap_out point p m ≡ ok (switched point p f (set_this m.main_fiber m))
unfolding swap_out set_this
swap_out_lem point p f m main ne c =
    ap (λ o. deref o >>= λ s. swapcontext point p s (set_this m.main_fiber m)) main
    ∙ swapcontext-switched point p f (set_this m.main_fiber m) (ground (arith, c))

pub yield_lem :
    (s : State) (p f : ℕ) (m : Machine)
    → HasTurn p f m
    → f ≢ p
    → yield s m ≡ ok (switched (suspended (some p)) p f (set_this m.main_fiber (set_state p s m)))
unfolding yield get_this
yield_lem s p f m h ne =
    ap
      (λ o.
        let (got, cur) = get_this_of o m in
        assert (is_exec (got.fibers cur).state)
        >> swap_out (suspended got.running) cur (set_state cur s got))
      h.this
    ∙ ap (λ x. assert (is_exec x) >> swap_out (suspended m.running) p (set_state p s m)) h.exec_eq
    ∙ ap (λ o. swap_out (suspended o) p (set_state p s m)) h.runs
    ∙ swap_out_lem (suspended (some p)) p f (set_state p s m) h.main ne (ground (arith, h.back_to))
