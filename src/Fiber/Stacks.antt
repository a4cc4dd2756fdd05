-- ===== src/Fiber/Stacks.antt =====
-- The stacks of fibers, which StackAllocator of atpdxy/fiber.cpp takes from malloc and gives to
-- free. malloc gives any block that is not in use, and is taken to give one.
pub mod Balance
use atpdxy.Common.{
  ℕ, ◌<◌, ◌≡◌, refl, sym, ap, ◌∙◌, subst, inl, inr, Bool, true, false, Option, none, some, ◌==◌,
  ==_self, if◌then◌else◌, Bool-cases, arith,
}
use atpdxy.Common.Result.{Result, ok, ok-injective, fail, ◌>>=◌, >>=-eq-ok, invalid_free}
use atpdxy.Fiber.{Machine, is_some, new_main, new_fiber, destroy, set_this}

-- The fibers, which of them exist, `m_stack` of each, and which blocks are in use.
pub record Space : Type 0 where
  pub machine : Machine
  pub is_there : ℕ → Bool
  pub stack : ℕ → Option ℕ
  pub live : ℕ → Bool

abbrev pub with {ℓ} : {A : Type ℓ} → (ℕ → A) → ℕ → A → ℕ → A
with f p a q = if p == q then a else f q

-- `StackAllocator::Dealloc`: a block that is not in use must not be freed.
pub dealloc : ℕ → (ℕ → Bool) → Result (ℕ → Bool)
dealloc b live = if live b then ok (with live b false) else fail invalid_free

free_stack : Option ℕ → (ℕ → Bool) → Result (ℕ → Bool)
unfolding dealloc
free_stack none live = ok live
free_stack (some b) live = dealloc b live

-- The destructor, with what becomes of the stack.
pub drop_fiber : ℕ → Space → Result Space
unfolding free_stack
drop_fiber p s = destroy p s.machine >>= λ m.
    (free_stack (s.stack p) s.live >>= λ live.
    ok (record s { machine = m; is_there = with s.is_there p false; live = live }))

-- The constructor `Fiber(cb, stacksize, use_caller)`, given the block that
-- `StackAllocator::Alloc` returns.
unfoldable pub make_fiber : ℕ → ℕ → ℕ → ℕ → Bool → Space → Space
unfolding new_fiber
make_fiber b default_size cb stacksize use_caller s =
    let (m, p) = new_fiber default_size cb stacksize use_caller s.machine in
    record {
      machine = m;
      is_there = with s.is_there p true;
      stack = with s.stack p (some b);
      live = with s.live b true;
    }

-- The constructor `Fiber()`.
unfoldable pub make_main : Space → Space
unfolding new_main
make_main s =
    let (m, p) = new_main s.machine in
    record s { machine = m; is_there = with s.is_there p true; stack = with s.stack p none }

-- Fibers are made, destroyed when they are there, and used by what makes and destroys none.
pub data Step (s : Space) : Space → Type 0 where
  makes : (b d cb z : ℕ) (c : Bool) → s.live b ≡ false → Step s (make_fiber b d cb z c s)
  makes_main : Step s (make_main s)
  drops : (p : ℕ) (t : Space) → s.is_there p ≡ true → drop_fiber p s ≡ ok t → Step s t
  runs :
      (m : Machine)
      → m.next ≡ s.machine.next
      → ((p : ℕ) → (m.fibers p).has_stack ≡ (s.machine.fibers p).has_stack)
      → Step s (record s { machine = m })

abbrev pub nothing_made : Machine → Space
nothing_made m = record { machine = m; is_there = λ p. false; stack = λ p. none; live = λ b. false }

pub data Reach (m : Machine) : Space → Type 0 where
  here : Reach m (nothing_made m)
  later : {s t : Space} → Reach m s → Step s t → Reach m t
