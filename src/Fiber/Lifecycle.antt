-- ===== src/Fiber/Lifecycle.antt =====
-- The life of a fiber of atpdxy/fiber.cpp: its id, and reset and destruction after a turn.
use atpdxy.Common.{
  ℕ, ◌+◌, ◌^◌, ◌≤◌, ◌<◌, ◌≡◌, refl, ap, ◌∙◌, ◌≢◌, Bool, true, false, Option, some, arith,
  if◌then◌else◌,
}
use atpdxy.Common.Result.{assertion, ok, fail, ◌>>=◌}
use atpdxy.Fiber.{
  is_exec, is_over, is_at_rest, put, decrement, set_this, new_fiber, destroy, reset, ended, State,
  init, exec, main_func, start, finished, Machine, returned, threw,
}
use atpdxy.Fiber.Control.{
  stop, state_after, point_after, turn, turned, turn-turned, turned_state, turned_ctx,
  turned_running, turn_lem, Stop, to_ready, to_hold, bare, over, Returned,
}
use atpdxy.Fiber.Swaps.{swap_in_finished, CanGoOn, InMain}

-- The ids of the fibers up to `next` are at most the counter, and two fibers with stacks differ.
pub record HasIds (m : Machine) : Type 0 where
  pub below : (p : ℕ) → p < m.next → (m.fibers p).id ≤ m.fiber_id
  pub distinct :
      (p q : ℕ)
      → p < m.next
      → q < m.next
      → (m.fibers p).has_stack ≡ true
      → (m.fibers q).has_stack ≡ true
      → (m.fibers p).id ≡ (m.fibers q).id
      → p ≡ q

-- While the counter of ids does not wrap, making a fiber keeps the ids of the fibers made so far
-- at or below the counter, and the ids of fibers with a stack distinct.
pub new_fiber-HasIds :
    (size cb stack : ℕ) (caller : Bool) (m : Machine)
    → m.fiber_id + 1 < 2 ^ 64
    → HasIds m
    → HasIds (new_fiber size cb stack caller m).0
unfolding new_fiber
new_fiber-HasIds size cb stack caller m room h = record {
  below = λ p lt. ground (arith, h.below p);
  distinct = λ p q lp lq sp sq e. ground (arith, h.below p, h.below q, h.distinct p q);
}

turned_kept :
    (p f : ℕ) (s : Stop) (m : Machine)
    → ((turned p f s m).main_fiber ≡ m.main_fiber)
      × (((turned p f s m).fibers p).has_stack ≡ (m.fibers p).has_stack)
unfolding set_this ended
turned_kept p f (over returned) m = (refl, ground arith)
turned_kept p f (over threw) m = (refl, ground arith)
turned_kept p f to_ready m = (refl, ground arith)
turned_kept p f to_hold m = (refl, ground arith)
turned_kept p f bare m = (refl, ground arith)

abbrev pub renewed : ℕ → Option ℕ → Machine → Machine
renewed p cb m =
    put p (record (m.fibers p) { cb = cb; func = main_func; ctx = start; state = init }) m

reset_eq :
    (p : ℕ) (cb : Option ℕ) (m : Machine)
    → (m.fibers p).has_stack ≡ true
    → is_over (m.fibers p).state ≡ true
    → reset p cb m ≡ ok (renewed p cb m)
unfolding reset
reset_eq p cb m st h = ground arith

reset_fails :
    (p : ℕ) (cb : Option ℕ) (m : Machine)
    → (m.fibers p).has_stack ≡ true
    → is_at_rest (m.fibers p).state ≡ false
    → reset p cb m ≡ fail assertion
unfolding reset
reset_fails p cb m st h = ground arith

destroy_eq :
    (p : ℕ) (m : Machine)
    → (m.fibers p).has_stack ≡ true
    → destroy p m ≡ (
        if is_at_rest (m.fibers p).state
        then ok (record m { fiber_count = decrement m.fiber_count })
        else fail assertion)
unfolding destroy
destroy_eq p m st = ground arith

turned_count : (p f : ℕ) (s : Stop) (m : Machine) → (turned p f s m).fiber_count ≡ m.fiber_count
unfolding set_this ended
turned_count p f (over returned) m = refl
turned_count p f (over threw) m = refl
turned_count p f _ m = refl

at_rest_after : (s : Stop) → is_at_rest (state_after s) ≡ is_over (state_after s)
at_rest_after (over returned) = refl
at_rest_after (over threw) = refl
at_rest_after _ = refl

is_over_not_exec : (x : State) → is_over x ≡ true → is_exec x ≡ false
is_over_not_exec exec h = ground arith
is_over_not_exec _ h = ground arith

point_after_end : (s : Stop) (p : ℕ) → is_over (state_after s) ≡ true → point_after s p ≡ finished
point_after_end (over e) p h = refl
point_after_end to_ready p h = ground arith
point_after_end to_hold p h = ground arith
point_after_end bare p h = ground arith

renewed-CanGoOn : (p : ℕ) (cb : Option ℕ) (m : Machine) → CanGoOn p ((renewed p cb m).fibers p)
renewed-CanGoOn p cb m = record { goes = ground arith; func_eq = ground arith }

module _ (p f : ℕ) (s : Stop) (m : Machine) (main : InMain f m) (ne : f ≢ p)
    (goes_on : CanGoOn p (m.fibers p)) (rests : is_exec (m.fibers p).state ≡ false)
    (stack : (m.fibers p).has_stack ≡ true) where
  again_over :
      (t : Stop) → is_over (state_after s) ≡ true → turn p t (turned p f s m) ≡ fail assertion
  unfolding turn
  again_over t has_ended =
      ap (λ x. x >>= stop t)
        (swap_in_finished p f (turned p f s m) ((turned_kept p f s m).0 ∙ main.main) ne
          (turned_ctx p f s m ∙ point_after_end s p has_ended)
          (ap is_exec (turned_state p f s m) ∙ is_over_not_exec (state_after s) has_ended))

  -- A fiber with a stack that was not running and goes on with its own `MainFunc`, swapped in
  -- from another fiber, the scheduler's, whose code ran, and whose callback has returned or
  -- thrown: swapped in again as it is, it fails the assertion behind the end of its function.
  -- Reset to a further callback it has a further turn with no failed assertion, after which the
  -- processor is at the scheduler's fiber again, the state of the fiber says how that turn ended,
  -- and every third fiber is untouched by it.
  pub reset_after_end :
      (cb : ℕ) (t : Stop)
      → is_over (state_after s) ≡ true
      → ((turn p s m >>= turn p t) ≡ fail assertion)
        × (m' : Machine) × ((turn p s m >>= λ a. reset p (some cb) a >>= turn p t) ≡ ok m')
        × Returned p f t (renewed p (some cb) (turned p f s m)) m'
  reset_after_end cb t has_ended =
      let a = turned p f s m in
      let k = turned_kept p f s m in
      let b = renewed p (some cb) a in
      let first = turn-turned p f s m main ne goes_on rests in
      let in_main : InMain f b = record { main = k.0 ∙ main.main; runs = turned_running p f s m } in
      let (m', e, r) = turn_lem p f t b in_main ne (renewed-CanGoOn p (some cb) a) (ground arith) in
      (
        rw first (again_over t has_ended),
        m',
        rw (first, reset_eq p (some cb) a (k.1 ∙ stack) (rw (turned_state p f s m) has_ended)) e,
        r,
      )

  -- A fiber with a stack that was not running and goes on with its own `MainFunc`, swapped in from
  -- another fiber, the scheduler's, whose code ran, and whose turn did not end with its function, cannot be reset: the assertion fails.
  pub reset_after_yield :
      (cb : Option ℕ)
      → is_over (state_after s) ≡ false
      → (turn p s m >>= reset p cb) ≡ fail assertion
  reset_after_yield cb yielded = rw (turn-turned p f s m main ne goes_on rests) (
      reset_fails p cb (turned p f s m) ((turned_kept p f s m).1 ∙ stack)
        (rw (turned_state p f s m, at_rest_after s) yielded))

  -- After a turn of a fiber with a stack that was not running and goes on with its own `MainFunc`,
  -- swapped in from another fiber, the scheduler's, whose code ran, destroying it succeeds and counts one fiber less if the turn ended with its
  -- function, and fails the assertion if it did not.
  pub destroy_after_turn : (turn p s m >>= destroy p) ≡ (
      if is_over (state_after s)
      then ok (record (turned p f s m) { fiber_count = decrement m.fiber_count })
      else fail assertion)
  destroy_after_turn = rw (
    turn-turned p f s m main ne goes_on rests,
    destroy_eq p (turned p f s m) ((turned_kept p f s m).1 ∙ stack),
    turned_state p f s m,
    at_rest_after s,
    turned_count p f s m,
  )
