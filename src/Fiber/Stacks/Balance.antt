-- ===== src/Fiber/Stacks/Balance.antt =====
-- The blocks of memory that the fibers of atpdxy/fiber.cpp hold, through all that is done to fibers.
use atpdxy.Common.{
  ℕ, ◌<◌, ◌≡◌, refl, sym, ap, ◌∙◌, subst, inl, inr, Bool, true, false, Option, none, some, ◌==◌,
  ==_self, Bool-cases, arith,
}
use atpdxy.Common.Result.{ok, ok-injective, >>=-eq-ok}
use atpdxy.Fiber.{Machine, is_some, new_main, new_fiber, destroy, set_this}
use atpdxy.Fiber.Stacks.{
  Space, with, dealloc, free_stack, drop_fiber, make_fiber, make_main, Step, makes, makes_main,
  drops, runs, Reach, here, later,
}

-- The destructor of a fiber changes none of the fibers.
destroy-fibers :
    (p : ℕ) (m m' : Machine) → destroy p m ≡ ok m' → (m'.fibers ≡ m.fibers) × (m'.next ≡ m.next)
unfolding destroy set_this
destroy-fibers p m m' e = ground arith

-- The blocks in use are those of the fibers that are there, each of one fiber.
record IsSound (s : Space) : Type 0 where
  bounded : (p : ℕ) → s.is_there p ≡ true → p < s.machine.next
  in_use : (p b : ℕ) → s.is_there p ≡ true → s.stack p ≡ some b → s.live b ≡ true
  apart :
      (p q b : ℕ)
      → s.is_there p ≡ true
      → s.is_there q ≡ true
      → s.stack p ≡ some b
      → s.stack q ≡ some b
      → p ≡ q
  owned : (b : ℕ) → s.live b ≡ true → (p : ℕ) × (s.is_there p ≡ true) × (s.stack p ≡ some b)
  known : (p : ℕ) → s.is_there p ≡ true → (s.machine.fibers p).has_stack ≡ is_some (s.stack p)

make_fiber-IsSound :
    (b d cb z : ℕ) (c : Bool) (s : Space)
    → s.live b ≡ false
    → IsSound s
    → IsSound (make_fiber b d cb z c s)
unfolding make_fiber new_fiber
make_fiber-IsSound new d cb z c s free h = record {
  bounded = λ p e. ground (arith, h.bounded p);
  in_use = λ p b e at. ground (arith, h.in_use p b);
  apart = λ p q b ep eq ap aq. ground (arith, h.apart p q b, h.in_use p b, h.in_use q b, free);
  owned = λ b e. elim (Bool-cases (new == b)) [
    | inl at ↦ (s.machine.next, ground arith, ground arith)
    | inr at ↦
        let (p, there, mine) = h.owned b (rw at at e) in
        (p, ground (arith, there), ground (arith, mine, h.bounded p there))
  ];
  known = λ p e. ground (arith, h.known p);
}

make_main-IsSound : (s : Space) → IsSound s → IsSound (make_main s)
unfolding make_main new_main set_this
make_main-IsSound s h = record {
  bounded = λ p e. ground (arith, h.bounded p);
  in_use = λ p b e at. ground (arith, h.in_use p b);
  apart = λ p q b ep eq ap aq. ground (arith, h.apart p q b);
  owned = λ b e.
      let (p, there, mine) = h.owned b e in
      (p, ground (arith, there), ground (arith, mine, h.bounded p there));
  known = λ p e. ground (arith, h.known p);
}

-- Without its stack, a fiber that was there is gone.
gone-IsSound :
    (p : ℕ) (m : Machine) (s : Space)
    → m.fibers ≡ s.machine.fibers
    → m.next ≡ s.machine.next
    → s.is_there p ≡ true
    → s.stack p ≡ none
    → IsSound s
    → IsSound (record s { machine = m; is_there = with s.is_there p false })
gone-IsSound p m s same_fibers same_next there bare h = record {
  bounded = λ q e. ground (arith, h.bounded q, same_next);
  in_use = λ q b e at. ground (arith, h.in_use q b);
  apart = λ q r b eq er aq ar. ground (arith, h.apart q r b);
  owned = λ b e. let (q, at, mine) = h.owned b e in (q, ground (arith, at, mine, bare), mine);
  known = λ q e. ap (λ f. (f q).has_stack) same_fibers ∙ ground (arith, h.known q);
}

freed-IsSound :
    (p b : ℕ) (m : Machine) (s : Space)
    → m.fibers ≡ s.machine.fibers
    → m.next ≡ s.machine.next
    → s.is_there p ≡ true
    → s.stack p ≡ some b
    → IsSound s
    → IsSound
        (record s { machine = m; is_there = with s.is_there p false; live = with s.live b false })
freed-IsSound p b m s same_fibers same_next there mine h = record {
  bounded = λ q e. ground (arith, h.bounded q, same_next);
  in_use = λ q c e at. ground (arith, h.in_use q c, h.apart p q b, there, mine);
  apart = λ q r c eq er aq ar. ground (arith, h.apart q r c);
  owned = λ c e.
      let (q, at, its) = h.owned c (ground (arith, e)) in
      (q, ground (arith, e, at, its, mine), its);
  known = λ q e. ap (λ f. (f q).has_stack) same_fibers ∙ ground (arith, h.known q);
}

runs-IsSound :
    (m : Machine) (s : Space)
    → m.next ≡ s.machine.next
    → ((p : ℕ) → (m.fibers p).has_stack ≡ (s.machine.fibers p).has_stack)
    → IsSound s
    → IsSound (record s { machine = m })
runs-IsSound m s same_next same_stack h = record {
  bounded = λ q e. ground (arith, h.bounded q, same_next);
  in_use = h.in_use;
  apart = h.apart;
  owned = h.owned;
  known = λ q e. same_stack q ∙ h.known q e;
}

abbrev without : Option ℕ → (ℕ → Bool) → ℕ → Bool
without none live = live
without (some b) live = with live b false

abbrev gone : ℕ → Machine → Space → Space
gone p m s = record s {
  machine = m;
  is_there = with s.is_there p false;
  live = without (s.stack p) s.live;
}

free_stack-live :
    (p : ℕ) (o : Option ℕ) (s : Space)
    → IsSound s
    → s.is_there p ≡ true
    → s.stack p ≡ o
    → free_stack o s.live ≡ ok (without o s.live)
unfolding free_stack dealloc
free_stack-live p none s h there e = refl
free_stack-live p (some b) s h there e = rw (h.in_use p b there e) refl

drop_fiber-gone :
    (p : ℕ) (m : Machine) (s : Space)
    → IsSound s
    → s.is_there p ≡ true
    → destroy p s.machine ≡ ok m
    → drop_fiber p s ≡ ok (gone p m s)
unfolding drop_fiber
drop_fiber-gone p m s h there e = rw (e, free_stack-live p (s.stack p) s h there refl) refl

gone-at :
    (p : ℕ) (m : Machine) (o : Option ℕ) (s : Space)
    → m.fibers ≡ s.machine.fibers
    → m.next ≡ s.machine.next
    → IsSound s
    → s.is_there p ≡ true
    → s.stack p ≡ o
    → IsSound
        (record s { machine = m; is_there = with s.is_there p false; live = without o s.live })
gone-at p m none s f n h there e = gone-IsSound p m s f n there e h
gone-at p m (some b) s f n h there e = freed-IsSound p b m s f n there e h

drop_fiber-IsSound :
    (p : ℕ) (s t : Space) → IsSound s → s.is_there p ≡ true → drop_fiber p s ≡ ok t → IsSound t
unfolding drop_fiber
drop_fiber-IsSound p s t h there e =
    let (m, destroyed, rest) = >>=-eq-ok (destroy p s.machine) _ e in
    let (f, n) = destroy-fibers p s.machine m destroyed in
    subst IsSound (ok-injective (sym (drop_fiber-gone p m s h there destroyed) ∙ e))
      (gone-at p m (s.stack p) s f n h there refl)

Step-IsSound : {s t : Space} → Step s t → IsSound s → IsSound t
Step-IsSound {s = s} (makes b d cb z c free) h = make_fiber-IsSound b d cb z c s free h
Step-IsSound {s = s} makes_main h = make_main-IsSound s h
Step-IsSound {s = s} (drops p t there e) h = drop_fiber-IsSound p s t h there e
Step-IsSound {s = s} (runs m n f) h = runs-IsSound m s n f h

Reach-IsSound : {m : Machine} {s : Space} → Reach m s → IsSound s
Reach-IsSound here = record {
  bounded = λ p e. cc;
  in_use = λ p b e at. cc;
  apart = λ p q b ep eq ap aq. cc;
  owned = λ b e. cc;
  known = λ p e. cc;
}
Reach-IsSound (later r st) = Step-IsSound st (Reach-IsSound r)

-- However fibers were made, used and destroyed, each of them once: where the destructor of a
-- fiber that is there fails no assertion, the block that it frees, if any, is in use; and
-- afterwards every block in use is the stack of a fiber that is there and has one, so that none
-- is left when these are gone.
pub stacks_balanced :
    {m : Machine} {s : Space}
    → Reach m s
    → (p : ℕ) (m' : Machine) → s.is_there p ≡ true
    → destroy p s.machine ≡ ok m'
    → (t : Space) × (drop_fiber p s ≡ ok t)
      × (t.machine ≡ m')
      × (t.is_there p ≡ false)
      × ((b : ℕ)
          → t.live b ≡ true
          → (q : ℕ) × (t.is_there q ≡ true)
            × ((t.machine.fibers q).has_stack ≡ true)
            × (t.stack q ≡ some b))
stacks_balanced {s = s} r p m' there e =
    let h = Reach-IsSound r in
    let dropped = drop_fiber-gone p m' s h there e in
    let after : IsSound (gone p m' s) = drop_fiber-IsSound p s (gone p m' s) h there dropped in
    (
      gone p m' s,
      dropped,
      refl,
      rw (==_self p) refl,
      λ b live.
          let (q, at, mine) = after.owned b live in
          (q, at, after.known q at ∙ ap is_some mine, mine),
    )
