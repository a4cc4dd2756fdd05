-- ===== src/Scheduler/Threads/Counts.antt =====
-- The counts of active and of idle threads that Scheduler::run in atpdxy/scheduler.cpp keeps, on
-- several threads.
use atpdxy.Common.{
  ℕ, zero, suc, ◌+◌, ◌^◌, ◌≤◌, ◌<◌, ◌≡◌, refl, sym, ap, ◌∙◌, inl, inr, Bool, true, false, arith,
  if◌then◌else◌, Bool-cases, Option-cases,
}
use atpdxy.Fiber.{is_ready, is_over, is_some, increment, decrement}
use atpdxy.Scheduler.{Scheduler, Pick, tickle, stopping, fiber_task}
use atpdxy.Scheduler.Schedule.{schedule-SameButQueue, SameButQueue}
use atpdxy.Scheduler.Threads.{
  Phase, System, Step, Reach, IsFresh, move, after_pick, phase_of, less_active, settle, searching,
  found, in_turn, turned, counted, nothing, idling, idled, left, takes, swaps_in, swaps_in_callback,
  drops, swaps_out, counts, settles, idles, looks, wakes, leaves, submits, sets_auto_stop,
  sets_stopping, here, later,
}

-- The sum of a weight over the first threads.
unfoldable pub total : ℕ → (Phase → ℕ) → (ℕ → Phase) → ℕ
total zero w at = 0
total (suc n) w at = w (at n) + total n w at

-- The threads that have a task or have not counted back since, and those in their idle fiber.
abbrev pub busy_in : Phase → ℕ
busy_in (found _) = 1
busy_in (in_turn _ _) = 1
busy_in (turned _ _) = 1
busy_in _ = 0

abbrev pub idle_in : Phase → ℕ
idle_in idling = 1
idle_in (idled _) = 1
idle_in _ = 0

total_off :
    (n i : ℕ) (w : Phase → ℕ) (p : Phase) (at : ℕ → Phase)
    → n ≤ i
    → total n w (move i p at) ≡ total n w at
unfolding total
total_off zero i w p at h = refl
total_off (suc n) i w p at h = ground (arith, total_off n i w p at)

pub total-move :
    (n i : ℕ) (w : Phase → ℕ) (p : Phase) (at : ℕ → Phase)
    → i < n
    → total n w (move i p at) + w (at i) ≡ total n w at + w p
unfolding total
total-move zero i w p at h = ground arith
total-move (suc n) i w p at h = ground (arith, total-move n i w p at, total_off n i w p at)

pub total_le : (n : ℕ) (w : Phase → ℕ) (at : ℕ → Phase) → ((p : Phase) → w p ≤ 1) → total n w at ≤ n
unfolding total
total_le zero w at h = omega arith
total_le (suc n) w at h = omega (arith, h (at n), total_le n w at h)

pub total_zero :
    (n i : ℕ) (w : Phase → ℕ) (at : ℕ → Phase) → i < n → total n w at ≡ 0 → w (at i) ≡ 0
unfolding total
total_zero zero i w at h e = ground arith
total_zero (suc n) i w at h e = ground (arith, total_zero n i w at)

module _ {n : ℕ} (small : n < 2 ^ 64) (w : Phase → ℕ) (unit : (p : Phase) → w p ≤ 1)
    (at : ℕ → Phase) (i : ℕ) (p : Phase) (h : i < n) where
  total_up :
      {c : ℕ} → w (at i) ≡ 0 → w p ≡ 1 → c ≡ total n w at → increment c ≡ total n w (move i p at)
  total_up a b is = omega (arith, total-move n i w p at h, total_le n w (move i p at) unit)

  total_down :
      {c : ℕ} → w (at i) ≡ 1 → w p ≡ 0 → c ≡ total n w at → decrement c ≡ total n w (move i p at)
  total_down a b is = omega (arith, total-move n i w p at h, total_le n w at unit)

total_same :
    (n : ℕ) (w : Phase → ℕ) (at : ℕ → Phase) (i : ℕ) (p : Phase)
    → i < n
    → {c : ℕ} → w (at i) ≡ w p
    → c ≡ total n w at
    → c ≡ total n w (move i p at)
total_same n w at i p h a is = omega (arith, total-move n i w p at h)

busy_le : (p : Phase) → busy_in p ≤ 1
busy_le p = ground arith

idle_le : (p : Phase) → idle_in p ≤ 1
idle_le p = ground arith

-- Both counts are what they count.
pub record AreCounts (n : ℕ) (s : System) : Type 0 where
  pub active_is : s.sched.active ≡ total n busy_in s.at
  pub idle_is : s.sched.idle ≡ total n idle_in s.at

after_pick-active :
    (r : Pick) (s : Scheduler)
    → (after_pick r s).active ≡ (if is_some r.taken then increment s.active else s.active)
unfolding tickle
after_pick-active r s = ground arith

after_pick-idle : (r : Pick) (s : Scheduler) → (after_pick r s).idle ≡ s.idle
unfolding tickle
after_pick-idle r s = ground arith

pub settle-SameButQueue :
    (b : Bool) (p : ℕ) (s : System) → SameButQueue s.sched (settle b p s).sched
unfolding settle
settle-SameButQueue b p s = elim (Bool-cases (is_ready (s.states p))) [
  | inl e ↦ rw e (schedule-SameButQueue (fiber_task p) s.sched)
  | inr e ↦ elim (Bool-cases (is_over (s.states p))) [
    | inl f ↦ rw (e, f) (ground arith)
    | inr f ↦ rw (e, f) (ground arith)
  ]
]

module _ {n : ℕ} (small : n < 2 ^ 64) {s : System} (x : AreCounts n s) where
  takes-AreCounts :
      (i : ℕ) (r : Pick)
      → i < n
      → s.at i ≡ searching
      → AreCounts n (record s { sched = after_pick r s.sched; at = move i (phase_of r.taken) s.at })
  takes-AreCounts i r h e = elim (Option-cases r.taken) [
    | inl f ↦ record {
      active_is =
          rw (after_pick-active r s.sched, f)
            (total_same n busy_in s.at i nothing h (rw e refl) x.active_is);
      idle_is =
          rw (after_pick-idle r s.sched, f)
            (total_same n idle_in s.at i nothing h (rw e refl) x.idle_is);
    }
    | inr (t, f) ↦ record {
      active_is =
          rw (after_pick-active r s.sched, f)
            (total_up small busy_in busy_le s.at i (found t) h (rw e refl) refl x.active_is);
      idle_is =
          rw (after_pick-idle r s.sched, f)
            (total_same n idle_in s.at i (found t) h (rw e refl) x.idle_is);
    }
  ]

  -- A move that leaves both counts as they are.
  stays :
      (i : ℕ) (p : Phase) {q : Phase}
      → i < n
      → s.at i ≡ q
      → busy_in q ≡ busy_in p
      → idle_in q ≡ idle_in p
      → {t : System} → t.sched.active ≡ s.sched.active
      → t.sched.idle ≡ s.sched.idle
      → t.at ≡ move i p s.at
      → AreCounts n t
  stays i p h e f g a b c = record {
    active_is = rw (c, a) (total_same n busy_in s.at i p h (ap busy_in e ∙ f) x.active_is);
    idle_is = rw (c, b) (total_same n idle_in s.at i p h (ap idle_in e ∙ g) x.idle_is);
  }

  -- A thread gives its task back to the count.
  counts_back :
      (i : ℕ) (p : Phase) {q : Phase}
      → i < n
      → s.at i ≡ q
      → busy_in q ≡ 1
      → busy_in p ≡ 0
      → idle_in q ≡ idle_in p
      → AreCounts n (record s { sched = less_active s.sched; at = move i p s.at })
  counts_back i p h e f z g = record {
    active_is = total_down small busy_in busy_le s.at i p h (ap busy_in e ∙ f) z x.active_is;
    idle_is = total_same n idle_in s.at i p h (ap idle_in e ∙ g) x.idle_is;
  }

  idles-AreCounts :
      (i : ℕ)
      → i < n
      → s.at i ≡ nothing
      → AreCounts n (record s {
        sched = record s.sched { idle = increment s.sched.idle };
        at = move i idling s.at;
      })
  idles-AreCounts i h e = record {
    active_is = total_same n busy_in s.at i idling h (ap busy_in e) x.active_is;
    idle_is = total_up small idle_in idle_le s.at i idling h (ap idle_in e) refl x.idle_is;
  }

  wakes-AreCounts :
      (i : ℕ) (b : Bool)
      → i < n
      → s.at i ≡ idled b
      → AreCounts n (record s {
        sched = record s.sched { idle = decrement s.sched.idle };
        at = move i searching s.at;
        idle_over = move i b s.idle_over;
      })
  wakes-AreCounts i b h e = record {
    active_is = total_same n busy_in s.at i searching h (ap busy_in e) x.active_is;
    idle_is = total_down small idle_in idle_le s.at i searching h (ap idle_in e) refl x.idle_is;
  }

Step-AreCounts :
    {n : ℕ} (small : n < 2 ^ 64) {tid : ℕ → ℕ} {s t : System}
    → Step n tid s t
    → AreCounts n s
    → AreCounts n t
Step-AreCounts small (takes i r h e f) x = takes-AreCounts small x i r h e
Step-AreCounts small (swaps_in i p t h e f g k) x =
    stays small x i (in_turn false p) h e refl refl refl refl refl
Step-AreCounts small (swaps_in_callback i p cb t h e f g k) x =
    stays small x i (in_turn true p) h e refl refl refl refl refl
Step-AreCounts small (drops i t h e f g) x = counts_back small x i searching h e refl refl refl
Step-AreCounts small (swaps_out i p b state h e) x =
    stays small x i (turned b p) h e refl refl refl refl refl
Step-AreCounts small (counts i p b h e) x = counts_back small x i (counted b p) h e refl refl refl
Step-AreCounts small {s = s} (settles i p b h e) x =
    let q = settle-SameButQueue b p s in
    stays small x i searching h e refl refl q.active_eq q.idle_eq refl
Step-AreCounts small (idles i h e f) x = idles-AreCounts small x i h e
Step-AreCounts small {s = s} (looks i h e) x =
    stays small x i (idled (stopping s.sched)) h e refl refl refl refl refl
Step-AreCounts small (wakes i b h e) x = wakes-AreCounts small x i b h e
Step-AreCounts small (leaves i h e f) x = stays small x i left h e refl refl refl refl refl
Step-AreCounts small {s = s} (submits t) x =
    let q = schedule-SameButQueue t s.sched in
    record { active_is = q.active_eq ∙ x.active_is; idle_is = q.idle_eq ∙ x.idle_is }
Step-AreCounts small sets_auto_stop x = record { active_is = x.active_is; idle_is = x.idle_is }
Step-AreCounts small sets_stopping x = record { active_is = x.active_is; idle_is = x.idle_is }

total_fresh :
    (n : ℕ) (w : Phase → ℕ) (at : ℕ → Phase)
    → w searching ≡ 0
    → ((i : ℕ) → at i ≡ searching)
    → total n w at ≡ 0
unfolding total
total_fresh zero w at z h = refl
total_fresh (suc n) w at z h = omega (arith, ap w (h n) ∙ z, total_fresh n w at z h)

pub Reach-AreCounts :
    {n : ℕ} (small : n < 2 ^ 64) {tid : ℕ → ℕ} {s t : System}
    → IsFresh s
    → Reach n tid s t
    → AreCounts n t
Reach-AreCounts {n} small {s = s} f here = record {
  active_is = f.no_active ∙ sym (total_fresh n busy_in s.at refl f.all_searching);
  idle_is = f.no_idle ∙ sym (total_fresh n idle_in s.at refl f.all_searching);
}
Reach-AreCounts small f (later r x) = Step-AreCounts small x (Reach-AreCounts small f r)

total_both : (n : ℕ) (at : ℕ → Phase) → total n busy_in at + total n idle_in at ≤ n
unfolding total
total_both zero at = omega arith
total_both (suc n) at = ground (arith, total_both n at)

-- On fewer than 2^64 threads that take steps of `run` in any order, with tasks scheduled and
-- `stop` called at any time, the count of active threads is the number of those that are between
-- the task that they took and the decrement, the count of idle threads is the number of those in
-- their idle fiber, neither wraps around, and both together are at most the number of threads.
pub counts_bounded :
    {n : ℕ} (small : n < 2 ^ 64) {tid : ℕ → ℕ} {s t : System}
    → IsFresh s
    → Reach n tid s t
    → (t.sched.active ≡ total n busy_in t.at)
      × (t.sched.idle ≡ total n idle_in t.at)
      × (t.sched.active + t.sched.idle ≤ n)
counts_bounded {n} small {t = t} f r =
    let x = Reach-AreCounts small f r in
    (x.active_is, x.idle_is, omega (arith, x.active_is, x.idle_is, total_both n t.at))
