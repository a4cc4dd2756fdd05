-- ===== src/Scheduler/Threads/Stopping.antt =====
-- When the threads of Scheduler::run in atpdxy/scheduler.cpp stop.
use atpdxy.Common.{
  ℕ, ◌^◌, ◌<◌, ◌≡◌, refl, sym, ap, ◌∙◌, inl, inr, Bool, true, false, Option, none, some, [], arith,
  ◌==◌, Bool-cases,
}
use atpdxy.Fiber.{is_ready, is_over}
use atpdxy.Scheduler.{Task, Scheduler, Pick, tickle, pick, stopping}
use atpdxy.Scheduler.Round.Stops.{stopping_made}
use atpdxy.Scheduler.Schedule.{schedule-SameButQueue}
use atpdxy.Scheduler.Threads.{
  Phase, System, Step, Reach, IsFresh, move, after_pick, phase_of, settle, searching, in_turn,
  turned, counted, nothing, idling, idled, left, takes, swaps_in, swaps_in_callback, drops,
  swaps_out, counts, settles, idles, looks, wakes, leaves, submits, sets_auto_stop, sets_stopping,
  here, later,
}
use atpdxy.Scheduler.Threads.Counts.{busy_in, total_zero, Reach-AreCounts, settle-SameButQueue}

stopping_parts :
    (s : Scheduler)
    → stopping s ≡ true
    → (s.auto_stop ≡ true) × (s.is_stopping ≡ true) × (s.tasks ≡ []) × (s.active ≡ 0)
unfolding stopping
stopping_parts s e = ground arith

-- On fewer than 2^64 threads that take steps of `run` in any order, whenever `stopping` holds the
-- queue is empty, and no thread is between the task that it took and the decrement of the count
-- of active threads.
pub stopping-no_task :
    {n : ℕ} (small : n < 2 ^ 64) {tid : ℕ → ℕ} {s t : System}
    → IsFresh s
    → Reach n tid s t
    → stopping t.sched ≡ true
    → (t.sched.tasks ≡ []) × ((i : ℕ) → i < n → busy_in (t.at i) ≡ 0)
stopping-no_task {n} small {t = t} f r e =
    let (_, _, q, a) = stopping_parts t.sched e in
    let x = Reach-AreCounts small f r in
    (q, λ i h. total_zero n i busy_in t.at h (sym x.active_is ∙ a))

-- Both marks of `stop` are set.
abbrev pub IsStopped : System → Type 0
IsStopped s = (s.sched.auto_stop ≡ true) × (s.sched.is_stopping ≡ true)

-- The thread has seen its idle fiber end.
abbrev pub has_seen_end : Phase → Bool
has_seen_end (idled b) = b
has_seen_end left = true
has_seen_end _ = false

record Waits (s : System) : Type 0 where
  seen : (i : ℕ) → has_seen_end (s.at i) ≡ true → IsStopped s
  over : (i : ℕ) → s.idle_over i ≡ true → IsStopped s

-- A move of a thread to a place at which it has not seen the end of its idle fiber.
moves :
    {s t : System} (i : ℕ) (p : Phase)
    → Waits s
    → (IsStopped s → IsStopped t)
    → has_seen_end p ≡ false
    → t.at ≡ move i p s.at
    → t.idle_over ≡ s.idle_over
    → Waits t
moves {s} i p x up e f g = record {
  seen = λ j h. elim (Bool-cases (i == j)) [
    | inl q ↦ ground arith
    | inr q ↦ up (x.seen j (ground (arith, f)))
  ];
  over = λ j h. up (x.over j (ground arith));
}

after_pick-marks :
    (r : Pick) (s : System) (p : ℕ → Phase)
    → IsStopped s
    → IsStopped (record s { sched = after_pick r s.sched; at = p })
unfolding tickle
after_pick-marks r s p h = ground arith

phase_of_unseen : (o : Option Task) → has_seen_end (phase_of o) ≡ false
phase_of_unseen none = refl
phase_of_unseen (some t) = refl

settle-marks : (b : Bool) (p : ℕ) (s : System) → IsStopped s → IsStopped (settle b p s)
settle-marks b p s (h, k) =
    let q = settle-SameButQueue b p s in (q.auto_stop_eq ∙ h, q.is_stopping_eq ∙ k)

settle-idle_over : (b : Bool) (p : ℕ) (s : System) → (settle b p s).idle_over ≡ s.idle_over
unfolding settle
settle-idle_over b p s = elim (Bool-cases (is_ready (s.states p))) [
  | inl e ↦ rw e refl
  | inr e ↦ elim (Bool-cases (is_over (s.states p))) [
    | inl f ↦ rw (e, f) refl
    | inr f ↦ rw (e, f) refl
  ]
]

looks-Waits :
    {s : System} (i : ℕ)
    → Waits s
    → Waits (record s { at = move i (idled (stopping s.sched)) s.at })
looks-Waits {s} i x = record {
  seen = λ j h. elim (Bool-cases (i == j)) [
    | inl q ↦ let (a, b, _, _) = stopping_parts s.sched (ground arith) in (a, b)
    | inr q ↦ x.seen j (ground arith)
  ];
  over = x.over;
}

wakes-Waits :
    {s : System} (sched : Scheduler) (i : ℕ) (b : Bool)
    → s.at i ≡ idled b
    → Waits s
    → (IsStopped s → (sched.auto_stop ≡ true) × (sched.is_stopping ≡ true))
    → Waits
        (record s { sched = sched; at = move i searching s.at; idle_over = move i b s.idle_over })
wakes-Waits {s} sched i b e x up = record {
  seen = λ j h. elim (Bool-cases (i == j)) [
    | inl q ↦ ground arith
    | inr q ↦ up (x.seen j (ground arith))
  ];
  over = λ j h. elim (Bool-cases (i == j)) [
    | inl q ↦ up (x.seen i (rw e (ground arith)))
    | inr q ↦ up (x.over j (ground arith))
  ];
}

leaves-Waits :
    {s : System} (i : ℕ)
    → s.idle_over i ≡ true
    → Waits s
    → Waits (record s { at = move i left s.at })
leaves-Waits {s} i e x = record {
  seen = λ j h. elim (Bool-cases (i == j)) [ inl q ↦ x.over i e | inr q ↦ x.seen j (ground arith) ];
  over = x.over;
}

Step-Waits : {n : ℕ} {tid : ℕ → ℕ} {s t : System} → Step n tid s t → Waits s → Waits t
Step-Waits {s = s} (takes i r h e f) x =
    moves i (phase_of r.taken) x (after_pick-marks r s (move i (phase_of r.taken) s.at))
      (phase_of_unseen r.taken) refl refl
Step-Waits (swaps_in i p t h e f g k) x = moves i (in_turn false p) x (λ y. y) refl refl refl
Step-Waits (swaps_in_callback i p cb t h e f g k) x =
    moves i (in_turn true p) x (λ y. y) refl refl refl
Step-Waits (drops i t h e f g) x = moves i searching x (λ y. y) refl refl refl
Step-Waits (swaps_out i p b state h e) x = moves i (turned b p) x (λ y. y) refl refl refl
Step-Waits (counts i p b h e) x = moves i (counted b p) x (λ y. y) refl refl refl
Step-Waits {s = s} (settles i p b h e) x =
    moves i searching x (settle-marks b p s) refl refl (settle-idle_over b p s)
Step-Waits (idles i h e f) x = moves i idling x (λ y. y) refl refl refl
Step-Waits (looks i h e) x = looks-Waits i x
Step-Waits (wakes i b h e) x = wakes-Waits _ i b e x (λ y. y)
Step-Waits (leaves i h e f) x = leaves-Waits i f x
Step-Waits {s = s} (submits t) x =
    let q = schedule-SameButQueue t s.sched in
    record {
      seen = λ j h. let (a, b) = x.seen j h in (q.auto_stop_eq ∙ a, q.is_stopping_eq ∙ b);
      over = λ j h. let (a, b) = x.over j h in (q.auto_stop_eq ∙ a, q.is_stopping_eq ∙ b);
    }
Step-Waits sets_auto_stop x = record {
  seen = λ j h. (refl, (x.seen j h).1);
  over = λ j h. (refl, (x.over j h).1);
}
Step-Waits sets_stopping x = record {
  seen = λ j h. ((x.seen j h).0, refl);
  over = λ j h. ((x.over j h).0, refl);
}

Reach-Waits : {n : ℕ} {tid : ℕ → ℕ} {s t : System} → IsFresh s → Reach n tid s t → Waits t
Reach-Waits f here = record {
  seen = λ j h. ground (arith, f.all_searching j);
  over = λ j h. ground (arith, f.none_over j);
}
Reach-Waits f (later r x) = Step-Waits x (Reach-Waits f r)

-- On threads that take steps of `run` in any order, a thread has left the loop only if both marks
-- that `stop` sets are set.
pub left-IsStopped :
    {n : ℕ} {tid : ℕ → ℕ} {s t : System}
    → IsFresh s
    → Reach n tid s t
    → (i : ℕ) → t.at i ≡ left
    → IsStopped t
left-IsStopped f r i e = (Reach-Waits f r).seen i (ap has_seen_end e)

-- From a search on an empty queue, the thread comes to the end of its round.
reach_nothing :
    {n : ℕ} {tid : ℕ → ℕ} {s t : System} (i : ℕ)
    → i < n
    → Reach n tid s t
    → t.at i ≡ searching
    → stopping t.sched ≡ true
    → (u : System) × Reach n tid s u
      × (u.at i ≡ nothing)
      × (u.idle_over i ≡ t.idle_over i)
      × (stopping u.sched ≡ true)
unfolding pick after_pick
reach_nothing {tid = tid} {t = t} i h r e st =
    let (a, b, q, c) = stopping_parts t.sched st in
    let none_left : Pick = record { taken = none; left = []; tickle_me = false } in
    (
      _,
      later r (takes i none_left h e (rw q refl)),
      ground arith,
      refl,
      stopping_made (after_pick none_left t.sched) a b refl c,
    )

-- Through the idle fiber, which ends, and back to the search.
reach_over :
    {n : ℕ} {tid : ℕ → ℕ} {s t : System} (i : ℕ)
    → i < n
    → Reach n tid s t
    → t.at i ≡ nothing
    → t.idle_over i ≡ false
    → stopping t.sched ≡ true
    → (u : System) × Reach n tid s u
      × (u.at i ≡ searching)
      × (u.idle_over i ≡ true)
      × (stopping u.sched ≡ true)
unfolding stopping
reach_over {t = t} i h r e o st = (
  _,
  later (later (later r (idles i h e o)) (looks i h (ground arith)))
      (wakes i true h (ground arith)),
  ground arith,
  ground arith,
  st,
)

-- When `stopping` holds, a thread that is in front of a round of `run` can leave the loop by its
-- own steps, and `stopping` still holds then.
pub thread_leaves :
    {n : ℕ} {tid : ℕ → ℕ} {s : System} (i : ℕ)
    → i < n
    → s.at i ≡ searching
    → stopping s.sched ≡ true
    → (t : System) × Reach n tid s t × (t.at i ≡ left) × (stopping t.sched ≡ true)
thread_leaves {s = s} i h e st =
    let (u, r, n, o, q) = reach_nothing i h here e st in
    elim (Bool-cases (s.idle_over i)) [
      | inl y ↦ (_, later r (leaves i h n (o ∙ y)), ground arith, q)
      | inr y ↦
          let (v, r', e', o', q') = reach_over i h r n (o ∙ y) q in
          let (w, r'', n', o'', q'') = reach_nothing i h r' e' q' in
          (_, later r'' (leaves i h n' (o'' ∙ o')), ground arith, q'')
    ]
