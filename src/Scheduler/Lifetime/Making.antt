-- ===== src/Scheduler/Lifetime/Making.antt =====
-- The constructor of Scheduler in atpdxy/scheduler.cpp, `start`, and the destructor.
use mathlib.Core.List.{map, append_assoc, append-nil}
use atpdxy.Common.{
  ℕ, zero, suc, ◌+◌, ◌≡◌, refl, sym, ap, ◌∙◌, subst, ◌<◌, true, false, none, some, List, [], ◌∷◌,
  ◌++◌, arith,
}
use atpdxy.Common.Bytes.{Bytes}
use atpdxy.Common.Result.{ok}
use atpdxy.Fiber.{new_fiber, get_this, Machine}
use atpdxy.Scheduler.{Scheduler}
use atpdxy.Thread.{set_name}
use atpdxy.Scheduler.Lifetime.{Site, blank, construct, start, start_from}
use atpdxy.Scheduler.Lifetime.Entry.{IsAlone}

get_this_first :
    (m : Machine)
    → m.this_fiber ≡ none
    → ((get_this m).0.thread_fiber ≡ some m.next)
      × ((get_this m).0.next ≡ m.next + 1)
      × ((get_this m).0.running ≡ some m.next)
unfolding get_this
get_this_first m e = rw e (refl, refl, refl)

-- What the constructor makes on the machine `m`, on which the thread has its fiber.
abbrev root_machine : ℕ → ℕ → Machine → Machine
root_machine size cb m = record (new_fiber size cb 0 true m).0 { main_fiber = some m.next }

abbrev constructed : ℕ → ℕ → ℕ → ℕ → Bytes → Site → Site
constructed self size cb tid name s =
    let m = (get_this s.machine).0 in
    let (thread, locals) = set_name name s.thread s.locals in
    record {
      sched = record (blank name) {
        root_fiber = some m.next;
        root_thread = some tid;
        thread_ids = tid ∷ [];
        thread_count = 0;
      };
      machine = root_machine size cb m;
      this_scheduler = some self;
      thread = thread;
      locals = locals;
    }

construct-constructed :
    (self size cb tid : ℕ) (name : Bytes) (s : Site)
    → s.this_scheduler ≡ none
    → construct self size cb tid 1 true name s ≡ ok (constructed self size cb tid name s)
unfolding construct new_fiber
construct-constructed self size cb tid name s fresh = rw fresh refl

constructed-IsAlone :
    (self size cb tid t : ℕ) (name : Bytes) (s : Site)
    → (get_this s.machine).0.thread_fiber ≡ some t
    → (get_this s.machine).0.running ≡ some t
    → t < (get_this s.machine).0.next
    → IsAlone self tid (get_this s.machine).0.next t [] (constructed self size cb tid name s)
unfolding new_fiber
constructed-IsAlone self size cb tid t name s e run made = record {
  root_eq = refl;
  root_thread_eq = refl;
  no_threads = refl;
  threads_eq = refl;
  no_active = refl;
  tasks_eq = refl;
  here_eq = refl;
  main_eq = refl;
  thread_eq = e;
  runs = run;
  root_ctx = ground arith;
  root_func = ground arith;
  root_made = omega arith;
  root_not_thread = omega (arith, made);
  thread_made = omega (arith, made);
  waiting = tt;
  distinct = tt;
}

next-constructed :
    (self size cb tid : ℕ) (name : Bytes) (s : Site)
    → (constructed self size cb tid name s).machine.next ≡ (get_this s.machine).0.next + 1
unfolding new_fiber
next-constructed self size cb tid name s = refl

-- On a thread that has no scheduler and has made no fiber, a scheduler of one thread that uses the
-- caller is constructed, and is alone: the thread's fiber and the root fiber are the next two.
pub construct-IsAlone :
    (self size cb tid : ℕ) (name : Bytes) (s : Site)
    → s.this_scheduler ≡ none
    → s.machine.this_fiber ≡ none
    → (s' : Site) × (construct self size cb tid 1 true name s ≡ ok s')
      × IsAlone self tid (s.machine.next + 1) s.machine.next [] s'
      × (s'.machine.next ≡ s.machine.next + 2)
construct-IsAlone self size cb tid name s fresh first =
    let (thread, next, run) = get_this_first s.machine first in
    (
      constructed self size cb tid name s,
      construct-constructed self size cb tid name s fresh,
      subst (λ n. IsAlone self tid n s.machine.next [] (constructed self size cb tid name s)) next
          (constructed-IsAlone self size cb tid s.machine.next name s thread run
            (omega (arith, next))),
      omega (arith, next, next-constructed self size cb tid name s),
    )

-- The numbers from `i` on.
abbrev pub numbers : ℕ → ℕ → List ℕ
numbers zero i = []
numbers (suc n) i = i ∷ numbers n (i + 1)

start_from_lem :
    (id_of : ℕ → ℕ) (n i : ℕ) (s : Scheduler)
    → ((start_from id_of n i s).threads ≡ s.threads ++ numbers n i)
      × ((start_from id_of n i s).thread_ids ≡ s.thread_ids ++ map id_of (numbers n i))
      × ((start_from id_of n i s).is_stopping ≡ s.is_stopping)
unfolding start_from
start_from_lem id_of zero i s = (sym (append-nil s.threads), sym (append-nil s.thread_ids), refl)
start_from_lem id_of (suc n) i s =
    let s' : Scheduler = record s {
      threads = s.threads ++ i ∷ [];
      thread_ids = s.thread_ids ++ id_of i ∷ [];
    } in
    let (a, b, c) = start_from_lem id_of n (i + 1) s' in
    (
      a ∙ append_assoc s.threads (i ∷ []) (numbers n (i + 1)),
      b ∙ append_assoc s.thread_ids (id_of i ∷ []) (map id_of (numbers n (i + 1))),
      c,
    )

pub start_eq :
    (id_of : ℕ → ℕ) (s : Scheduler)
    → s.is_stopping ≡ true
    → s.threads ≡ []
    → start id_of s ≡ ok (start_from id_of s.thread_count 0 (record s { is_stopping = false }))
unfolding start
start_eq id_of s stops empty = rw (stops, empty) refl

-- On a stopped scheduler without threads, `start` succeeds, makes as many threads as its count
-- says, and puts their ids behind the known ones in order; a second `start` changes nothing.
pub start_lem :
    (id_of : ℕ → ℕ) (s : Scheduler)
    → s.is_stopping ≡ true
    → s.threads ≡ []
    → (s' : Scheduler) × (start id_of s ≡ ok s')
      × (s'.threads ≡ numbers s.thread_count 0)
      × (s'.thread_ids ≡ s.thread_ids ++ map id_of (numbers s.thread_count 0))
      × (start id_of s' ≡ ok s')
unfolding start
start_lem id_of s stops empty =
    let s' = start_from id_of s.thread_count 0 (record s { is_stopping = false }) in
    let (a, b, c) = start_from_lem id_of s.thread_count 0 (record s { is_stopping = false }) in
    (
      s',
      start_eq id_of s stops empty,
      a ∙ ap (λ x. x ++ numbers s.thread_count 0) empty,
      b,
      rw c refl,
    )
