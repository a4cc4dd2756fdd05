-- ===== src/Mutex/CasLock.antt =====
-- atpdxy/mutex.h, class CASLock, under any number of threads that take and release it in any order.
use atpdxy.Common.{
  ℕ, ◌≡◌, ◌≢◌, ◌⊎◌, inl, inr, Bool, true, false, arith, ◌==◌, if◌then◌else◌, Bool-cases,
}

-- `std::atomic_flag_test_and_set`: the flag afterwards, and what it was.
unfoldable pub test_and_set : Bool → Bool × Bool
test_and_set flag = (true, flag)

-- Where a thread is: not in the lock, in the loop of `lock`, or behind it.
pub data Pc : Type 0 where
  outside spinning inside : Pc

-- One round of the loop of `lock`.
unfoldable pub try_lock : Bool → Bool × Pc
unfolding test_and_set
try_lock flag = let (flag', was) = test_and_set flag in (flag', if was then spinning else inside)

-- `unlock`, and the flag of a new lock.
pub clear : Bool → Bool
clear flag = false

unfoldable pub new_flag : Bool
new_flag = false

pub record System : Type 0 where
  pub flag : Bool
  pub pc : ℕ → Pc

abbrev pub move : ℕ → Pc → (ℕ → Pc) → ℕ → Pc
move i p pc j = if i == j then p else pc j

-- A thread calls `lock`, makes a round of its loop, or calls `unlock` when it has the lock.
pub data Step (s : System) : System → Type 0 where
  calls : (i : ℕ) → s.pc i ≡ outside → Step s (record s { pc = move i spinning s.pc })
  tries :
      (i : ℕ)
      → s.pc i ≡ spinning
      → Step s (record { flag = (try_lock s.flag).0; pc = move i (try_lock s.flag).1 s.pc })
  leaves :
      (i : ℕ) → s.pc i ≡ inside → Step s (record { flag = clear s.flag; pc = move i outside s.pc })

abbrev pub start : System
start = record { flag = new_flag; pc = λ i. outside }

pub data Steps (s : System) : System → Type 0 where
  here : Steps s s
  later : {t u : System} → Steps s t → Step t u → Steps s u

-- The flag is set exactly while a thread is inside, and one at most is.
pub record IsLock (s : System) : Type 0 where
  pub unique : (i j : ℕ) → s.pc i ≡ inside → s.pc j ≡ inside → i ≡ j
  pub free : s.flag ≡ false → (i : ℕ) → s.pc i ≢ inside
  pub held : s.flag ≡ true → (i : ℕ) × (s.pc i ≡ inside)

start-IsLock : IsLock start
unfolding new_flag
start-IsLock = record { unique = λ i j p q. cc; free = λ e i p. cc; held = λ e. cc }

Step-IsLock : {s t : System} → Step s t → IsLock s → IsLock t
unfolding try_lock clear
Step-IsLock {s} (calls i e) h = record {
  unique = λ j k p q. ground (arith, h.unique j k);
  free = λ f j p. ground (arith, h.free f j);
  held = λ f. let (j, p) = h.held f in (j, ground arith);
}
Step-IsLock {s} (tries i e) h = record {
  unique = λ j k p q.
      ground (
        arith,
        h.unique j k,
        λ (f : s.flag ≡ false). h.free f j,
        λ (f : s.flag ≡ false). h.free f k,
      );
  free = λ f j p. cc;
  held = λ f. holder (Bool-cases s.flag);
}
  where
    holder :
        (s.flag ≡ true) ⊎ (s.flag ≡ false)
        → (j : ℕ) × (move i (if s.flag then spinning else inside) s.pc j ≡ inside)
    holder (inl f) = let (j, p) = h.held f in (j, ground arith)
    holder (inr f) = (i, ground arith)
Step-IsLock {s} (leaves i e) h = record {
  unique = λ j k p q. ground (arith, h.unique j k);
  free = λ f j p. ground (arith, h.unique i j);
  held = λ f. cc;
}

Steps-IsLock : {s t : System} → IsLock s → Steps s t → IsLock t
Steps-IsLock h here = h
Steps-IsLock h (later r x) = Step-IsLock x (Steps-IsLock h r)

-- Of any number of threads that take and release a CASLock in any order, one at most is between
-- its `lock` and its `unlock`.
pub mutual_exclusion :
    {s : System} → Steps start s → (i j : ℕ) → s.pc i ≡ inside → s.pc j ≡ inside → i ≡ j
mutual_exclusion r = (Steps-IsLock start-IsLock r).unique

try_free :
    {s : System} (i : ℕ)
    → s.pc i ≡ spinning
    → s.flag ≡ false
    → (t : System) × Steps s t × (t.pc i ≡ inside)
unfolding try_lock
try_free {s} i e f = (_, later here (tries i e), ground arith)

-- From each state that threads can reach, a thread in the loop of CASLock's `lock` can get the
-- lock.
pub lock_progress :
    {s : System}
    → Steps start s
    → (i : ℕ) → s.pc i ≡ spinning
    → (t : System) × Steps s t × (t.pc i ≡ inside)
unfolding clear try_lock
lock_progress {s} r i e = elim (Bool-cases s.flag) [
  | inl f ↦
      let (j, p) = (Steps-IsLock start-IsLock r).held f in
      (_, later (later here (leaves j p)) (tries i (ground arith)), ground arith)
  | inr f ↦ try_free i e f
]
