-- ===== src/Mutex/Semaphore.antt =====
-- Semaphore of atpdxy/mutex.h and atpdxy/mutex.cpp, on the semaphores of POSIX, which are a
-- parameter.
use atpdxy.Common.{
  ℕ, suc, ◌+◌, ◌<◌, ◌≡◌, refl, ap, Bool, false, Option, none, some, List, [], ◌∷◌, arith, ◌∙◌,
}
use atpdxy.Common.Result.{Result, ok, fail, logic_error}

-- What a call that may block comes to: it blocks, fails, or returns.
pub data Waited (A : Type 0) : Type 0 where
  blocks failed : Waited A
  passed : A → Waited A

-- The semaphores of the system. A call returns nothing where it fails. `count` is the value, and
-- the flag of `sem_wait` says whether a signal handler interrupts the call.
pub record Sem : Type 1 where
  pub State : Type 0
  pub count : State → ℕ
  pub sem_init : ℕ → Option State
  pub sem_wait : Bool → State → Waited State
  pub sem_post : State → Option State
  pub init_count : (n : ℕ) (s : State) → sem_init n ≡ some s → count s ≡ n
  pub wait_count : (i : Bool) (s t : State) → sem_wait i s ≡ passed t → count s ≡ suc (count t)
  pub wait_passes : (s : State) → 0 < count s → (t : State) × (sem_wait false s ≡ passed t)
  pub post_count : (s t : State) → sem_post s ≡ some t → count t ≡ suc (count s)

module _ (sem : Sem) where
  open sem use {State, count, sem_init, sem_wait, sem_post}

  pub made : Option State → Result State
  made none = fail logic_error
  made (some s) = ok s

  -- The constructor.
  unfoldable pub new_semaphore : ℕ → Result State
  unfolding made
  new_semaphore n = made (sem_init n)

  waited : Waited State → Waited (Result State)
  waited blocks = blocks
  waited failed = passed (fail logic_error)
  waited (passed s) = passed (ok s)

  -- `wait`; a failure is thrown, also where the call was interrupted.
  pub wait : Bool → State → Waited (Result State)
  unfolding waited
  wait i s = waited (sem_wait i s)

  -- `notify`
  pub notify : State → Result State
  unfolding made
  notify s = made (sem_post s)

-- A call on a semaphore, by any thread; one that blocks is not over, and is left out of the counts.
pub data Use : Type 0 where
  waits : Bool → Use
  notifies : Use

-- The semaphore, and how many calls of `wait` and of `notify` have returned.
pub record Counted (S : Type 0) : Type 0 where
  pub state : S
  pub waits_done : ℕ
  pub posts_done : ℕ

module _ (sem : Sem) where
  open sem use {State, count, sem_wait}

  after_wait : Counted State → Waited (Result State) → Counted State
  after_wait c (passed (ok t)) = record c { state = t; waits_done = suc c.waits_done }
  after_wait c (passed (fail e)) = c
  after_wait c _ = c

  after_notify : Counted State → Result State → Counted State
  after_notify c (fail e) = c
  after_notify c (ok t) = record c { state = t; posts_done = suc c.posts_done }

  use_semaphore : Use → Counted State → Counted State
  unfolding after_wait after_notify
  use_semaphore (waits i) c = after_wait c (wait sem i c.state)
  use_semaphore notifies c = after_notify c (notify sem c.state)

  pub uses : List Use → Counted State → Counted State
  unfolding use_semaphore
  uses [] c = c
  uses (u ∷ us) c = uses us (use_semaphore u c)

  -- What is left and what was taken are what was there and what came.
  abbrev Balanced : ℕ → Counted State → Type 0
  Balanced n c = count c.state + c.waits_done ≡ n + c.posts_done

  waits-Balanced :
      (n : ℕ) (i : Bool) (c : Counted State) (r : Waited State)
      → sem_wait i c.state ≡ r
      → Balanced n c
      → Balanced n (after_wait c (waited sem r))
  unfolding after_wait waited
  waits-Balanced n i c blocks e h = h
  waits-Balanced n i c failed e h = h
  waits-Balanced n i c (passed t) e h = omega (arith, sem.wait_count i c.state t e)

  notifies-Balanced :
      (n : ℕ) (c : Counted State) (r : Option State)
      → sem.sem_post c.state ≡ r
      → Balanced n c
      → Balanced n (after_notify c (made sem r))
  unfolding after_notify made
  notifies-Balanced n c none e h = h
  notifies-Balanced n c (some t) e h = omega (arith, sem.post_count c.state t e)

  uses-Balanced :
      (n : ℕ) (us : List Use) (c : Counted State) → Balanced n c → Balanced n (uses us c)
  unfolding uses wait notify
  uses-Balanced n [] c h = h
  uses-Balanced n (waits i ∷ us) c h =
      uses-Balanced n us _ (waits-Balanced n i c (sem_wait i c.state) refl h)
  uses-Balanced n (notifies ∷ us) c h =
      uses-Balanced n us _ (notifies-Balanced n c (sem.sem_post c.state) refl h)

  abbrev pub fresh : State → Counted State
  fresh s = record { state = s; waits_done = 0; posts_done = 0 }

  made-eq : (n : ℕ) (o : Option State) (s : State) → made sem o ≡ ok s → o ≡ some s
  unfolding made
  made-eq n none s e = cc
  made-eq n (some t) s e = cc

  -- On a semaphore made with a count, whatever `wait`, interrupted or not, and `notify` were
  -- called on it, by any threads and in any order: the value of the semaphore and the calls of
  -- `wait` that have returned are together the count and the calls of `notify` that have
  -- returned; calls that throw do not count. While fewer calls of `wait` have returned, the next
  -- one that is not interrupted returns, without an exception.
  pub uses_balanced :
      (n : ℕ) (s : State) (us : List Use)
      → new_semaphore sem n ≡ ok s
      → (count (uses us (fresh s)).state + (uses us (fresh s)).waits_done
          ≡ n + (uses us (fresh s)).posts_done)
        × ((uses us (fresh s)).waits_done < n + (uses us (fresh s)).posts_done
            → (t : State) × (wait sem false (uses us (fresh s)).state ≡ passed (ok t)))
  unfolding new_semaphore wait
  uses_balanced n s us e =
      let c = uses us (fresh s) in
      let b : Balanced n c =
        uses-Balanced n us (fresh s)
          (omega (arith, sem.init_count n s (made-eq n (sem.sem_init n) s e))) in
      (
        b,
        λ lt.
            let (t, p) = sem.wait_passes c.state (omega (arith, b)) in
            (t, ap (waited sem) p ∙ unfold waited in refl),
      )
