-- ===== src/Mutex/Guards.antt =====
-- The guards of atpdxy/mutex.h from their construction to their destruction.
use atpdxy.Common.{ℕ, zero, suc, ◌≡◌, refl, ap, Bool, true, false, List, [], ◌∷◌, ◌++◌}
use atpdxy.Mutex.{
  Mode, scoped, read, write, Call, unlock, acquire, Guard, new_guard, lock_guard, unlock_guard,
  destroy_guard,
}

-- What may be called on a guard while it lives.
pub data Use : Type 0 where
  locks unlocks : Use

abbrev pub use_guard : Use → Guard → Guard × List Call
unfolding lock_guard unlock_guard
use_guard locks g = lock_guard g
use_guard unlocks g = unlock_guard g

-- The calls on the mutex from here on, with those of the destructor.
unfoldable pub rest : List Use → Guard → List Call
unfolding use_guard destroy_guard
rest [] g = destroy_guard g
rest (u ∷ us) g = (use_guard u g).1 ++ rest us (use_guard u g).0

-- The calls on the mutex in the life of a guard.
unfoldable pub life : Mode → List Use → List Call
unfolding new_guard rest
life m us = (new_guard m).1 ++ rest us (new_guard m).0

-- Critical sections one after the other: the mutex is taken, and then released.
abbrev pub sections : ℕ → Mode → List Call
sections zero m = []
sections (suc n) m = acquire m ∷ (unlock ∷ sections n m)

-- What is left when the guard holds the mutex, or does not.
abbrev sections_from : Bool → ℕ → Mode → List Call
sections_from true n m = unlock ∷ sections n m
sections_from false n m = sections n m

rest_lem :
    (us : List Use) (m : Mode) (b : Bool)
    → (n : ℕ) × (rest us (record { mode = m; is_locked = b }) ≡ sections_from b n m)
unfolding rest
rest_lem [] m true = (0, refl)
rest_lem [] m false = (0, refl)
rest_lem (locks ∷ us) m true = rest_lem us m true
rest_lem (locks ∷ us) m false = let (n, e) = rest_lem us m true in (suc n, ap (◌∷◌ (acquire m)) e)
rest_lem (unlocks ∷ us) m true = let (n, e) = rest_lem us m false in (n, ap (◌∷◌ unlock) e)
rest_lem (unlocks ∷ us) m false = rest_lem us m false

-- Whatever is called on a guard while it lives, the calls that it makes on its mutex from its
-- construction to its destruction are critical sections one after the other, at least one: each
-- takes the mutex in the guard's way, and then unlocks it.
pub life_lem : (m : Mode) (us : List Use) → (n : ℕ) × (life m us ≡ sections (suc n) m)
unfolding life
life_lem m us = let (n, e) = rest_lem us m true in (n, ap (◌∷◌ (acquire m)) e)

-- ScopedLockImpl, ReadLockImpl and WriteLockImpl, by what they call while they live.
abbrev pub scoped_lock : List Use → List Call
scoped_lock us = life scoped us

abbrev pub read_lock : List Use → List Call
read_lock us = life read us

abbrev pub write_lock : List Use → List Call
write_lock us = life write us
