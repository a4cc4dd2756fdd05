-- ===== src/Mutex/Classes.antt =====
-- atpdxy/mutex.h: the classes that a guard can be of. An operation is the calls of pthread that it
-- makes; `none` is a function that a class does not have.
use atpdxy.Common.{
  ℕ, zero, suc, ◌≡◌, refl, ap, sym, ◌∙◌, Option, none, some, List, [], ◌∷◌, ◌++◌, append_assoc,
}
use atpdxy.Mutex.{Mode, Call, lock, rdlock, wrlock, unlock, acquire}
use atpdxy.Mutex.Guards.{Use, life, sections, life_lem}

pub data PthreadCall : Type 0 where
  mutex_init mutex_destroy mutex_lock mutex_unlock : PthreadCall
  rwlock_init rwlock_destroy rwlock_rdlock rwlock_wrlock rwlock_unlock : PthreadCall
  spin_init spin_destroy spin_lock spin_unlock : PthreadCall

-- The constructor, the destructor, and the calls that guards make.
pub data Op : Type 0 where
  constructs destroys : Op
  does : Call → Op

pub mutex : Op → Option (List PthreadCall)
mutex constructs = some (mutex_init ∷ [])
mutex destroys = some (mutex_destroy ∷ [])
mutex (does lock) = some (mutex_lock ∷ [])
mutex (does unlock) = some (mutex_unlock ∷ [])
mutex (does _) = none

pub null_mutex : Op → Option (List PthreadCall)
null_mutex (does rdlock) = none
null_mutex (does wrlock) = none
null_mutex _ = some []

unfoldable pub rwmutex : Op → Option (List PthreadCall)
rwmutex constructs = some (rwlock_init ∷ [])
rwmutex destroys = some (rwlock_destroy ∷ [])
rwmutex (does lock) = none
rwmutex (does rdlock) = some (rwlock_rdlock ∷ [])
rwmutex (does wrlock) = some (rwlock_wrlock ∷ [])
rwmutex (does unlock) = some (rwlock_unlock ∷ [])

pub null_rwmutex : Op → Option (List PthreadCall)
null_rwmutex (does lock) = none
null_rwmutex _ = some []

pub spinlock : Op → Option (List PthreadCall)
spinlock constructs = some (spin_init ∷ [])
spinlock destroys = some (spin_destroy ∷ [])
spinlock (does lock) = some (spin_lock ∷ [])
spinlock (does unlock) = some (spin_unlock ∷ [])
spinlock (does _) = none

abbrev pub then_calls :
    Option (List PthreadCall) → Option (List PthreadCall) → Option (List PthreadCall)
then_calls none _ = none
then_calls (some a) none = none
then_calls (some a) (some b) = some (a ++ b)

-- The calls of pthread that the calls on a lock come to.
unfoldable pub calls_on : (Op → Option (List PthreadCall)) → List Call → Option (List PthreadCall)
calls_on class [] = some []
calls_on class (c ∷ cs) = then_calls (class (does c)) (calls_on class cs)

abbrev pub repeat : ℕ → List PthreadCall → List PthreadCall
repeat zero cs = []
repeat (suc n) cs = cs ++ repeat n cs

calls_on-sections :
    (class : Op → Option (List PthreadCall)) (m : Mode) (n : ℕ) {a b : List PthreadCall}
    → class (does (acquire m)) ≡ some a
    → class (does unlock) ≡ some b
    → calls_on class (sections n m) ≡ some (repeat n (a ++ b))
unfolding calls_on
calls_on-sections class m zero e f = refl
calls_on-sections class m (suc n) {a} {b} e f =
    rw (e, f, calls_on-sections class m n e f)
      (ap some (sym (append_assoc a b (repeat n (a ++ b)))))

-- Whatever is called on a guard while it lives, on a class that has the function by which the
-- guard takes its mutex, and `unlock`: the calls of pthread that come of it, from the
-- construction of the guard to its destruction, are those of taking and then those of `unlock`,
-- in turn and at least once.
pub calls_on-life :
    (class : Op → Option (List PthreadCall)) (m : Mode) (us : List Use) {a b : List PthreadCall}
    → class (does (acquire m)) ≡ some a
    → class (does unlock) ≡ some b
    → (n : ℕ) × (calls_on class (life m us) ≡ some (repeat (suc n) (a ++ b)))
calls_on-life class m us e f =
    let (n, g) = life_lem m us in (n, ap (calls_on class) g ∙ calls_on-sections class m (suc n) e f)

-- For a Mutex these are pthread_mutex_lock and pthread_mutex_unlock.
mutex_guarded :
    (us : List Use)
    → (n : ℕ) × (calls_on mutex (life Mode.scoped us)
        ≡ some (repeat (suc n) (mutex_lock ∷ (mutex_unlock ∷ []))))
unfolding mutex
mutex_guarded us = calls_on-life mutex Mode.scoped us refl refl
