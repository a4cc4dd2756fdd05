-- ===== src/Mutex/Order.antt =====
-- Threads that take several mutexes of atpdxy/mutex.h by guards, each inside the scope of the ones
-- before: the calls that an operation makes on mutexes, and the steps of threads that make them.
pub mod Nesting
pub mod Progress
pub mod Finish
pub mod Stuck
use atpdxy.Common.{
  ℕ, zero, suc, ◌<◌, ◌≡◌, Bool, true, false, List, [], ◌∷◌, ◌++◌, ◌==◌, if◌then◌else◌, All, ◌||◌,
}

-- A mutex is held alone, or by readers together.
pub data Access : Type 0 where
  exclusive shared : Access

-- A call on a mutex.
pub data Act (L : Type 0) : Type 0 where
  takes : Access → L → Act L
  gives : L → Act L

-- A guard that is constructed, with what is done in its scope, and destructed.
abbrev pub inside : {L : Type 0} → Access → L → List (Act L) → List (Act L)
inside m l acts = takes m l ∷ (acts ++ gives l ∷ [])

-- What is done for one element of a list after the other.
abbrev pub each {ℓ} : {A : Type ℓ} {L : Type 0} → (A → List (Act L)) → List A → List (Act L)
each f [] = []
each f (x ∷ xs) = f x ++ each f xs

-- What a thread has left to do of the operation that it is in, and the mutexes that it holds, the
-- last one first. A thread with nothing left is in no operation.
pub record Thread (L : Type 0) : Type 0 where
  pub todo : List (Act L)
  pub held : List (Access × L)

abbrev pub Threads : Type 0 → Type 0
Threads L = ℕ → Thread L

abbrev pub move : {L : Type 0} → ℕ → Thread L → Threads L → Threads L
move i t s = λ j. if i == j then t else s j

-- Each mutex is taken only while all that are held have lower ranks, the last one taken is the
-- first one given back, and none is held at the end.
abbrev pub Ordered : {L : Type 0} → (L → ℕ) → List (Access × L) → List (Act L) → Type 0
Ordered rank [] [] = Unit {0}
Ordered rank (k ∷ ks) [] = ⊥
Ordered rank ks (takes m l ∷ acts) =
    All (λ k. rank k.1 < rank l) ks × Ordered rank ((m, l) ∷ ks) acts
Ordered rank [] (gives l ∷ acts) = ⊥
Ordered rank (k ∷ ks) (gives l ∷ acts) = (k.1 ≡ l) × Ordered rank ks acts

abbrev pub idle : {L : Type 0} → Threads L
idle i = record { todo = []; held = [] }

-- Every thread is in no operation and holds nothing.
abbrev pub AllIdle : {L : Type 0} → ℕ → Threads L → Type 0
AllIdle n s = (i : ℕ) → i < n → ((s i).todo ≡ []) × ((s i).held ≡ [])

module _ {L : Type 0} (same : L → L → Bool) where
  unfoldable pub holds : L → List (Access × L) → Bool
  holds l [] = false
  holds l (k ∷ ks) = same k.1 l || holds l ks

  unfoldable pub owns : L → List (Access × L) → Bool
  owns l [] = false
  owns l ((exclusive, k) ∷ ks) = same k l || owns l ks
  owns l ((shared, k) ∷ ks) = owns l ks

  -- While a thread holds a mutex alone, no other thread holds it.
  abbrev pub Exclusive : ℕ → Threads L → Type 0
  Exclusive n s =
      (i j : ℕ) (l : L)
      → i < n
      → j < n
      → owns l (s i).held ≡ true
      → holds l (s j).held ≡ true
      → i ≡ j

  -- Whether a thread that holds these makes another one wait.
  unfoldable pub bars : Access → L → List (Access × L) → Bool
  bars exclusive l ks = holds l ks
  bars shared l ks = owns l ks

  -- A step of one of `n` threads: it takes a mutex that no thread bars from it, or gives one back.
  pub data Step (n : ℕ) (s : Threads L) : Threads L → Type 0 where
    step_takes :
        (i : ℕ) (m : Access) (l : L) (acts : List (Act L))
        → i < n
        → (s i).todo ≡ takes m l ∷ acts
        → ((j : ℕ) → j < n → bars m l (s j).held ≡ false)
        → Step n s (move i (record { todo = acts; held = (m, l) ∷ (s i).held }) s)
    step_gives :
        (i : ℕ) (m : Access) (l : L) (ks : List (Access × L)) (acts : List (Act L))
        → i < n
        → (s i).todo ≡ gives l ∷ acts
        → (s i).held ≡ (m, l) ∷ ks
        → Step n s (move i (record { todo = acts; held = ks }) s)

  -- Steps of the threads in their operations, and threads that start an operation.
  pub data Steps (n : ℕ) (s : Threads L) : Threads L → Type 0 where
    here : Steps n s s
    later : {t u : Threads L} → Steps n s t → Step n t u → Steps n s u

  pub data Reach (Starts : List (Act L) → Type 0) (n : ℕ) : Threads L → Type 0 where
    begin : Reach Starts n idle
    steps : {s t : Threads L} → Reach Starts n s → Step n s t → Reach Starts n t
    starts :
        {s : Threads L} (i : ℕ) (acts : List (Act L))
        → Reach Starts n s
        → i < n
        → (s i).todo ≡ []
        → Starts acts
        → Reach Starts n (move i (record { todo = acts; held = (s i).held }) s)
