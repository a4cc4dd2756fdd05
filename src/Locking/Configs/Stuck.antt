-- ===== src/Locking/Configs/Stuck.antt =====
-- Listeners of atpdxy/config.h that use the variable by which they are called.
use atpdxy.Common.{ℕ, ◌<◌, ◌≡◌, refl, false, List, [], ◌∷◌, ◌++◌, ==_self}
use atpdxy.Mutex.Order.{Access, takes, gives, exclusive, shared, each, inside, Threads, holds}
use atpdxy.Mutex.Order.Stuck.{Runs, Runs-waits}
use atpdxy.Locking.{Lock, variable, same_lock}
use atpdxy.Locking.Loggers.{Acts}
use atpdxy.Locking.Configs.{writer_locks, set_value_locks}
use atpdxy.Log.Logger.{Env}
use atpdxy.Log.Manager.{Manager}
use atpdxy.Config.Var.{Types, Var, Listener}

module _ (env : Env) (m : Manager) (T : Types) (t : T.Ty) (listeners : ℕ → Acts) (v : ℕ)
    (x : T.Val t) (c : Var T t) where
  -- What is left of `setValue` behind the first listener's first call.
  set_value_locks-writer :
      (k : ℕ) (cb : Listener T t) (cbs : List (ℕ × Listener T t)) (more : Acts)
      → T.val_eq t x c.val ≡ false
      → c.cbs ≡ (k, cb) ∷ cbs
      → listeners k ≡ writer_locks env m T v ++ more
      → (rest : Acts) × (set_value_locks env m T t listeners v x c
          ≡ takes shared (variable v) ∷ takes exclusive (variable v) ∷ rest)
  unfolding set_value_locks writer_locks
  set_value_locks-writer k cb cbs more new first own = (
    (((gives (variable v) ∷ more) ++ each (λ e. listeners e.0) cbs) ++ gives (variable v) ∷ [])
        ++ inside exclusive (variable v) [],
    rw (new, first, own) refl,
  )

  -- A listener that first adds or deletes a listener of the variable that calls it, or clears
  -- them, never comes back. A thread that has made its first call on a mutex in `setValue`, with
  -- a value that differs from the variable's, and where the first listener is such a one, stays
  -- where it is, whatever the other threads do and start.
  pub own_listener_waits :
      (Starts : Acts → Type 0) (n i : ℕ) (k : ℕ) (cb : Listener T t) (cbs : List (ℕ × Listener T t))
      (more : Acts) (ks : List (Access × Lock)) {s u : Threads Lock}
      → i < n
      → T.val_eq t x c.val ≡ false
      → c.cbs ≡ (k, cb) ∷ cbs
      → listeners k ≡ writer_locks env m T v ++ more
      → takes shared (variable v) ∷ (s i).todo ≡ set_value_locks env m T t listeners v x c
      → (s i).held ≡ (shared, variable v) ∷ ks
      → Runs same_lock Starts n s u
      → u i ≡ s i
  unfolding holds same_lock
  own_listener_waits Starts n i k cb cbs more ks {s} {u} lt new first own made held r =
      let (rest, e) = set_value_locks-writer k cb cbs more new first own in
      let todo : (s i).todo ≡ takes exclusive (variable v) ∷ rest = cc in
      Runs-waits same_lock Starts n i lt (variable v) rest r todo (rw (held, ==_self v))
