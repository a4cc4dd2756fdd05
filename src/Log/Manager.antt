-- ===== src/Log/Manager.antt =====
-- atpdxy/log.cpp, class LoggerManager, without the listener of the configured loggers.
use mathlib.Core.Option.{some-injective}
use atpdxy.Common.{
  ℕ, ◌<◌, ◌≡◌, refl, ◌∙◌, subst, ◌⊎◌, inl, inr, false, Option, none, some, List, [], ◌∷◌, arith,
  if◌then◌else◌, ◌++◌, ==_self, Bool-cases,
}
use atpdxy.Common.Bytes.{Bytes, codes, bytes_eq, bytes_eq_iff, bytes_eq_self, bytes_lt, is_empty}
use atpdxy.Log.Store.{Kind, Store}
use atpdxy.Log.Logger.{new_logger, new_appender, add_appender}
use atpdxy.Log.Logger.Formatters.{
  IsReady, new_logger-IsReady, add-IsReady, apply, apply-IsReady, makes_appender,
}

-- `m_loggers`, sorted by the name, and `m_root`, with the objects behind the pointers.
pub record Manager : Type 0 where
  pub loggers : List (Bytes × ℕ)
  pub root : ℕ
  pub store : Store

-- `m_loggers.find(name)`
unfoldable pub find_logger : Bytes → List (Bytes × ℕ) → Option ℕ
find_logger n [] = none
find_logger n ((k, p) ∷ ls) = if bytes_eq n k then some p else find_logger n ls

-- `m_loggers[name] = logger`
pub insert_logger : Bytes → ℕ → List (Bytes × ℕ) → List (Bytes × ℕ)
insert_logger n p [] = (n, p) ∷ []
insert_logger n p ((k, q) ∷ ls) =
    if bytes_eq n k
    then (n, p) ∷ ls
    else if bytes_lt n k
    then (n, p) ∷ ((k, q) ∷ ls)
    else (k, q) ∷ insert_logger n p ls

-- The constructor; `init`, which it calls, does nothing.
unfoldable pub new_manager : Store → Manager
unfolding insert_logger
new_manager s =
    let (made, root) = new_logger (codes "root") none s in
    let (with_appender, a) = new_appender Kind.stdout made in
    let attached = add_appender root a with_appender in
    record {
      loggers = insert_logger (attached.loggers root).name root [];
      root = root;
      store = attached;
    }

found_or_made : Bytes → Manager → Option ℕ → Manager × ℕ
unfolding insert_logger
found_or_made n m (some p) = (m, p)
found_or_made n m none =
    let (s, p) = new_logger n (some m.root) m.store in
    (record m { loggers = insert_logger n p m.loggers; store = s }, p)

-- `getLogger`.
unfoldable pub get_logger : Bytes → Manager → Manager × ℕ
unfolding find_logger found_or_made
get_logger n m = found_or_made n m (find_logger n m.loggers)

find_logger-insert_logger :
    (n j : Bytes) (p : ℕ) (ls : List (Bytes × ℕ))
    → find_logger j (insert_logger n p ls) ≡ (if bytes_eq j n then some p else find_logger j ls)
unfolding find_logger insert_logger
find_logger-insert_logger n j p [] = refl
find_logger-insert_logger n j p ((k, q) ∷ ls) = ground (
  arith,
  bytes_eq_iff n j,
  bytes_eq_iff j n,
  bytes_eq_iff n k,
  bytes_eq_iff j k,
  find_logger-insert_logger n j p ls,
)

-- The logger is made, and is the root logger or has it as its root.
abbrev pub IsListed : Manager → ℕ → Type 0
IsListed m p = (p < m.store.next_logger) × ((p ≡ m.root) ⊎ ((m.store.loggers p).root ≡ some m.root))

-- The loggers and appenders are ready, and the manager's loggers are listed.
pub record IsManaged (m : Manager) : Type 0 where
  pub ready : IsReady m.store
  pub root_made : m.root < m.store.next_logger
  pub listed : (n : Bytes) (p : ℕ) → find_logger n m.loggers ≡ some p → IsListed m p

abbrev made : Bytes → Manager → Manager
made n m = (found_or_made n m none).0

still-IsListed : (n : Bytes) (m : Manager) (q : ℕ) → IsListed m q → IsListed (made n m) q
unfolding found_or_made new_logger
still-IsListed n m q (lt, inl e) = (omega (arith, lt), inl e)
still-IsListed n m q (lt, inr e) = (omega (arith, lt), inr (ground (arith, lt, e)))

made-IsListed : (n : Bytes) (m : Manager) → IsListed (made n m) m.store.next_logger
unfolding found_or_made new_logger
made-IsListed n m = (omega arith, inr (ground arith))

find_logger-made :
    (n j : Bytes) (m : Manager)
    → find_logger j (made n m).loggers
      ≡ (if bytes_eq j n then some m.store.next_logger else find_logger j m.loggers)
unfolding found_or_made new_logger
find_logger-made n j m = find_logger-insert_logger n j m.store.next_logger m.loggers

at-IsListed :
    (n j : Bytes) (m : Manager) (p : ℕ)
    → IsManaged m
    → (if bytes_eq j n then some m.store.next_logger else find_logger j m.loggers) ≡ some p
    → IsListed (made n m) p
at-IsListed n j m p h e = elim (Bool-cases (bytes_eq j n)) [
  | inl x ↦ subst (IsListed (made n m)) (some-injective _ _ (rw x at e)) (made-IsListed n m)
  | inr x ↦ still-IsListed n m p (h.listed j p (rw x at e))
]

made-IsManaged : (n : Bytes) (m : Manager) → IsManaged m → IsManaged (made n m)
unfolding found_or_made new_logger
made-IsManaged n m h = record {
  ready = new_logger-IsReady n (some m.root) m.store h.ready;
  root_made = omega (arith, h.root_made);
  listed = λ j p e. at-IsListed n j m p h (rw⁻¹ (find_logger-made n j m) e);
}

-- How the manager is after a logger was got from it.
pub record Got (n : Bytes) (m m' : Manager) (p : ℕ) : Type 0 where
  pub managed : IsManaged m'
  pub is_listed : IsListed m' p
  pub found : find_logger n m'.loggers ≡ some p
  pub others :
      (j : Bytes) → bytes_eq j n ≡ false → find_logger j m'.loggers ≡ find_logger j m.loggers

found_or_made-Got :
    (n : Bytes) (m : Manager) (o : Option ℕ)
    → IsManaged m
    → find_logger n m.loggers ≡ o
    → Got n m (found_or_made n m o).0 (found_or_made n m o).1
unfolding found_or_made new_logger
found_or_made-Got n m (some p) h e = record {
  managed = h;
  is_listed = h.listed n p e;
  found = e;
  others = λ j x. refl;
}
found_or_made-Got n m none h e = record {
  managed = made-IsManaged n m h;
  is_listed = made-IsListed n m;
  found = find_logger-made n n m ∙ rw (bytes_eq_self n);
  others = λ j x. find_logger-made n j m ∙ rw x;
}

-- On a manager whose loggers and appenders are ready, whose root logger is made, and each of
-- whose loggers is made and is the root logger or has it as its root, getLogger gives a logger
-- that is such a one too, found under its name afterwards, leaves the manager such a one, leads
-- no other name elsewhere than before, and, when called again with the name, gives the same
-- logger and changes nothing.
pub get_logger_lem :
    (n : Bytes) (m : Manager)
    → IsManaged m
    → Got n m (get_logger n m).0 (get_logger n m).1
      × (get_logger n (get_logger n m).0 ≡ get_logger n m)
unfolding get_logger
get_logger_lem n m h =
    let got = found_or_made-Got n m (find_logger n m.loggers) h refl in (got, rw got.found)

root_only :
    (p : ℕ) (name n : Bytes) (q : ℕ) → find_logger n (insert_logger name p []) ≡ some q → q ≡ p
unfolding find_logger insert_logger
root_only p name n q e = ground arith

new_manager-IsReady : (s : Store) → IsReady s → IsReady (new_manager s).store
unfolding new_manager new_logger new_appender apply
new_manager-IsReady s h =
    let made_root = new_logger-IsReady (codes "root") none s h in
    let with_appender =
      apply-IsReady (makes_appender Kind.stdout) (new_logger (codes "root") none s).0 tt
        made_root in
    add-IsReady s.next_logger s.next_appender _ (omega arith) (omega arith) with_appender

next_logger-add_appender : (p a : ℕ) (s : Store) → (add_appender p a s).next_logger ≡ s.next_logger
unfolding add_appender
next_logger-add_appender p a s = ground arith

is_empty_append : (xs : List ℕ) (a : ℕ) → is_empty (xs ++ a ∷ []) ≡ false
is_empty_append [] a = refl
is_empty_append (x ∷ xs) a = refl

filled_after_add :
    (p a : ℕ) (s : Store) → is_empty ((add_appender p a s).loggers p).appenders ≡ false
unfolding add_appender
filled_after_add p a s = rw (==_self p) (is_empty_append (s.loggers p).appenders a)

root_made_new : (s : Store) → s.next_logger < (new_manager s).store.next_logger
unfolding new_manager
root_made_new s =
    let (made_root, r) = new_logger (codes "root") none s in
    let (with_appender, a) = new_appender Kind.stdout made_root in
    rw (next_logger-add_appender r a with_appender) (unfold new_logger new_appender in omega arith)

-- On loggers and appenders that are ready, the constructor makes a manager that is as getLogger
-- needs it: the loggers and appenders are ready, the root logger is made, and each logger of the
-- map is made and is the root logger or has it as its root; and the root logger has an appender.
pub new_manager-IsManaged :
    (s : Store)
    → IsReady s
    → IsManaged (new_manager s)
      × (is_empty ((new_manager s).store.loggers (new_manager s).root).appenders ≡ false)
unfolding new_manager new_logger
new_manager-IsManaged s h = (
  record {
    ready = new_manager-IsReady s h;
    root_made = root_made_new s;
    listed = λ n p e.
        let same : p ≡ s.next_logger = root_only s.next_logger _ n p e in
        (rw same (root_made_new s), inl same);
  },
  filled_after_add s.next_logger _ _,
)
