-- ===== src/Log/Logger/Formatters.antt =====
-- The formatters of loggers and appenders under the operations of atpdxy/log.cpp on them.
use atpdxy.Common.{
  ℕ, ◌<◌, ◌≡◌, refl, ap, ◌∙◌, inl, inr, Bool, true, false, Option, some, List, [], ◌∷◌, arith, ◌==◌,
  if◌then◌else◌, Bool-cases, All, All-append,
}
use atpdxy.Common.Bytes.{Bytes}
use atpdxy.Log.Level.{Level}
use atpdxy.Log.Formatter.{Formatter, new_formatter}
use atpdxy.Log.Store.{put_logger, put_appender, Kind, stdout, file, Appender, Logger, Store}
use atpdxy.Log.Logger.{
  is_some, new_logger, new_appender, set_appender_formatter, set_appender_level, set_level,
  add_appender, erase_first, del_appender, clear_appenders, pass_formatter, pass_all, set_formatter,
  set_pattern,
}

-- The appender is made, and has a formatter.
abbrev pub IsUsable : Store → ℕ → Type 0
IsUsable s a = (a < s.next_appender) × (is_some (s.appenders a).formatter ≡ true)

-- Each logger that is made has a formatter, and each appender attached to it is usable.
pub record IsReady (s : Store) : Type 0 where
  pub has_formatter : (p : ℕ) → p < s.next_logger → is_some (s.loggers p).formatter ≡ true
  pub usable : (p : ℕ) → p < s.next_logger → All (IsUsable s) (s.loggers p).appenders

-- The operations, on formatters that are there.
pub data Operation : Type 0 where
  makes_logger : Bytes → Option ℕ → Operation
  makes_appender : Kind → Operation
  sets_appender_formatter : ℕ → Formatter → Operation
  sets_appender_level sets_level : ℕ → Level → Operation
  adds dels : ℕ → ℕ → Operation
  clears : ℕ → Operation
  sets_formatter : ℕ → Formatter → Operation
  sets_pattern : ℕ → Bytes → Operation

unfoldable pub apply : Operation → Store → Store
apply (makes_logger name root) s = (new_logger name root s).0
apply (makes_appender k) s = (new_appender k s).0
apply (sets_appender_formatter a f) s = set_appender_formatter a (some f) s
apply (sets_appender_level a l) s = set_appender_level a l s
apply (sets_level p l) s = set_level p l s
apply (adds p a) s = add_appender p a s
apply (dels p a) s = del_appender p a s
apply (clears p) s = clear_appenders p s
apply (sets_formatter p f) s = set_formatter p (some f) s
apply (sets_pattern p text) s = set_pattern p text s

-- What is attached is made before.
abbrev pub Exists : Operation → Store → Type 0
Exists (adds p a) s = (p < s.next_logger) × (a < s.next_appender)
Exists _ s = Unit

pub All-imp : {P Q : ℕ → Type 0} (xs : List ℕ) → ((x : ℕ) → P x → Q x) → All P xs → All Q xs
All-imp [] f h = tt
All-imp (x ∷ xs) f h = (f x h.0, All-imp xs f h.1)

-- The loggers are as they were, and what was usable still is.
record Improves (s s' : Store) : Type 0 where
  loggers_eq : s'.loggers ≡ s.loggers
  next_eq : s'.next_logger ≡ s.next_logger
  usable_still : (a : ℕ) → IsUsable s a → IsUsable s' a

Improves-trans : {s t u : Store} → Improves s t → Improves t u → Improves s u
Improves-trans x y = record {
  loggers_eq = y.loggers_eq ∙ x.loggers_eq;
  next_eq = y.next_eq ∙ x.next_eq;
  usable_still = λ a h. y.usable_still a (x.usable_still a h);
}

Improves-IsReady : {s s' : Store} → Improves s s' → IsReady s → IsReady s'
Improves-IsReady i h = record {
  has_formatter = λ p lt. rw (i.loggers_eq) (h.has_formatter p (rw (i.next_eq) at lt));
  usable = λ p lt. rw (i.loggers_eq) (All-imp _ i.usable_still (h.usable p (rw (i.next_eq) at lt)));
}

pass_all-Improves :
    (f : Formatter) (as' : List ℕ) (s : Store) → Improves s (pass_all (some f) as' s)
unfolding pass_all
pass_all-Improves f [] s = record { loggers_eq = refl; next_eq = refl; usable_still = λ a h. h }
pass_all-Improves f (a ∷ as') s =
    Improves-trans
      (record {
        loggers_eq = ground arith;
        next_eq = ground arith;
        usable_still = λ b h. ground arith;
      })
      (pass_all-Improves f as' (pass_formatter (some f) a s))

-- One logger is changed: its formatter and its appenders are still in order.
put_logger-IsReady :
    (p : ℕ) (l : Logger) (s : Store)
    → (p < s.next_logger → is_some l.formatter ≡ true)
    → (p < s.next_logger → All (IsUsable s) l.appenders)
    → IsReady s
    → IsReady (put_logger p l s)
put_logger-IsReady p l s hf hu h = record {
  has_formatter = λ q lt. ground (arith, hf, h.has_formatter q);
  usable = λ q lt. elim (Bool-cases (p == q)) [
    | inl e ↦ rw e (hu (ground (arith, lt)))
    | inr e ↦ rw e (h.usable q lt)
  ];
}

erase_first-All : (P : ℕ → Type 0) (a : ℕ) (xs : List ℕ) → All P xs → All P (erase_first a xs)
unfolding erase_first
erase_first-All P a [] h = tt
erase_first-All P a (x ∷ xs) h = elim (Bool-cases (x == a)) [
  | inl e ↦ rw e h.1
  | inr e ↦ rw e (h.0, erase_first-All P a xs h.1)
]

appender-Improves :
    (a : ℕ) (ap : Appender) (s : Store)
    → (IsUsable s a → is_some ap.formatter ≡ true)
    → Improves s (put_appender a ap s)
appender-Improves a ap s h = record {
  loggers_eq = refl;
  next_eq = refl;
  usable_still = λ b u. ground (arith, h);
}

pub add-IsReady :
    (p a : ℕ) (s : Store)
    → p < s.next_logger
    → a < s.next_appender
    → IsReady s
    → IsReady (add_appender p a s)
unfolding add_appender
add-IsReady p a s lp la h = elim (Bool-cases (is_some (s.appenders a).formatter)) [
  | inl e ↦ rw e (
      put_logger-IsReady p _ s (h.has_formatter p)
        (λ lt. All-append _ (s.loggers p).appenders (a ∷ []) (h.usable p lt) ((la, e), tt)) h)
  | inr e ↦
      let s' = put_appender a (record (s.appenders a) { formatter = (s.loggers p).formatter }) s in
      let h' : IsReady s' =
        Improves-IsReady (appender-Improves a _ s (λ u. h.has_formatter p lp)) h in
      rw e (
        put_logger-IsReady p _ s' (h'.has_formatter p)
          (λ lt.
            All-append _ (s.loggers p).appenders (a ∷ []) (h'.usable p lt)
              ((la, ground (arith, h.has_formatter p)), tt))
          h')
]

pub new_logger-IsReady :
    (name : Bytes) (root : Option ℕ) (s : Store) → IsReady s → IsReady (new_logger name root s).0
unfolding new_logger
new_logger-IsReady name root s h = record {
  has_formatter = λ q lt. ground (arith, h.has_formatter q);
  usable = λ q lt. elim (Bool-cases (s.next_logger == q)) [
    | inl e ↦ rw e tt
    | inr e ↦ rw e (h.usable q (ground arith))
  ];
}

new_appender-Improves : (k : Kind) (s : Store) → Improves s (new_appender k s).0
unfolding new_appender
new_appender-Improves stdout s = record {
  loggers_eq = refl;
  next_eq = refl;
  usable_still = λ b u. ground arith;
}
new_appender-Improves (file name last) s = record {
  loggers_eq = refl;
  next_eq = refl;
  usable_still = λ b u. ground arith;
}

set_formatter-IsReady :
    (p : ℕ) (f : Formatter) (s : Store) → IsReady s → IsReady (set_formatter p (some f) s)
unfolding set_formatter
set_formatter-IsReady p f s h =
    Improves-IsReady (pass_all-Improves f (s.loggers p).appenders _)
      (put_logger-IsReady p _ s (λ lt. refl) (h.usable p) h)

if-IsReady : (b : Bool) {s t : Store} → IsReady s → IsReady t → IsReady (if b then s else t)
if-IsReady true x y = x
if-IsReady false x y = y

set_pattern-IsReady :
    (p : ℕ) (text : Bytes) (s : Store) → IsReady s → IsReady (set_pattern p text s)
unfolding set_pattern
set_pattern-IsReady p text s h =
    if-IsReady (new_formatter text).error
      (record { has_formatter = h.has_formatter; usable = h.usable })
      (set_formatter-IsReady p (new_formatter text) s h)

-- Each operation on loggers and appenders keeps that every made logger has a formatter and every
-- appender attached to one is made and has a formatter, given that formatters that are set are
-- not null, and that an appender which is attached, and the logger it is attached to, are made
-- before.
pub apply-IsReady : (o : Operation) (s : Store) → Exists o s → IsReady s → IsReady (apply o s)
unfolding apply set_appender_formatter set_appender_level set_level del_appender clear_appenders
apply-IsReady (makes_logger name root) s ex h = new_logger-IsReady name root s h
apply-IsReady (makes_appender k) s ex h = Improves-IsReady (new_appender-Improves k s) h
apply-IsReady (sets_appender_formatter a f) s ex h =
    Improves-IsReady (appender-Improves a _ s (λ u. refl)) h
apply-IsReady (sets_appender_level a l) s ex h =
    Improves-IsReady (appender-Improves a _ s (λ u. u.1)) h
apply-IsReady (sets_level p l) s ex h = put_logger-IsReady p _ s (h.has_formatter p) (h.usable p) h
apply-IsReady (adds p a) s ex h = add-IsReady p a s ex.0 ex.1 h
apply-IsReady (dels p a) s ex h =
    put_logger-IsReady p _ s (h.has_formatter p)
      (λ lt. erase_first-All (IsUsable s) a (s.loggers p).appenders (h.usable p lt)) h
apply-IsReady (clears p) s ex h = put_logger-IsReady p _ s (h.has_formatter p) (λ lt. tt) h
apply-IsReady (sets_formatter p f) s ex h = set_formatter-IsReady p f s h
apply-IsReady (sets_pattern p text) s ex h = set_pattern-IsReady p text s h
