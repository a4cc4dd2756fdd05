-- ===== src/Log/Logger/Keeps.antt =====
-- The operations of atpdxy/log.cpp on loggers and appenders, those that make no logger, as steps on
-- the store: what they keep.
use atpdxy.Common.{
  ℕ, ◌<◌, ◌≤◌, ◌≡◌, refl, ◌∙◌, Bool, true, false, Option, some, List, [], ◌∷◌, arith, if◌then◌else◌,
}
use atpdxy.Common.Bytes.{Bytes}
use atpdxy.Log.Level.{Level}
use atpdxy.Log.Formatter.{Formatter, new_formatter}
use atpdxy.Log.Store.{Kind, stdout, file, Output, emit, Store}
use atpdxy.Log.Logger.{
  new_appender, set_appender_formatter, set_appender_level, set_level, add_appender,
  clear_appenders, pass_formatter, pass_all, set_formatter, set_pattern,
}
use atpdxy.Log.Logger.Formatters.{
  IsReady, apply, apply-IsReady, makes_appender, sets_appender_formatter, sets_appender_level,
  sets_level, adds, clears, sets_formatter,
}

-- A ready store stays ready, the same loggers are made, with the same roots, and no fewer appenders.
pub record Keeps (s s' : Store) : Type 0 where
  pub ready : IsReady s → IsReady s'
  pub next_eq : s'.next_logger ≡ s.next_logger
  pub root_eq : (p : ℕ) → (s'.loggers p).root ≡ (s.loggers p).root
  pub appenders_le : s.next_appender ≤ s'.next_appender

pub Keeps-refl : (s : Store) → Keeps s s
Keeps-refl s = record {
  ready = λ h. h;
  next_eq = refl;
  root_eq = λ p. refl;
  appenders_le = omega arith;
}

pub Keeps-trans : {s t u : Store} → Keeps s t → Keeps t u → Keeps s u
Keeps-trans x y = record {
  ready = λ h. y.ready (x.ready h);
  next_eq = y.next_eq ∙ x.next_eq;
  root_eq = λ p. y.root_eq p ∙ x.root_eq p;
  appenders_le = omega (arith, x.appenders_le, y.appenders_le);
}

pub Keeps-if : (b : Bool) {s t u : Store} → Keeps s t → Keeps s u → Keeps s (if b then t else u)
Keeps-if true x y = x
Keeps-if false x y = y

pub emit-Keeps : (o : Output) (s : Store) → Keeps s (emit o s)
emit-Keeps o s = record {
  ready = λ h. record { has_formatter = h.has_formatter; usable = h.usable };
  next_eq = refl;
  root_eq = λ p. refl;
  appenders_le = omega arith;
}

pub new_appender-Keeps : (k : Kind) (s : Store) → Keeps s (new_appender k s).0
unfolding new_appender apply
new_appender-Keeps stdout s = record {
  ready = λ h. apply-IsReady (makes_appender stdout) s tt h;
  next_eq = refl;
  root_eq = λ p. refl;
  appenders_le = omega arith;
}
new_appender-Keeps (file name last) s = record {
  ready = λ h. apply-IsReady (makes_appender (file name last)) s tt h;
  next_eq = refl;
  root_eq = λ p. refl;
  appenders_le = omega arith;
}

-- The new appender is made.
pub new_appender_made :
    (k : Kind) (s : Store) → (new_appender k s).1 < (new_appender k s).0.next_appender
unfolding new_appender
new_appender_made stdout s = omega arith
new_appender_made (file name last) s = omega arith

pub set_appender_level-Keeps : (a : ℕ) (l : Level) (s : Store) → Keeps s (set_appender_level a l s)
unfolding set_appender_level apply
set_appender_level-Keeps a l s = record {
  ready = λ h. apply-IsReady (sets_appender_level a l) s tt h;
  next_eq = refl;
  root_eq = λ p. refl;
  appenders_le = omega arith;
}

pub set_appender_formatter-Keeps :
    (a : ℕ) (f : Formatter) (s : Store) → Keeps s (set_appender_formatter a (some f) s)
unfolding set_appender_formatter apply
set_appender_formatter-Keeps a f s = record {
  ready = λ h. apply-IsReady (sets_appender_formatter a f) s tt h;
  next_eq = refl;
  root_eq = λ p. refl;
  appenders_le = omega arith;
}

pub set_level-Keeps : (p : ℕ) (l : Level) (s : Store) → Keeps s (set_level p l s)
unfolding set_level apply
set_level-Keeps p l s = record {
  ready = λ h. apply-IsReady (sets_level p l) s tt h;
  next_eq = refl;
  root_eq = λ q. ground arith;
  appenders_le = omega arith;
}

pub clear_appenders-Keeps : (p : ℕ) (s : Store) → Keeps s (clear_appenders p s)
unfolding clear_appenders apply
clear_appenders-Keeps p s = record {
  ready = λ h. apply-IsReady (clears p) s tt h;
  next_eq = refl;
  root_eq = λ q. ground arith;
  appenders_le = omega arith;
}

pub add_appender-Keeps :
    (p a : ℕ) (s : Store) → p < s.next_logger → a < s.next_appender → Keeps s (add_appender p a s)
unfolding add_appender apply
add_appender-Keeps p a s lp la = record {
  ready = λ h. apply-IsReady (adds p a) s (lp, la) h;
  next_eq = ground arith;
  root_eq = λ q. ground arith;
  appenders_le = ground arith;
}

-- What handing on a formatter does not touch.
pass_all_rest :
    (f : Option Formatter) (as' : List ℕ) (s : Store)
    → ((pass_all f as' s).loggers ≡ s.loggers)
      × ((pass_all f as' s).next_logger ≡ s.next_logger)
      × ((pass_all f as' s).next_appender ≡ s.next_appender)
unfolding pass_all
pass_all_rest f [] s = (refl, refl, refl)
pass_all_rest f (a ∷ as') s =
    let (x, y, z) = pass_all_rest f as' (pass_formatter f a s) in
    (x ∙ ground arith, y ∙ ground arith, z ∙ ground arith)

set_formatter_rest :
    (p : ℕ) (f : Formatter) (s : Store)
    → ((set_formatter p (some f) s).next_logger ≡ s.next_logger)
      × ((q : ℕ) → ((set_formatter p (some f) s).loggers q).root ≡ (s.loggers q).root)
      × ((set_formatter p (some f) s).next_appender ≡ s.next_appender)
unfolding set_formatter
set_formatter_rest p f s =
    let (x, y, z) = pass_all_rest (some f) (s.loggers p).appenders _ in
    (y, (λ q. rw x (ground arith)), z)

pub set_pattern-Keeps : (p : ℕ) (text : Bytes) (s : Store) → Keeps s (set_pattern p text s)
unfolding set_pattern apply
set_pattern-Keeps p text s =
    let (x, y, z) = set_formatter_rest p (new_formatter text) s in
    Keeps-if (new_formatter text).error (emit-Keeps _ s) (record {
      ready = λ h. apply-IsReady (sets_formatter p (new_formatter text)) s tt h;
      next_eq = x;
      root_eq = y;
      appenders_le = omega (arith, z);
    })
