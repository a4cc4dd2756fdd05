-- ===== src/Tests/Logs.antt =====
-- Patterns, loggers and the manager of atpdxy/log.cpp.
use atpdxy.Log.Define.{LogDefine, on_change, on_change-IsManaged}
use mathlib.Core.Option.{some-injective}
use atpdxy.Log.Manager.{Manager, IsManaged, IsListed, Got, find_logger, get_logger, get_logger_lem}
use atpdxy.Common.Result.{ok}
use atpdxy.Log.Event.{Event}
use atpdxy.Log.Store.{Kind, Appender, Store}
use atpdxy.Log.Logger.{new_logger, Env, log, append_all}
use atpdxy.Log.Logger.Formatters.{IsUsable, IsReady, adds, apply, apply-IsReady}
use atpdxy.Log.Logger.Delivery.{Same, log_lem}
use atpdxy.Common.{
  ℕ, zero, suc, subst, inl, inr, Bool-cases, ◌<◌, ◌≡◌, refl, true, false, none, some, List, [], ◌∷◌,
  ◌++◌, ◌==◌, if◌then◌else◌, arith, All,
}
use atpdxy.Common.Bytes.{Bytes, codes, bytes_eq, isalpha}
use atpdxy.Log.Level.{Level}
use atpdxy.Log.Pattern.{start, tokenize, parse}
use atpdxy.Log.Pattern.Progress.{tokenize-parse}
use atpdxy.Log.Pattern.RoundTrip.{Piece, print, plain, bare, with_fmt, IsTemplate}
use atpdxy.Log.Pattern.Trailing.{percent}
use atpdxy.Log.Formatter.{Formatter, Item, new_formatter, find_item}
use atpdxy.Log.Formatter.Templates.{Reads, done, text, bare_item, fmt_item, new_formatter-print}
use atpdxy.Log.Formatter.Errors.{error-percent}

abbrev dated : List Piece
dated =
    with_fmt (codes "d") (codes "%H:%M")
    ∷ plain (codes " [")
    ∷ bare (codes "p")
    ∷ plain (codes "] ")
    ∷ bare (codes "m")
    ∷ []

abbrev dated_items : List Item
dated_items =
    Item.date_time (codes "%H:%M")
    ∷ Item.string (codes " [")
    ∷ Item.level
    ∷ Item.string (codes "] ")
    ∷ Item.message
    ∷ []

dated-Reads : Reads dated dated_items
unfolding find_item bytes_eq
dated-Reads = fmt_item (codes "d") (codes "%H:%M") refl (
    text (codes " [")
      (bare_item (codes "p") refl (text (codes "] ") (bare_item (codes "m") refl done))))

dated-IsTemplate : IsTemplate dated
unfolding isalpha
dated-IsTemplate = (
  (refl, tt),
  (refl, (refl, (refl, (refl, (refl, tt))))),
  (
    (λ e. cc),
    (refl, (refl, tt)),
    tt,
    (
      (λ e. cc),
      (refl, tt),
      refl,
      ((λ e. cc), (refl, (refl, tt)), tt, ((λ e. cc), (refl, tt), tt, tt)),
    ),
  ),
)

new_formatter-print_example :
    new_formatter (print dated)
    ≡ record { pattern = print dated; items = dated_items; error = false }
new_formatter-print_example = new_formatter-print dated dated-IsTemplate dated-Reads

tokenize-parse_example : tokenize 9 start (codes "%d{a}%m") ≡ some (parse start (codes "%d{a}%m"))
tokenize-parse_example = tokenize-parse 9 start (codes "%d{a}%m") (omega arith)

error-percent_example : (new_formatter (codes "%m%" ++ percent)).error ≡ true
error-percent_example = error-percent (codes "%m%")

abbrev plain_formatter : Formatter
plain_formatter = record { pattern = codes "%m"; items = Item.message ∷ []; error = false }

abbrev console : Appender
console = record {
  kind = Kind.stdout;
  level = Level.debug;
  formatter = some plain_formatter;
  has_formatter = false;
}

abbrev attached : ℕ → List ℕ
attached zero = 0 ∷ []
attached (suc p) = []

-- The root logger with an appender, and a logger with none.
abbrev pub two_loggers : Store
two_loggers = record {
  loggers = λ p. record {
    name = codes "root";
    level = Level.debug;
    appenders = attached p;
    formatter = some plain_formatter;
    root = if p == 0 then none else some 0;
  };
  next_logger = 2;
  appenders = λ a. record console { formatter = if a == 0 then some plain_formatter else none };
  next_appender = 2;
  output = [];
}

two_loggers-IsUsable :
    (p : ℕ) → p < 2 → All (IsUsable two_loggers) (two_loggers.loggers p).appenders
two_loggers-IsUsable zero lt = ((omega arith, refl), tt)
two_loggers-IsUsable (suc p) lt = tt

pub two_loggers-IsReady : IsReady two_loggers
two_loggers-IsReady = record { has_formatter = λ p lt. refl; usable = two_loggers-IsUsable }

apply-IsReady_example : IsReady (apply (adds 1 1) two_loggers)
apply-IsReady_example =
    apply-IsReady (adds 1 1) two_loggers (omega arith, omega arith) two_loggers-IsReady

abbrev event : Event
event = record {
  file = codes "main.cpp";
  line = 3;
  elapse = 0;
  thread_id = 1;
  fiber_id = 0;
  time = 0;
  content = codes "hello";
  thread_name = codes "main";
  logger = 1;
  level = Level.info;
}

abbrev pub env : Env
env = record { now = 7; is_good = λ name. true }

log_lem_example :
    (s' : Store) × (log (λ fmt t. fmt) env 2 1 Level.info event two_loggers ≡ ok s')
    × (append_all (λ fmt t. fmt) env (0 ∷ []) Level.info event two_loggers ≡ ok s')
    × Same two_loggers s'
log_lem_example =
    log_lem (λ fmt t. fmt) env Level.info event two_loggers 1 0 two_loggers-IsReady (omega arith)
      (omega arith) refl refl

-- The manager with the two loggers.
abbrev pub manager : Manager
manager = record {
  loggers = (codes "net", 1) ∷ (codes "root", 0) ∷ [];
  root = 0;
  store = two_loggers;
}

manager-IsListed : (n : Bytes) (p : ℕ) → find_logger n manager.loggers ≡ some p → IsListed manager p
unfolding find_logger
manager-IsListed n p e = elim (Bool-cases (bytes_eq n (codes "net"))) [
  | inl x ↦ subst (IsListed manager) (some-injective _ _ (rw x at e)) (omega arith, inr refl)
  | inr x ↦ elim (Bool-cases (bytes_eq n (codes "root"))) [
    | inl y ↦ subst (IsListed manager) (some-injective _ _ (rw (x, y) at e)) (omega arith, inl refl)
    | inr y ↦ absurd (cc (rw (x, y) at e))
  ]
]

pub manager-IsManaged : IsManaged manager
manager-IsManaged = record {
  ready = two_loggers-IsReady;
  root_made = omega arith;
  listed = manager-IsListed;
}

get_logger_lem_example :
    Got (codes "system") manager (get_logger (codes "system") manager).0 2
    × (get_logger (codes "system") (get_logger (codes "system") manager).0
        ≡ get_logger (codes "system") manager)
unfolding get_logger find_logger bytes_eq new_logger
get_logger_lem_example = get_logger_lem (codes "system") manager manager-IsManaged

abbrev pub net_define : LogDefine
net_define = record {
  name = codes "net";
  level = Level.info;
  formatter = codes "%m";
  appenders = record { type = 2; level = Level.unknow; formatter = []; file = [] } ∷ [];
}

on_change-IsManaged_example : IsManaged (on_change [] (net_define ∷ []) manager)
on_change-IsManaged_example = on_change-IsManaged [] (net_define ∷ []) manager manager-IsManaged
