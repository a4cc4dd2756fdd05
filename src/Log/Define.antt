-- ===== src/Log/Define.antt =====
-- atpdxy/log.cpp: LogDefine, LogAppenderDefine, and the listener of LogIniter, which brings the
-- loggers in line with a changed configuration. A set of definitions is the list of its elements.
use atpdxy.Common.{
  ℕ, ◌<◌, Bool, true, false, not, ◌&&◌, Option, none, some, List, [], ◌∷◌, ◌++◌, arith, ◌==◌,
  if◌then◌else◌,
}
use atpdxy.Common.Bytes.{Bytes, codes, bytes_eq, is_empty, print_unsigned}
use atpdxy.Log.Level.{Level, rank}
use atpdxy.Log.Formatter.{new_formatter}
use atpdxy.Log.Store.{stdout, file, Store, print, emit}
use atpdxy.Log.Logger.{
  set_level, set_pattern, clear_appenders, new_appender, set_appender_level, set_appender_formatter,
  add_appender,
}
use atpdxy.Log.Logger.Keeps.{
  Keeps, Keeps-refl, Keeps-trans, Keeps-if, emit-Keeps, new_appender-Keeps, new_appender_made,
  set_appender_level-Keeps, set_appender_formatter-Keeps, set_level-Keeps, clear_appenders-Keeps,
  add_appender-Keeps, set_pattern-Keeps,
}
use atpdxy.Log.Manager.{Manager, IsManaged, get_logger, get_logger_lem}

pub record LogAppenderDefine : Type 0 where
  pub type : ℕ
  pub level : Level
  pub formatter : Bytes
  pub file : Bytes

pub record LogDefine : Type 0 where
  pub name : Bytes
  pub level : Level
  pub formatter : Bytes
  pub appenders : List LogAppenderDefine

-- The two `operator==`.
pub appender_eq : LogAppenderDefine → LogAppenderDefine → Bool
appender_eq a b =
    (a.type == b.type)
    && ((rank a.level == rank b.level)
        && (bytes_eq a.formatter b.formatter && bytes_eq a.file b.file))

pub appenders_eq : List LogAppenderDefine → List LogAppenderDefine → Bool
unfolding appender_eq
appenders_eq [] [] = true
appenders_eq (a ∷ as') (b ∷ bs) = appender_eq a b && appenders_eq as' bs
appenders_eq _ _ = false

pub define_eq : LogDefine → LogDefine → Bool
unfolding appenders_eq
define_eq a b =
    bytes_eq a.name b.name
    && ((rank a.level == rank b.level)
        && (bytes_eq a.formatter b.formatter && appenders_eq a.appenders b.appenders))

-- `find` of a set of definitions, which is ordered by the names.
pub find_define : Bytes → List LogDefine → Option LogDefine
find_define n [] = none
find_define n (d ∷ ds) = if bytes_eq n d.name then some d else find_define n ds

abbrev pub is_same : LogDefine → Option LogDefine → Bool
is_same d none = false
is_same d (some o) = define_eq d o

-- The report on a formatter of an appender that is in error.
invalid : Bytes → LogAppenderDefine → Store → Store
invalid name a s =
    emit
      (print (
        codes "log.name="
        ++ (name
            ++ (codes " appender type="
                ++ (print_unsigned a.type
                    ++ (codes " formatter=" ++ (a.formatter ++ codes " is invalid\n")))))))
      s

-- `setFormatter` on a new appender, if its definition has a formatter.
pub give_formatter : Bytes → ℕ → LogAppenderDefine → Store → Store
unfolding invalid
give_formatter name p a s =
    let f = new_formatter a.formatter in
    if is_empty a.formatter
    then s
    else if not f.error
    then set_appender_formatter p (some f) s
    else invalid name a s

-- One appender of a definition is made and attached.
pub attach : Bytes → ℕ → LogAppenderDefine → Store → Store
unfolding give_formatter
attach name l a s =
    let (made, p) = new_appender (if a.type == 1 then file a.file 0 else stdout) s in
    add_appender l p (give_formatter name p a (set_appender_level p a.level made))

attach_all : Bytes → ℕ → List LogAppenderDefine → Store → Store
unfolding attach
attach_all name l [] s = s
attach_all name l (a ∷ as') s = attach_all name l as' (attach name l a s)

-- The logger of a definition that is new or has changed.
pub configure : LogDefine → Manager → Manager
unfolding attach_all
configure d m =
    let (m', l) = get_logger d.name m in
    let leveled = set_level l d.level m'.store in
    let formed =
      if not (is_empty d.formatter) then set_pattern l d.formatter leveled else leveled in
    record m' { store = attach_all d.name l d.appenders (clear_appenders l formed) }

-- The loop over the new definitions.
pub configure_all : List LogDefine → List LogDefine → Manager → Manager
unfolding configure
configure_all old [] m = m
configure_all old (d ∷ ds) m =
    configure_all old ds (if is_same d (find_define d.name old) then m else configure d m)

abbrev pub is_none {ℓ} : {A : Type ℓ} → Option A → Bool
is_none none = true
is_none (some a) = false

-- The logger of a definition that is gone.
pub disable : LogDefine → Manager → Manager
disable d m =
    let (m', l) = get_logger d.name m in
    record m' { store = clear_appenders l (set_level l Level.unknow m'.store) }

-- The loop over the old definitions.
pub disable_all : List LogDefine → List LogDefine → Manager → Manager
unfolding disable
disable_all new [] m = m
disable_all new (d ∷ ds) m =
    disable_all new ds (if is_none (find_define d.name new) then disable d m else m)

-- The listener.
unfoldable pub on_change : List LogDefine → List LogDefine → Manager → Manager
unfolding configure_all disable_all
on_change old new m = disable_all new old (configure_all old new m)

give_formatter-Keeps :
    (name : Bytes) (p : ℕ) (a : LogAppenderDefine) (s : Store) → Keeps s (give_formatter name p a s)
unfolding give_formatter
give_formatter-Keeps name p a s = Keeps-if (is_empty a.formatter) (Keeps-refl s) (
    Keeps-if (not (new_formatter a.formatter).error)
      (set_appender_formatter-Keeps p (new_formatter a.formatter) s) (emit-Keeps _ s))

attach-Keeps :
    (name : Bytes) (l : ℕ) (a : LogAppenderDefine) (s : Store)
    → l < s.next_logger
    → Keeps s (attach name l a s)
unfolding attach
attach-Keeps name l a s lt =
    let k = if a.type == 1 then file a.file 0 else stdout in
    let made = (new_appender k s).0 in
    let p = (new_appender k s).1 in
    let leveled = set_appender_level p a.level made in
    let formed = give_formatter name p a leveled in
    let x : Keeps made formed =
      Keeps-trans (set_appender_level-Keeps p a.level made)
        (give_formatter-Keeps name p a leveled) in
    let y : Keeps s formed = Keeps-trans (new_appender-Keeps k s) x in
    let is_made : p < made.next_appender = new_appender_made k s in
    Keeps-trans y (
      add_appender-Keeps l p formed (omega (arith, y.next_eq, lt))
        (omega (arith, x.appenders_le, is_made)))

attach_all-Keeps :
    (name : Bytes) (l : ℕ) (as' : List LogAppenderDefine) (s : Store)
    → l < s.next_logger
    → Keeps s (attach_all name l as' s)
unfolding attach_all
attach_all-Keeps name l [] s lt = Keeps-refl s
attach_all-Keeps name l (a ∷ as') s lt =
    let x = attach-Keeps name l a s lt in
    Keeps-trans x (attach_all-Keeps name l as' (attach name l a s) (omega (arith, x.next_eq, lt)))

-- A manager stays as it should be when its store takes such a step.
Keeps-IsManaged :
    (m : Manager) (s : Store) → Keeps m.store s → IsManaged m → IsManaged (record m { store = s })
Keeps-IsManaged m s k h = record {
  ready = k.ready h.ready;
  root_made = rw (k.next_eq) h.root_made;
  listed = λ n p e. let (lt, r) = h.listed n p e in (rw (k.next_eq) lt, rw (k.root_eq p) r);
}

formed-Keeps :
    (l : ℕ) (text : Bytes) (s : Store)
    → Keeps s (if not (is_empty text) then set_pattern l text s else s)
formed-Keeps l text s = Keeps-if (not (is_empty text)) (set_pattern-Keeps l text s) (Keeps-refl s)

configure-IsManaged : (d : LogDefine) (m : Manager) → IsManaged m → IsManaged (configure d m)
unfolding configure
configure-IsManaged d m h =
    let got = (get_logger_lem d.name m h).0 in
    let m' = (get_logger d.name m).0 in
    let l = (get_logger d.name m).1 in
    let leveled = set_level l d.level m'.store in
    let x = Keeps-trans (set_level-Keeps l d.level m'.store) (formed-Keeps l d.formatter leveled) in
    let y = Keeps-trans x (clear_appenders-Keeps l _) in
    Keeps-IsManaged m' _
      (Keeps-trans y
        (attach_all-Keeps d.name l d.appenders _ (omega (arith, y.next_eq, got.is_listed.0))))
      got.managed

disable-IsManaged : (d : LogDefine) (m : Manager) → IsManaged m → IsManaged (disable d m)
unfolding disable
disable-IsManaged d m h =
    let got = (get_logger_lem d.name m h).0 in
    let m' = (get_logger d.name m).0 in
    let l = (get_logger d.name m).1 in
    Keeps-IsManaged m' _
      (Keeps-trans (set_level-Keeps l Level.unknow m'.store) (clear_appenders-Keeps l _))
      got.managed

IsManaged-if :
    (b : Bool) {x y : Manager} → IsManaged x → IsManaged y → IsManaged (if b then x else y)
IsManaged-if true x y = x
IsManaged-if false x y = y

configure_all-IsManaged :
    (old ds : List LogDefine) (m : Manager) → IsManaged m → IsManaged (configure_all old ds m)
unfolding configure_all
configure_all-IsManaged old [] m h = h
configure_all-IsManaged old (d ∷ ds) m h =
    configure_all-IsManaged old ds _
      (IsManaged-if (is_same d (find_define d.name old)) h (configure-IsManaged d m h))

disable_all-IsManaged :
    (new ds : List LogDefine) (m : Manager) → IsManaged m → IsManaged (disable_all new ds m)
unfolding disable_all
disable_all-IsManaged new [] m h = h
disable_all-IsManaged new (d ∷ ds) m h =
    disable_all-IsManaged new ds _
      (IsManaged-if (is_none (find_define d.name new)) (disable-IsManaged d m h) h)

-- Whatever the old and the new definitions of loggers are, the listener that brings the loggers
-- in line with them keeps that every made logger has a formatter and every attached appender is
-- made and has one, that the root logger is made, and that each logger of the map is made and is
-- the root logger or has it as its root.
pub on_change-IsManaged :
    (old new : List LogDefine) (m : Manager) → IsManaged m → IsManaged (on_change old new m)
unfolding on_change
on_change-IsManaged old new m h =
    disable_all-IsManaged new old (configure_all old new m) (configure_all-IsManaged old new m h)
