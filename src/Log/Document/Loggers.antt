-- ===== src/Log/Document/Loggers.antt =====
-- The functions toYamlString of atpdxy/log.cpp, read again by the conversion to LogDefine.
use atpdxy.Common.{
  ℕ, ◌≡◌, refl, ◌∙◌, Bool, true, false, not, Option, none, some, List, [], ◌∷◌, ◌++◌, map,
  if◌then◌else◌,
}
use atpdxy.Common.Bytes.{Bytes, codes, is_empty}
use atpdxy.Config.Yaml.{Yaml}
use atpdxy.Config.Document.{Documents, DocumentLaws}
use atpdxy.Config.Convert.{◌>>=◌, to_vector, read_nodes}
use atpdxy.Log.Level.{Level, to_string, unknow}
use atpdxy.Log.Formatter.{Formatter}
use atpdxy.Log.Store.{Kind, stdout, file, Appender, Logger, Store}
use atpdxy.Log.Define.{LogAppenderDefine, LogDefine}
use atpdxy.Log.Manager.{Manager}
use atpdxy.Log.Document.{
  unless, is_unknow, read_appender, read_appenders, appenders_of, read_define, to_define,
  formatter_entry, kind_entries, appender_yaml, appender_nodes, logger_yaml, logger_nodes,
  manager_yaml,
}
use atpdxy.Log.Document.Entries.{
  given, level_back, logger_entries, read_file_entries, read_stdout_entries, read_logger_entries,
}

abbrev pub pattern_of : Option Formatter → Bytes
pattern_of none = []
pattern_of (some f) = f.pattern

-- The formatter of an appender counts if it is its own.
abbrev pub own_pattern : Bool → Option Formatter → Bytes
own_pattern has none = []
own_pattern has (some f) = if has then f.pattern else []

-- The definition that an appender, a logger and the loggers of a manager answer to; the levels of
-- the appenders are not in it.
abbrev pub appender_define_of : Kind → Bytes → LogAppenderDefine
appender_define_of stdout f = record { type = 2; level = unknow; formatter = f; file = [] }
appender_define_of (file name last) f = record {
  type = 1;
  level = unknow;
  formatter = f;
  file = name;
}

abbrev pub appender_define : Appender → LogAppenderDefine
appender_define a = appender_define_of a.kind (own_pattern a.has_formatter a.formatter)

abbrev pub logger_define : Store → Logger → LogDefine
logger_define s l = record {
  name = l.name;
  level = l.level;
  formatter = pattern_of l.formatter;
  appenders = map (λ p. appender_define (s.appenders p)) l.appenders;
}

module _ (Y : Yaml) (D : Documents Y) (laws : DocumentLaws Y D) where
  open Y use {Node, dump}
  open D use {load, elements, field, as_string, text, sequence, mapping}

  -- A formatter is written if it is there and counts; the text is then that of its pattern.
  abbrev is_left_out : Bool → Option Formatter → Bool
  is_left_out has none = true
  is_left_out has (some f) = not has

  formatter_entry_lem :
      (has : Bool) (f : Option Formatter)
      → formatter_entry Y D has f
        ≡ unless Y D (is_left_out has f) (codes "formatter") (text (pattern_of f))
  formatter_entry_lem has none = refl
  formatter_entry_lem has (some f) = refl

  own_pattern_lem :
      (has : Bool) (f : Formatter)
      → (if not has then [] else f.pattern) ≡ (if has then f.pattern else [])
  own_pattern_lem true f = refl
  own_pattern_lem false f = refl

  pattern_lem :
      (f : Option Formatter) → (if is_left_out true f then [] else pattern_of f) ≡ pattern_of f
  pattern_lem none = refl
  pattern_lem (some f) = refl

  abbrev kind_node : Kind → Level → Bool → Option Formatter → Node
  kind_node k l has f = mapping (
      kind_entries Y D k
      ++ (unless Y D (is_unknow l) (codes "level") (text (to_string l))
          ++ formatter_entry Y D has f))

  read_kind_node :
      (k : Kind) (l : Level) (has : Bool) (f : Option Formatter)
      → read_appender Y D (kind_node k l has f)
        ≡ some (some (appender_define_of k (own_pattern has f)))
  read_kind_node stdout l has none =
      read_stdout_entries Y D laws [] (text (to_string l)) (is_unknow l) true
  read_kind_node stdout l has (some f) =
      read_stdout_entries Y D laws f.pattern (text (to_string l)) (is_unknow l) (not has)
      ∙ rw (own_pattern_lem has f)
  read_kind_node (file name last) l has none =
      read_file_entries Y D laws name [] (text (to_string l)) (is_unknow l) true
  read_kind_node (file name last) l has (some f) =
      read_file_entries Y D laws name f.pattern (text (to_string l)) (is_unknow l) (not has)
      ∙ rw (own_pattern_lem has f)

  appender_nodes_lem :
      (s : Store) (ps : List ℕ)
      → (ns : List Node) × (appender_nodes Y D s ps ≡ some ns)
        × (appenders_of Y D (given (is_empty ns) (sequence ns))
            ≡ some (map (λ p. appender_define (s.appenders p)) ps))
        × (read_appenders Y D ns ≡ some (map (λ p. appender_define (s.appenders p)) ps))
  unfolding appender_nodes appender_yaml read_appenders
  appender_nodes_lem s [] = ([], refl, refl, refl)
  appender_nodes_lem s (p ∷ ps) =
      let a = s.appenders p in
      let n = kind_node a.kind a.level a.has_formatter a.formatter in
      let (ns, e, _, r) = appender_nodes_lem s ps in
      let loaded : load (appender_yaml Y D a) ≡ some n = laws.load-dump n in
      let here = read_kind_node a.kind a.level a.has_formatter a.formatter in
      let all_read : read_appenders Y D (n ∷ ns)
          ≡ some (map (λ q. appender_define (s.appenders q)) (p ∷ ps)) =
        rw (here, r) in
      (n ∷ ns, rw (loaded, e), rw (laws.elements-sequence (n ∷ ns)) all_read, all_read)

  logger_node_lem :
      (s : Store) (p : ℕ)
      → (n : Node) × (logger_yaml Y D s p ≡ some (dump n))
        × (read_define Y D n ≡ some (logger_define s (s.loggers p)))
  unfolding logger_yaml
  logger_node_lem s p =
      let l = s.loggers p in
      let (ns, e, a, _) = appender_nodes_lem s l.appenders in
      let f = l.formatter in
      let n = mapping (
        logger_entries Y D laws (text l.name) (is_unknow l.level) (text (to_string l.level))
          (is_left_out true f) (text (pattern_of f)) (is_empty ns) (sequence ns)) in
      (
        n,
        rw (e, formatter_entry_lem true f),
        read_logger_entries Y D laws l.name (to_string l.level) (pattern_of f) (is_unknow l.level)
              (is_left_out true f) (is_empty ns) (sequence ns) a
            ∙ rw (level_back l.level, pattern_lem f),
      )

  logger_nodes_lem :
      (s : Store) (ls : List (Bytes × ℕ))
      → (ns : List Node) × (logger_nodes Y D s ls ≡ some ns)
        × (read_nodes Y D (to_define Y D) ns ≡ some (map (λ e. logger_define s (s.loggers e.1)) ls))
  unfolding logger_nodes read_nodes to_define
  logger_nodes_lem s [] = ([], refl, refl)
  logger_nodes_lem s ((k, p) ∷ ls) =
      let (n, e, r) = logger_node_lem s p in
      let (ns, w, q) = logger_nodes_lem s ls in
      (n ∷ ns, rw (e, laws.load-dump n, w), rw (laws.load-dump n, r, q))

  -- What Logger::toYamlString writes is read as the definition of the logger.
  pub to_define-logger_yaml :
      (s : Store) (p : ℕ)
      → (logger_yaml Y D s p >>= to_define Y D) ≡ some (logger_define s (s.loggers p))
  unfolding to_define
  to_define-logger_yaml s p = let (n, e, r) = logger_node_lem s p in rw (e, laws.load-dump n) r

  -- Where yaml-cpp reads back what it writes, what LoggerManager::toYamlString writes is read, as
  -- a sequence of definitions, as those that describe its loggers, in order: name, level, the
  -- pattern of the formatter, and for each appender its type, its file, and the pattern of a
  -- formatter of its own.
  pub to_vector-manager_yaml :
      (m : Manager)
      → (manager_yaml Y D m >>= to_vector Y D (to_define Y D))
        ≡ some (map (λ e. logger_define m.store (m.store.loggers e.1)) m.loggers)
  unfolding manager_yaml to_vector
  to_vector-manager_yaml m =
      let (ns, w, q) = logger_nodes_lem m.store m.loggers in
      rw (w, laws.load-dump (sequence ns), laws.elements-sequence ns) q
