-- ===== src/Log/Document.antt =====
-- atpdxy/log.cpp: LexicalCast between documents and LogDefine, and the functions toYamlString.
pub mod Entries
pub mod RoundTrip
pub mod Loggers
use atpdxy.Common.{
  ℕ, ◌≡◌, Bool, true, false, not, Option, none, some, List, [], ◌∷◌, ◌++◌, map, ◌==◌, if◌then◌else◌,
}
use atpdxy.Common.Bytes.{Bytes, codes, bytes_eq, is_empty}
use atpdxy.Config.Yaml.{Yaml}
use atpdxy.Config.Document.{Documents}
use atpdxy.Config.Convert.{◌>>=◌}
use atpdxy.Log.Level.{Level, rank, from_string, to_string}
use atpdxy.Log.Formatter.{Formatter}
use atpdxy.Log.Store.{Kind, stdout, file, Appender, Logger, Store}
use atpdxy.Log.Define.{LogAppenderDefine, LogDefine}
use atpdxy.Log.Manager.{Manager}

-- `if(level != LogLevel::UNKNOW)`
abbrev pub is_unknow : Level → Bool
is_unknow l = rank l == 0

abbrev pub push : {A : Type 0} → Option A → List A → List A
push none as' = as'
push (some a) as' = a ∷ as'

module _ (Y : Yaml) (D : Documents Y) where
  open Y use {Node, dump}
  open D use {load, elements, field, as_string, text, sequence, mapping}

  -- An assignment to a key, if the test fails.
  abbrev pub unless : Bool → Bytes → Node → List (Bytes × Node)
  unless true k n = []
  unless false k n = (k, n) ∷ []

  abbrev pub type_entries : LogAppenderDefine → List (Bytes × Node)
  type_entries a =
      if a.type == 1
      then (codes "type", text (codes "FileLogAppender")) ∷ (codes "file", text a.file) ∷ []
      else if a.type == 2
      then (codes "type", text (codes "StdoutLogAppender")) ∷ []
      else []

  -- The node `na` of an appender.
  pub appender_node : LogAppenderDefine → Node
  appender_node a = mapping (
      type_entries a
      ++ (unless (is_unknow a.level) (codes "level") (text (to_string a.level))
          ++ unless (is_empty a.formatter) (codes "formatter") (text a.formatter)))

  -- The node `n` of LexicalCast<LogDefine, std::string>.
  pub define_node : LogDefine → Node
  unfolding appender_node
  define_node d = mapping (
      (codes "name", text d.name)
        ∷ unless (is_unknow d.level) (codes "level") (text (to_string d.level))
      ++ (unless (is_empty d.formatter) (codes "formatter") (text d.formatter)
          ++ unless (is_empty d.appenders) (codes "appenders")
              (sequence (map appender_node d.appenders))))

  -- LexicalCast<LogDefine, std::string>.
  pub from_define : LogDefine → Option Bytes
  unfolding define_node
  from_define d = some (dump (define_node d))

  -- `as<std::string>` of a field that is defined, and what stands for one that is not.
  abbrev pub string_or : Bytes → Option Node → Option Bytes
  string_or s none = some s
  string_or s (some n) = as_string n

  -- An appender of type FileLogAppender, given its field `file`.
  pub read_file_appender : Node → Option Node → Option (Option LogAppenderDefine)
  read_file_appender a none = some none
  read_file_appender a (some f) = do
    name ← as_string f
    g ← field a (codes "formatter")
    formatter ← string_or [] g
    some (some (record { type = 1; level = Level.unknow; formatter = formatter; file = name }))

  pub read_stdout_appender : Node → Option (Option LogAppenderDefine)
  read_stdout_appender a = do
    g ← field a (codes "formatter")
    formatter ← string_or [] g
    some (some (record { type = 2; level = Level.unknow; formatter = formatter; file = [] }))

  pub read_typed_appender : Node → Option Node → Option (Option LogAppenderDefine)
  unfolding read_file_appender read_stdout_appender
  read_typed_appender a none = some none
  read_typed_appender a (some t) = do
    type ← as_string t
    if bytes_eq type (codes "FileLogAppender")
        then (field a (codes "file") >>= read_file_appender a)
        else if bytes_eq type (codes "StdoutLogAppender")
        then read_stdout_appender a
        else some none

  -- The body of the loop over the appenders; the inner `none` is a `continue`.
  pub read_appender : Node → Option (Option LogAppenderDefine)
  unfolding read_typed_appender
  read_appender a = field a (codes "type") >>= read_typed_appender a

  pub read_appenders : List Node → Option (List LogAppenderDefine)
  unfolding read_appender
  read_appenders [] = some []
  read_appenders (n ∷ ns) = do a ← read_appender n; as' ← read_appenders ns; some (push a as')

  abbrev pub appenders_of : Option Node → Option (List LogAppenderDefine)
  unfolding read_appenders
  appenders_of none = some []
  appenders_of (some n) = read_appenders (elements n)

  pub read_define : Node → Option LogDefine
  unfolding appenders_of
  read_define n = do
    named ← field n (codes "name")
    name_node ← named
    name ← as_string name_node
    l ← field n (codes "level")
    level ← string_or [] l
    f ← field n (codes "formatter")
    formatter ← string_or [] f
    a ← field n (codes "appenders")
    appenders ← appenders_of a
    some (record {
      name = name;
      level = from_string level;
      formatter = formatter;
      appenders = appenders;
    })

  -- LexicalCast<std::string, LogDefine>, without what it prints.
  pub to_define : Bytes → Option LogDefine
  unfolding read_define
  to_define s = load s >>= read_define

  -- `if(m_formatter && m_hasFormatter)`, and `if(m_formatter)`.
  abbrev pub formatter_entry : Bool → Option Formatter → List (Bytes × Node)
  formatter_entry has none = []
  formatter_entry has (some f) = unless (not has) (codes "formatter") (text f.pattern)

  abbrev pub kind_entries : Kind → List (Bytes × Node)
  kind_entries stdout = (codes "type", text (codes "StdoutLogAppender")) ∷ []
  kind_entries (file name last) =
      (codes "type", text (codes "FileLogAppender")) ∷ (codes "file", text name) ∷ []

  -- `toYamlString` of the two appenders.
  pub appender_yaml : Appender → Bytes
  appender_yaml a = dump (
      mapping (
        kind_entries a.kind
        ++ (unless (is_unknow a.level) (codes "level") (text (to_string a.level))
            ++ formatter_entry a.has_formatter a.formatter)))

  -- `node["appenders"].push_back(YAML::Load(...))` for each appender.
  pub appender_nodes : Store → List ℕ → Option (List Node)
  unfolding appender_yaml
  appender_nodes s [] = some []
  appender_nodes s (p ∷ ps) = do
    n ← load (appender_yaml (s.appenders p))
    ns ← appender_nodes s ps
    some (n ∷ ns)

  -- `Logger::toYamlString`.
  pub logger_yaml : Store → ℕ → Option Bytes
  unfolding appender_nodes
  logger_yaml s p = do
    let l = s.loggers p
    ns ← appender_nodes s l.appenders
    some (
        dump (
          mapping (
            (codes "name", text l.name)
              ∷ unless (is_unknow l.level) (codes "level") (text (to_string l.level))
            ++ (formatter_entry true l.formatter
                ++ unless (is_empty ns) (codes "appenders") (sequence ns)))))

  pub logger_nodes : Store → List (Bytes × ℕ) → Option (List Node)
  unfolding logger_yaml
  logger_nodes s [] = some []
  logger_nodes s ((k, p) ∷ ls) = do
    t ← logger_yaml s p
    n ← load t
    ns ← logger_nodes s ls
    some (n ∷ ns)

  -- `LoggerManager::toYamlString`.
  pub manager_yaml : Manager → Option Bytes
  unfolding logger_nodes
  manager_yaml m = do ns ← logger_nodes m.store m.loggers; some (dump (sequence ns))
