-- ===== src/Log/Document/RoundTrip.antt =====
-- LogDefine in atpdxy/log.cpp, written as a document and read again.
use atpdxy.Log.Document.Entries.{
  given, level_back, formatter_back, read_file_entries, read_stdout_entries, read_other_entries,
  read_logger_entries,
}
use atpdxy.Common.{
  ◌≡◌, refl, ap, ◌∙◌, inl, inr, Option, none, some, List, [], ◌∷◌, ◌++◌, map, ◌==◌, if◌then◌else◌,
  Bool-cases,
}
use atpdxy.Common.Bytes.{Bytes, codes, is_empty}
use atpdxy.Config.Yaml.{Yaml}
use atpdxy.Config.Document.{Documents, DocumentLaws}
use atpdxy.Config.Convert.{◌>>=◌}
use atpdxy.Log.Level.{to_string, unknow}
use atpdxy.Log.Define.{LogAppenderDefine, LogDefine}
use atpdxy.Log.Document.{
  unless, is_unknow, type_entries, appender_node, define_node, from_define, read_appender, push,
  read_appenders, appenders_of, to_define,
}

-- What is left of an appender's definition: one that is neither a file's nor the console's is
-- passed over, the level is lost, and so is the file of one for the console.
abbrev pub kept_appender : LogAppenderDefine → Option LogAppenderDefine
kept_appender a =
    if a.type == 1
    then some (record { type = 1; level = unknow; formatter = a.formatter; file = a.file })
    else if a.type == 2
    then some (record { type = 2; level = unknow; formatter = a.formatter; file = [] })
    else none

abbrev pub kept_appenders : List LogAppenderDefine → List LogAppenderDefine
kept_appenders [] = []
kept_appenders (a ∷ as') = push (kept_appender a) (kept_appenders as')

abbrev pub kept : LogDefine → LogDefine
kept d = record d { appenders = kept_appenders d.appenders }

module _ (Y : Yaml) (D : Documents Y) (laws : DocumentLaws Y D) where
  open Y use {Node, dump}
  open D use {load, elements, field, as_string, text, sequence, mapping}

  module _ (a : LogAppenderDefine) where
    node_of : List (Bytes × Node) → Node
    node_of es = mapping (
        es
        ++ (unless Y D (is_unknow a.level) (codes "level") (text (to_string a.level))
            ++ unless Y D (is_empty a.formatter) (codes "formatter") (text a.formatter)))

    abbrev file_fields : List (Bytes × Node)
    file_fields = (codes "type", text (codes "FileLogAppender")) ∷ (codes "file", text a.file) ∷ []

    abbrev stdout_fields : List (Bytes × Node)
    stdout_fields = (codes "type", text (codes "StdoutLogAppender")) ∷ []

    appender_node_lem :
        {es : List (Bytes × Node)} → type_entries Y D a ≡ es → appender_node Y D a ≡ node_of es
    unfolding appender_node node_of
    appender_node_lem e = ap node_of e

    read_appender_node : read_appender Y D (appender_node Y D a) ≡ some (kept_appender a)
    unfolding node_of
    read_appender_node =
        let l = text (to_string a.level) in
        let b = is_unknow a.level in
        let c = is_empty a.formatter in
        elim (Bool-cases (a.type == 1)) [
          | inl e ↦
              ap (read_appender Y D) (appender_node_lem {es = file_fields} (rw e))
              ∙ read_file_entries Y D laws a.file a.formatter l b c
              ∙ rw (e, formatter_back a.formatter)
          | inr e ↦ elim (Bool-cases (a.type == 2)) [
            | inl d ↦
                ap (read_appender Y D) (appender_node_lem {es = stdout_fields} (rw (e, d)))
                ∙ read_stdout_entries Y D laws a.formatter l b c
                ∙ rw (e, d, formatter_back a.formatter)
            | inr d ↦
                ap (read_appender Y D) (appender_node_lem {es = []} (rw (e, d)))
                ∙ read_other_entries Y D laws l (text a.formatter) b c
                ∙ rw (e, d)
          ]
        ]

  read_appenders-map :
      (as' : List LogAppenderDefine)
      → read_appenders Y D (map (appender_node Y D) as') ≡ some (kept_appenders as')
  unfolding read_appenders
  read_appenders-map [] = refl
  read_appenders-map (a ∷ as') = rw (read_appender_node a, read_appenders-map as')

  appenders_back :
      (as' : List LogAppenderDefine)
      → appenders_of Y D (given (is_empty as') (sequence (map (appender_node Y D) as')))
        ≡ some (kept_appenders as')
  unfolding appenders_of
  appenders_back [] = refl
  appenders_back (a ∷ as') =
      rw (laws.elements-sequence (map (appender_node Y D) (a ∷ as'))) (read_appenders-map (a ∷ as'))

  -- Where yaml-cpp reads back what it writes, a definition of a logger that is written and read
  -- again has the name, the level and the formatter that it had, and its appenders in order, but
  -- for those of an unknown type; each has its type and formatter, a file appender also its file,
  -- and none has a level.
  pub to_define-from_define :
      (d : LogDefine) → (from_define Y D d >>= to_define Y D) ≡ some (kept d)
  unfolding from_define define_node to_define
  to_define-from_define d = rw (laws.load-dump (define_node Y D d)) (
      read_logger_entries Y D laws d.name (to_string d.level) d.formatter (is_unknow d.level)
        (is_empty d.formatter) (is_empty d.appenders)
        (sequence (map (appender_node Y D) d.appenders)) (appenders_back d.appenders)
      ∙ rw (level_back d.level, formatter_back d.formatter))
