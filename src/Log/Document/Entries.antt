-- ===== src/Log/Document/Entries.antt =====
-- The nodes of LogDefine in atpdxy/log.cpp, by their fields, as they are read.
use atpdxy.Common.{
  ◌≡◌, refl, ap, ◌∙◌, Bool, true, false, Option, none, some, List, [], ◌∷◌, ◌++◌, if◌then◌else◌,
}
use atpdxy.Common.Bytes.{Bytes, codes, bytes_eq, is_empty}
use atpdxy.Config.Yaml.{Yaml}
use atpdxy.Config.Document.{Documents, DocumentLaws, HasKeys, find_key}
use atpdxy.Log.Level.{Level, from_string, to_string, unknow}
use atpdxy.Log.Define.{LogAppenderDefine}
use atpdxy.Log.Document.{
  unless, is_unknow, string_or, read_typed_appender, read_appender, appenders_of, read_define,
}

-- A value that is left out where a test holds.
abbrev pub given {ℓ} : {A : Type ℓ} → Bool → A → Option A
given true a = none
given false a = some a

pub level_back : (l : Level) → from_string (if is_unknow l then [] else to_string l) ≡ l
unfolding from_string to_string bytes_eq
level_back unknow = refl
level_back _ = refl

pub formatter_back : (f : Bytes) → (if is_empty f then [] else f) ≡ f
formatter_back [] = refl
formatter_back (c ∷ f) = refl

module _ (Y : Yaml) (D : Documents Y) (laws : DocumentLaws Y D) where
  open Y use {Node, dump}
  open D use {load, elements, field, as_string, text, sequence, mapping}

  pub string_given :
      (b : Bool) (s : Bytes) → string_or Y D [] (given b (text s)) ≡ some (if b then [] else s)
  string_given true s = refl
  string_given false s = laws.as_string-text s

  -- The fields of the node of a logger.
  abbrev pub logger_entries : Node → Bool → Node → Bool → Node → Bool → Node → List (Bytes × Node)
  logger_entries n b l c f d a =
      (codes "name", n) ∷ unless Y D b (codes "level") l
      ++ (unless Y D c (codes "formatter") f ++ unless Y D d (codes "appenders") a)

  pub logger_entries-HasKeys :
      (n l f a : Node) (b c d : Bool) → HasKeys (logger_entries n b l c f d a)
  unfolding bytes_eq
  logger_entries-HasKeys n l f a true true true = (tt, tt)
  logger_entries-HasKeys n l f a true true false = ((refl, tt), (tt, tt))
  logger_entries-HasKeys n l f a true false true = ((refl, tt), (tt, tt))
  logger_entries-HasKeys n l f a true false false = ((refl, (refl, tt)), ((refl, tt), (tt, tt)))
  logger_entries-HasKeys n l f a false true true = ((refl, tt), (tt, tt))
  logger_entries-HasKeys n l f a false true false = ((refl, (refl, tt)), ((refl, tt), (tt, tt)))
  logger_entries-HasKeys n l f a false false true = ((refl, (refl, tt)), ((refl, tt), (tt, tt)))
  logger_entries-HasKeys n l f a false false false =
      ((refl, (refl, (refl, tt))), ((refl, (refl, tt)), ((refl, tt), (tt, tt))))

  pub find_logger_entries :
      (n l f a : Node) (b c d : Bool)
      → let es = logger_entries n b l c f d a in
        (find_key (codes "name") es ≡ some n)
        × (find_key (codes "level") es ≡ given b l)
        × (find_key (codes "formatter") es ≡ given c f)
        × (find_key (codes "appenders") es ≡ given d a)
  unfolding bytes_eq
  find_logger_entries n l f a true true true = (refl, refl, refl, refl)
  find_logger_entries n l f a true true false = (refl, refl, refl, refl)
  find_logger_entries n l f a true false true = (refl, refl, refl, refl)
  find_logger_entries n l f a true false false = (refl, refl, refl, refl)
  find_logger_entries n l f a false true true = (refl, refl, refl, refl)
  find_logger_entries n l f a false true false = (refl, refl, refl, refl)
  find_logger_entries n l f a false false true = (refl, refl, refl, refl)
  find_logger_entries n l f a false false false = (refl, refl, refl, refl)

  -- A node with these fields is read.
  pub read_logger_entries :
      (name level formatter : Bytes) (b c d : Bool) (a : Node) {as' : List LogAppenderDefine}
      → appenders_of Y D (given d a) ≡ some as'
      → read_define Y D (mapping (logger_entries (text name) b (text level) c (text formatter) d a))
        ≡ some (record {
          name = name;
          level = from_string (if b then [] else level);
          formatter = if c then [] else formatter;
          appenders = as';
        })
  unfolding read_define
  read_logger_entries name level formatter b c d a e =
      let es = logger_entries (text name) b (text level) c (text formatter) d a in
      let keys = logger_entries-HasKeys (text name) (text level) (text formatter) a b c d in
      let (p, q, r, s) = find_logger_entries (text name) (text level) (text formatter) a b c d in
      rw (
        laws.field-mapping es (codes "name") keys,
        p,
        laws.as_string-text name,
        laws.field-mapping es (codes "level") keys,
        q,
        string_given b level,
        laws.field-mapping es (codes "formatter") keys,
        r,
        string_given c formatter,
        laws.field-mapping es (codes "appenders") keys,
        s,
        e,
      )

  abbrev pub file_entries : Node → Node → Bool → Node → Bool → Node → List (Bytes × Node)
  file_entries t n b l c f =
      ((codes "type", t) ∷ (codes "file", n) ∷ [])
      ++ (unless Y D b (codes "level") l ++ unless Y D c (codes "formatter") f)

  pub file_entries-HasKeys : (t n l f : Node) (b c : Bool) → HasKeys (file_entries t n b l c f)
  unfolding bytes_eq
  file_entries-HasKeys t n l f true true = ((refl, tt), (tt, tt))
  file_entries-HasKeys t n l f true false = ((refl, (refl, tt)), ((refl, tt), (tt, tt)))
  file_entries-HasKeys t n l f false true = ((refl, (refl, tt)), ((refl, tt), (tt, tt)))
  file_entries-HasKeys t n l f false false =
      ((refl, (refl, (refl, tt))), ((refl, (refl, tt)), ((refl, tt), (tt, tt))))

  pub find_file_entries :
      (t n l f : Node) (b c : Bool)
      → let es = file_entries t n b l c f in
        (find_key (codes "type") es ≡ some t)
        × (find_key (codes "file") es ≡ some n)
        × (find_key (codes "formatter") es ≡ given c f)
  unfolding bytes_eq
  find_file_entries t n l f true true = (refl, refl, refl)
  find_file_entries t n l f true false = (refl, refl, refl)
  find_file_entries t n l f false true = (refl, refl, refl)
  find_file_entries t n l f false false = (refl, refl, refl)

  abbrev pub stdout_entries : Node → Bool → Node → Bool → Node → List (Bytes × Node)
  stdout_entries t b l c f =
      ((codes "type", t) ∷ [])
      ++ (unless Y D b (codes "level") l ++ unless Y D c (codes "formatter") f)

  pub stdout_entries-HasKeys : (t l f : Node) (b c : Bool) → HasKeys (stdout_entries t b l c f)
  unfolding bytes_eq
  stdout_entries-HasKeys t l f true true = (tt, tt)
  stdout_entries-HasKeys t l f true false = ((refl, tt), (tt, tt))
  stdout_entries-HasKeys t l f false true = ((refl, tt), (tt, tt))
  stdout_entries-HasKeys t l f false false = ((refl, (refl, tt)), ((refl, tt), (tt, tt)))

  pub find_stdout_entries :
      (t l f : Node) (b c : Bool)
      → let es = stdout_entries t b l c f in
        (find_key (codes "type") es ≡ some t) × (find_key (codes "formatter") es ≡ given c f)
  unfolding bytes_eq
  find_stdout_entries t l f true true = (refl, refl)
  find_stdout_entries t l f true false = (refl, refl)
  find_stdout_entries t l f false true = (refl, refl)
  find_stdout_entries t l f false false = (refl, refl)

  abbrev pub other_entries : Bool → Node → Bool → Node → List (Bytes × Node)
  other_entries b l c f = (unless Y D b (codes "level") l ++ unless Y D c (codes "formatter") f)

  pub other_entries-HasKeys : (l f : Node) (b c : Bool) → HasKeys (other_entries b l c f)
  unfolding bytes_eq
  other_entries-HasKeys l f true true = tt
  other_entries-HasKeys l f true false = (tt, tt)
  other_entries-HasKeys l f false true = (tt, tt)
  other_entries-HasKeys l f false false = ((refl, tt), (tt, tt))

  pub find_other_entries :
      (l f : Node) (b c : Bool)
      → let es = other_entries b l c f in (find_key (codes "type") es ≡ none)
  unfolding bytes_eq
  find_other_entries l f true true = refl
  find_other_entries l f true false = refl
  find_other_entries l f false true = refl
  find_other_entries l f false false = refl

  -- Nodes with these fields are read as appenders.
  pub read_file_entries :
      (name formatter : Bytes) (l : Node) (b c : Bool)
      → read_appender Y D (
          mapping
            (file_entries (text (codes "FileLogAppender")) (text name) b l c (text formatter)))
        ≡ some (
            some (record {
              type = 1;
              level = unknow;
              formatter = if c then [] else formatter;
              file = name;
            }))
  unfolding read_appender bytes_eq
  read_file_entries name formatter l b c =
      let t = text (codes "FileLogAppender") in
      let es = file_entries t (text name) b l c (text formatter) in
      let keys = file_entries-HasKeys t (text name) l (text formatter) b c in
      let (p, q, r) = find_file_entries t (text name) l (text formatter) b c in
      let p' = laws.field-mapping es (codes "type") keys ∙ ap some p in
      let q' = laws.field-mapping es (codes "file") keys ∙ ap some q in
      let r' = laws.field-mapping es (codes "formatter") keys ∙ ap some r in
      rw (
        p',
        read_typed_appender,
        laws.as_string-text (codes "FileLogAppender"),
        q',
        laws.as_string-text name,
        r',
        string_given c formatter,
      )

  pub read_stdout_entries :
      (formatter : Bytes) (l : Node) (b c : Bool)
      → read_appender Y D
          (mapping (stdout_entries (text (codes "StdoutLogAppender")) b l c (text formatter)))
        ≡ some (
            some (record {
              type = 2;
              level = unknow;
              formatter = if c then [] else formatter;
              file = [];
            }))
  unfolding read_appender bytes_eq
  read_stdout_entries formatter l b c =
      let t = text (codes "StdoutLogAppender") in
      let es = stdout_entries t b l c (text formatter) in
      let keys = stdout_entries-HasKeys t l (text formatter) b c in
      let (p, r) = find_stdout_entries t l (text formatter) b c in
      let p' = laws.field-mapping es (codes "type") keys ∙ ap some p in
      let r' = laws.field-mapping es (codes "formatter") keys ∙ ap some r in
      rw (
        p',
        read_typed_appender,
        laws.as_string-text (codes "StdoutLogAppender"),
        r',
        string_given c formatter,
      )

  pub read_other_entries :
      (l f : Node) (b c : Bool) → read_appender Y D (mapping (other_entries b l c f)) ≡ some none
  unfolding read_appender
  read_other_entries l f b c = rw (
    laws.field-mapping (other_entries b l c f) (codes "type") (other_entries-HasKeys l f b c),
    find_other_entries l f b c,
    read_typed_appender,
  )
