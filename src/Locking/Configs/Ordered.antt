-- ===== src/Locking/Configs/Ordered.antt =====
-- Each operation of atpdxy/config.h and atpdxy/config.cpp takes its mutexes in the order of their
-- ranks, where the listeners take none of a variable's or of the table's.
use atpdxy.Common.{
  ℕ, zero, suc, ◌≤◌, ◌≡◌, not, false, Option, none, some, List, [], ◌∷◌, ◌++◌, map, arith,
  if◌then◌else◌,
}
use atpdxy.Common.Bytes.{Bytes, is_empty, tolower}
use atpdxy.Mutex.Order.{Access, exclusive, shared, each, inside}
use atpdxy.Mutex.Order.Nesting.{
  []-Closed, append-Closed, if-Closed, each-Closed, inside-Closed, Closed-le,
}
use atpdxy.Locking.{Lock, table, variable, order}
use atpdxy.Locking.Loggers.{Acts}
use atpdxy.Locking.Loggers.Ordered.{From, macro_root-From}
use atpdxy.Locking.Configs.{
  report_locks, to_string_locks, reader_locks, writer_locks, set_value_locks, from_string_locks,
  lookup_base_locks, found_locks, lookup_or_new_locks, visit_locks, members_locks,
  list_all_member_locks, assign_locks, load_all_locks, load_from_yaml_locks,
}
use atpdxy.Log.Level.{Level, info, error}
use atpdxy.Log.Logger.{Env}
use atpdxy.Log.Manager.{Manager}
use atpdxy.Config.Var.{Types, Var}
use atpdxy.Config.Table.{is_name, lookup_base, cast, AnyVar, Configs}
use atpdxy.Config.Yaml.{Yaml}
use atpdxy.Config.Load.{child_key, list_all_member, load_one}

module _ (env : Env) (m : Manager) (filled : is_empty (m.store.loggers m.root).appenders ≡ false)
    (T : Types) where
  open T use {Ty, Val, val_eq, from_str, to_str}

  abbrev ranks : Lock → ℕ
  ranks = order m.root

  report_locks-From :
      (low : ℕ) (level : Level) (text : Acts)
      → low ≤ 3
      → From m.root low text
      → From m.root low (report_locks env m T level text)
  unfolding report_locks
  report_locks-From low level text le h =
      macro_root-From m.root env m.store level filled low text le h

  bare_report :
      (low : ℕ) (level : Level) → low ≤ 3 → From m.root low (report_locks env m T level [])
  bare_report low level le = report_locks-From low level [] le ([]-Closed ranks low)

  variable-From :
      (d : Access) (v : ℕ) (acts : Acts)
      → From m.root 2 acts
      → From m.root 1 (inside d (variable v) acts)
  variable-From d v acts h = inside-Closed ranks 1 d (variable v) acts (omega arith) h

  table-From : (d : Access) (acts : Acts) → From m.root 1 acts → From m.root 0 (inside d table acts)
  table-From d acts h = inside-Closed ranks 0 d table acts (omega arith) h

  pub reader_locks-From : (v : ℕ) → From m.root 1 (reader_locks env m T v)
  unfolding reader_locks
  reader_locks-From v = variable-From shared v [] ([]-Closed ranks 2)

  pub writer_locks-From : (v : ℕ) → From m.root 1 (writer_locks env m T v)
  unfolding writer_locks
  writer_locks-From v = variable-From exclusive v [] ([]-Closed ranks 2)

  Option-From :
      {A : Type 0} (low : ℕ) (o : Option A) (x : Acts) (f : A → Acts)
      → From m.root low x
      → ((a : A) → From m.root low (f a))
      → From m.root low (elim o [ none ↦ x | some a ↦ f a ])
  Option-From low none x f hx hf = hx
  Option-From low (some a) x f hx hf = hf a

  pub to_string_locks-From : (v : ℕ) (c : AnyVar T) → From m.root 1 (to_string_locks env m T v c)
  unfolding to_string_locks
  to_string_locks-From v c =
      append-Closed ranks 1 (inside shared (variable v) []) _
        (variable-From shared v [] ([]-Closed ranks 2))
        (Option-From 1 (to_str c.ty c.var.val) (report_locks env m T error []) (λ s. [])
          (bare_report 1 error (omega arith)) (λ s. []-Closed ranks 1))

  module _ (listeners : ℕ → Acts) (h : (i : ℕ) → From m.root 2 (listeners i)) where
    pub set_value_locks-From :
        (t : Ty) (v : ℕ) (x : Val t) (c : Var T t)
        → From m.root 1 (set_value_locks env m T t listeners v x c)
    unfolding set_value_locks
    set_value_locks-From t v x c =
        if-Closed ranks 1 (val_eq t x c.val) (inside shared (variable v) []) _
          (variable-From shared v [] ([]-Closed ranks 2))
          (append-Closed ranks 1 (inside shared (variable v) (each (λ e. listeners e.0) c.cbs)) _
            (variable-From shared v (each (λ e. listeners e.0) c.cbs)
              (each-Closed ranks 2 (λ e. listeners e.0) c.cbs (λ e. h e.0)))
            (variable-From exclusive v [] ([]-Closed ranks 2)))

    pub from_string_locks-From :
        (v : ℕ) (text : Bytes) (c : AnyVar T)
        → From m.root 1 (from_string_locks env m T listeners v text c)
    unfolding from_string_locks
    from_string_locks-From v text c =
        Option-From 1 (from_str c.ty text) (report_locks env m T error [])
          (λ x. set_value_locks env m T c.ty listeners v x c.var)
          (bare_report 1 error (omega arith)) (λ x. set_value_locks-From c.ty v x c.var)

  pub lookup_base_locks-From : From m.root 0 (lookup_base_locks env m T)
  unfolding lookup_base_locks
  lookup_base_locks-From = table-From shared [] ([]-Closed ranks 1)

  found_locks-From :
      (p : ℕ) (c : AnyVar T) (o : Option ℕ) → From m.root 1 (found_locks env m T p c o)
  unfolding found_locks
  found_locks-From p c (some q) = bare_report 1 info (omega arith)
  found_locks-From p c none =
      report_locks-From 1 error (to_string_locks env m T p c) (omega arith)
        (to_string_locks-From p c)

  pub lookup_or_new_locks-From :
      (t : Ty) (name : Bytes) (s : Configs T) → From m.root 0 (lookup_or_new_locks env m T t name s)
  unfolding lookup_or_new_locks
  lookup_or_new_locks-From t name s = table-From exclusive _ (
      Option-From 1 (lookup_base T name s)
        (if not (is_name name) then report_locks env m T error [] else [])
        (λ p. found_locks env m T p (s.vars p) (cast T t p s))
        (if-Closed ranks 1 (not (is_name name)) (report_locks env m T error []) []
          (bare_report 1 error (omega arith)) ([]-Closed ranks 1))
        (λ p. found_locks-From p (s.vars p) (cast T t p s)))

  pub visit_locks-From :
      (cb : ℕ → Acts) (s : Configs T)
      → ((p : ℕ) → From m.root 1 (cb p))
      → From m.root 0 (visit_locks env m T cb s)
  unfolding visit_locks
  visit_locks-From cb s h =
      table-From shared (each (λ e. cb e.1) s.datas)
        (each-Closed ranks 1 (λ e. cb e.1) s.datas (λ e. h e.1))

  module _ (Y : Yaml) where
    open Y use {Node, is_map, is_scalar, scalar, members, dump}

    members_locks-From :
        (rec : Bytes → Node → Acts) (prefix : Bytes) (ms : List (Node × Node))
        → ((key : Bytes) (n : Node) → From m.root 0 (rec key n))
        → From m.root 0 (members_locks env m T Y rec prefix ms)
    unfolding members_locks
    members_locks-From rec prefix [] h = []-Closed ranks 0
    members_locks-From rec prefix ((k, v) ∷ ms) h =
        append-Closed ranks 0 (rec (child_key Y prefix k) v) _ (h (child_key Y prefix k) v)
          (members_locks-From rec prefix ms h)

    list_all_member_locks-From :
        (f : ℕ) (prefix : Bytes) (node : Node)
        → From m.root 0 (list_all_member_locks env m T Y f prefix node)
    unfolding list_all_member_locks
    list_all_member_locks-From zero prefix node = []-Closed ranks 0
    list_all_member_locks-From (suc f) prefix node =
        let below =
          members_locks env m T Y (list_all_member_locks env m T Y f) prefix (members node) in
        if-Closed ranks 0 (not (is_name prefix)) (report_locks env m T error [])
          (if is_map node then below else []) (bare_report 0 error (omega arith))
          (if-Closed ranks 0 (is_map node) below []
            (members_locks-From (list_all_member_locks env m T Y f) prefix (members node)
              (list_all_member_locks-From f))
            ([]-Closed ranks 0))

    module _ (listeners : ℕ → ℕ → Acts) (h : (p i : ℕ) → From m.root 2 (listeners p i)) where
      assign_locks-From :
          (o : Option ℕ) (text : Bytes) (s : Configs T)
          → From m.root 0 (assign_locks env m T Y listeners o text s)
      unfolding assign_locks
      assign_locks-From none text s = []-Closed ranks 0
      assign_locks-From (some p) text s =
          Closed-le ranks 0 1 (from_string_locks env m T (listeners p) p text (s.vars p))
            (omega arith) (from_string_locks-From (listeners p) (h p) p text (s.vars p))

      load_all_locks-From :
          (ns : List (Bytes × Node)) (s : Configs T)
          → From m.root 0 (load_all_locks env m T Y listeners ns s)
      unfolding load_all_locks
      load_all_locks-From [] s = []-Closed ranks 0
      load_all_locks-From ((key, node) ∷ ns) s =
          let text : Bytes = if is_scalar node then scalar node else dump node in
          let found : Option ℕ = lookup_base T (map tolower key) s in
          let one : Acts =
            lookup_base_locks env m T ++ assign_locks env m T Y listeners found text s in
          append-Closed ranks 0 (if is_empty key then [] else one) _
            (if-Closed ranks 0 (is_empty key) [] one ([]-Closed ranks 0) (
              append-Closed ranks 0 (lookup_base_locks env m T) _ lookup_base_locks-From
                (assign_locks-From found text s)))
            (load_all_locks-From ns (load_one Y T (key, node) s))

      pub load_from_yaml_locks-From :
          (f : ℕ) (root : Node) (s : Configs T)
          → From m.root 0 (load_from_yaml_locks env m T Y listeners f root s)
      unfolding load_from_yaml_locks
      load_from_yaml_locks-From f root s =
          append-Closed ranks 0 (list_all_member_locks env m T Y f [] root) _
            (list_all_member_locks-From f [] root)
            (Option-From 0 (list_all_member Y f [] root) []
              (λ ns. load_all_locks env m T Y listeners ns s) ([]-Closed ranks 0)
              (λ ns. load_all_locks-From ns s))
