-- ===== src/Locking/Configs.antt =====
-- The calls on mutexes of each operation of atpdxy/config.h and atpdxy/config.cpp, in the state that
-- it finds. The framework's own log goes to the root logger of a manager.
pub mod Ordered
pub mod Stuck
use atpdxy.Common.{ℕ, zero, suc, not, Option, none, some, List, [], ◌∷◌, ◌++◌, map, if◌then◌else◌}
use atpdxy.Common.Bytes.{Bytes, is_empty, tolower}
use atpdxy.Mutex.Order.{exclusive, shared, each, inside}
use atpdxy.Locking.{table, variable}
use atpdxy.Locking.Loggers.{Acts, macro_locks}
use atpdxy.Log.Level.{Level, info, error}
use atpdxy.Log.Logger.{Env}
use atpdxy.Log.Manager.{Manager}
use atpdxy.Config.Var.{Types, Var}
use atpdxy.Config.Table.{is_name, lookup_base, cast, AnyVar, Configs}
use atpdxy.Config.Yaml.{Yaml}
use atpdxy.Config.Load.{child_key, list_all_member, load_one}

module _ (env : Env) (m : Manager) (T : Types) where
  open T use {Ty, Val, val_eq, from_str, to_str}

  -- `ATPDXY_LOG_LEVEL(ATPDXY_LOG_ROOT(), level) << text`.
  report_locks : Level → Acts → Acts
  report_locks level text = macro_locks env m.store level text m.root

  -- `ConfigVar::toString`, of the variable behind a pointer.
  pub to_string_locks : ℕ → AnyVar T → Acts
  unfolding report_locks
  to_string_locks v c =
      inside shared (variable v) []
      ++ elim (to_str c.ty c.var.val) [ none ↦ report_locks error [] | some s ↦ [] ]

  -- `getValue` and `getListener`.
  pub reader_locks : ℕ → Acts
  reader_locks v = inside shared (variable v) []

  -- `addListener`, `delListener` and `clearListener`.
  unfoldable pub writer_locks : ℕ → Acts
  writer_locks v = inside exclusive (variable v) []

  -- `ConfigVar::setValue`, given the calls that the listener under a key makes.
  unfoldable pub set_value_locks : (t : Ty) → (ℕ → Acts) → ℕ → Val t → Var T t → Acts
  set_value_locks t listeners v x c =
      if val_eq t x c.val
      then inside shared (variable v) []
      else inside shared (variable v) (each (λ e. listeners e.0) c.cbs)
        ++ inside exclusive (variable v) []

  -- `ConfigVar::fromString`.
  pub from_string_locks : (ℕ → Acts) → ℕ → Bytes → AnyVar T → Acts
  unfolding report_locks set_value_locks
  from_string_locks listeners v text c = elim (from_str c.ty text) [
    | none ↦ report_locks error []
    | some x ↦ set_value_locks c.ty listeners v x c.var
  ]

  -- `Lookup(name)` and `LookupBase`.
  pub lookup_base_locks : Acts
  lookup_base_locks = inside shared table []

  -- Where Lookup with a default has found a variable of its type, or of another type.
  found_locks : ℕ → AnyVar T → Option ℕ → Acts
  unfolding report_locks to_string_locks
  found_locks p c (some q) = report_locks info []
  found_locks p c none = report_locks error (to_string_locks p c)

  -- `Lookup(name, default_value, description)`.
  pub lookup_or_new_locks : Ty → Bytes → Configs T → Acts
  unfolding found_locks report_locks
  lookup_or_new_locks t name s = inside exclusive table (elim (lookup_base T name s) [
    | some p ↦ found_locks p (s.vars p) (cast T t p s)
    | none ↦ if not (is_name name) then report_locks error [] else []
  ])

  -- `Visit`, given the calls that the callback makes for a variable.
  pub visit_locks : (ℕ → Acts) → Configs T → Acts
  visit_locks cb s = inside shared table (each (λ e. cb e.1) s.datas)

  module _ (Y : Yaml) where
    open Y use {Node, is_map, is_scalar, scalar, members, dump}

    members_locks : (Bytes → Node → Acts) → Bytes → List (Node × Node) → Acts
    members_locks rec prefix [] = []
    members_locks rec prefix ((k, v) ∷ ms) =
        rec (child_key Y prefix k) v ++ members_locks rec prefix ms

    -- ListAllMember; the fuel bounds the depth of the document.
    pub list_all_member_locks : ℕ → Bytes → Node → Acts
    unfolding members_locks report_locks
    list_all_member_locks zero prefix node = []
    list_all_member_locks (suc f) prefix node =
        let below = members_locks (list_all_member_locks f) prefix (members node) in
        if not (is_name prefix) then report_locks error [] else if is_map node then below else []

    assign_locks : (ℕ → ℕ → Acts) → Option ℕ → Bytes → Configs T → Acts
    unfolding from_string_locks
    assign_locks listeners none text s = []
    assign_locks listeners (some p) text s = from_string_locks (listeners p) p text (s.vars p)

    -- The loop of LoadFromYaml, given the calls that the listeners of each variable make.
    pub load_all_locks : (ℕ → ℕ → Acts) → List (Bytes × Node) → Configs T → Acts
    unfolding lookup_base_locks assign_locks
    load_all_locks listeners [] s = []
    load_all_locks listeners ((key, node) ∷ ns) s =
        (if is_empty key
          then []
          else lookup_base_locks
            ++ assign_locks listeners (lookup_base T (map tolower key) s)
                (if is_scalar node then scalar node else dump node) s)
        ++ load_all_locks listeners ns (load_one Y T (key, node) s)

    -- `LoadFromYaml`.
    pub load_from_yaml_locks : (ℕ → ℕ → Acts) → ℕ → Node → Configs T → Acts
    unfolding list_all_member_locks load_all_locks
    load_from_yaml_locks listeners f root s =
        list_all_member_locks f [] root ++ elim (list_all_member Y f [] root) [
          | none ↦ []
          | some ns ↦ load_all_locks listeners ns s
        ]
