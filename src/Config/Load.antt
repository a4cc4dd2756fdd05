-- ===== src/Config/Load.antt =====
-- atpdxy/config.cpp: ListAllMember and Config::LoadFromYaml.
pub mod Members
pub mod Frame
use atpdxy.Common.{
  ℕ, zero, suc, not, Option, none, some, List, [], ◌∷◌, ◌++◌, map, ◌==◌, if◌then◌else◌,
}
use atpdxy.Common.Bytes.{Bytes, is_empty, tolower}
use atpdxy.Config.Var.{from_string, Types}
use atpdxy.Config.Table.{is_name, lookup_base, Configs}
use atpdxy.Config.Yaml.{Yaml}

abbrev append_to {ℓ} : {A : Type ℓ} → Option (List A) → Option (List A) → Option (List A)
append_to none r = none
append_to (some xs) none = none
append_to (some xs) (some ys) = some (xs ++ ys)

module _ (Y : Yaml) where
  open Y use {Node, is_map, is_scalar, scalar, members, dump}

  -- `prefix.empty() ? it->first.Scalar() : prefix + "." + it->first.Scalar()`
  abbrev pub child_key : Bytes → Node → Bytes
  child_key prefix k = if is_empty prefix then scalar k else prefix ++ (b'.' ∷ scalar k)

  -- The loop over a map, given the recursive call.
  pub list_members :
      (Bytes → Node → Option (List (Bytes × Node)))
      → Bytes
      → List (Node × Node)
      → Option (List (Bytes × Node))
  list_members rec prefix [] = some []
  list_members rec prefix ((k, v) ∷ ms) =
      append_to (rec (child_key prefix k) v) (list_members rec prefix ms)

  -- ListAllMember: what it adds to `output`. The fuel bounds the depth of the document; `none` means
  -- that it ran out.
  pub list_all_member : ℕ → Bytes → Node → Option (List (Bytes × Node))
  unfolding list_members
  list_all_member zero prefix node = none
  list_all_member (suc f) prefix node =
      let below = list_members (list_all_member f) prefix (members node) in
      if not (is_name prefix)
      then some []
      else append_to (some ((prefix, node) ∷ [])) (if is_map node then below else some [])

  module _ (T : Types) where
    -- `var->fromString(text)` through the pointer.
    pub assign : ℕ → Bytes → Configs T → Configs T
    assign p text s =
        let (v, w, _) = from_string T (s.vars p).ty text (s.vars p).var s.effects in
        record s {
          vars = λ q. if p == q then record { ty = (s.vars p).ty; var = v } else s.vars q;
          effects = w;
        }

    -- `if(var)`
    pub assign_at : Option ℕ → Bytes → Configs T → Configs T
    unfolding assign
    assign_at none text s = s
    assign_at (some p) text s = assign p text s

    -- The body of the loop of LoadFromYaml.
    pub load_one : Bytes × Node → Configs T → Configs T
    unfolding assign_at
    load_one (key, node) s =
        if is_empty key
        then s
        else assign_at (lookup_base T (map tolower key) s)
            (if is_scalar node then scalar node else dump node) s

    pub load_all : List (Bytes × Node) → Configs T → Configs T
    unfolding load_one
    load_all [] s = s
    load_all (n ∷ ns) s = load_all ns (load_one n s)

    -- LoadFromYaml.
    pub load_from_yaml : ℕ → Node → Configs T → Option (Configs T)
    unfolding list_all_member load_all
    load_from_yaml f root s = elim (list_all_member f [] root) [
      | none ↦ none
      | some ns ↦ some (load_all ns s)
    ]
