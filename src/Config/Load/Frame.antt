-- ===== src/Config/Load/Frame.antt =====
-- The variables and the table under Config::LoadFromYaml in atpdxy/config.cpp.
use atpdxy.Common.{
  ℕ, ◌<◌, ◌≡◌, refl, ap, ◌∙◌, ◌≢◌, inl, inr, false, Option, none, some, List, [], ◌∷◌, map, arith,
  ◌==◌, Bool-cases, All,
}
use atpdxy.Common.Bytes.{Bytes, tolower, is_empty}
use atpdxy.Config.Var.{Types}
use atpdxy.Config.Table.{lookup_base, Configs}
use atpdxy.Config.Yaml.{Yaml, IsFinite}
use atpdxy.Config.Load.Members.{list_all_member-some, IsKey, list_all_member-IsKey}
use atpdxy.Config.Load.{list_all_member, assign_at, load_one, load_all, load_from_yaml}

module _ (Y : Yaml) (T : Types) where
  open Y use {Node}

  -- No key of the list leads to the variable.
  abbrev pub IsUnnamed : Configs T → ℕ → List (Bytes × Node) → Type 0
  IsUnnamed s p = All (λ n. lookup_base T (map tolower n.0) s ≢ some p)

  -- The table is as it was, and a pointer keeps its type; the variable `p` too is as it was.
  pub record Kept (s s' : Configs T) : Type 0 where
    pub datas_eq : s'.datas ≡ s.datas
    pub next_eq : s'.next ≡ s.next
    pub types_eq : (q : ℕ) → (s'.vars q).ty ≡ (s.vars q).ty

  Kept-refl : (s : Configs T) → Kept s s
  Kept-refl s = record { datas_eq = refl; next_eq = refl; types_eq = λ q. refl }

  assign_at-Kept : (o : Option ℕ) (text : Bytes) (s : Configs T) → Kept s (assign_at Y T o text s)
  unfolding assign_at
  assign_at-Kept none text s = Kept-refl s
  assign_at-Kept (some p) text s = record {
    datas_eq = refl;
    next_eq = refl;
    types_eq = λ q. ground arith;
  }

  load_one-Kept : (n : Bytes × Node) (s : Configs T) → Kept s (load_one Y T n s)
  unfolding load_one
  load_one-Kept (key, node) s = elim (Bool-cases (is_empty key)) [
    | inl e ↦ rw e (Kept-refl s)
    | inr e ↦ rw e (assign_at-Kept (lookup_base T (map tolower key) s) _ s)
  ]

  assign_at_other :
      (o : Option ℕ) (text : Bytes) (s : Configs T) (p : ℕ)
      → o ≢ some p
      → (assign_at Y T o text s).vars p ≡ s.vars p
  unfolding assign_at
  assign_at_other none text s p h = refl
  assign_at_other (some q) text s p h =
      let e : (q == p) ≡ false = ground (arith, ap {A = ℕ} some, h) in rw e

  load_one_other :
      (n : Bytes × Node) (s : Configs T) (p : ℕ)
      → lookup_base T (map tolower n.0) s ≢ some p
      → (load_one Y T n s).vars p ≡ s.vars p
  unfolding load_one
  load_one_other (key, node) s p h = elim (Bool-cases (is_empty key)) [
    | inl e ↦ rw e
    | inr e ↦ rw e (assign_at_other (lookup_base T (map tolower key) s) _ s p h)
  ]

  IsUnnamed-Kept :
      (s s' : Configs T) (p : ℕ) (ns : List (Bytes × Node))
      → s'.datas ≡ s.datas
      → IsUnnamed s p ns
      → IsUnnamed s' p ns
  unfolding lookup_base
  IsUnnamed-Kept s s' p [] e h = tt
  IsUnnamed-Kept s s' p (n ∷ ns) e h = (rw e h.0, IsUnnamed-Kept s s' p ns e h.1)

  -- Loading changes values of variables and nothing else: no variable is added, removed, renamed in
  -- the table or given another type, and one that no key leads to is as it was.
  pub load_all_lem :
      (ns : List (Bytes × Node)) (s : Configs T)
      → Kept s (load_all Y T ns s)
        × ((p : ℕ) → IsUnnamed s p ns → (load_all Y T ns s).vars p ≡ s.vars p)
  unfolding load_all
  load_all_lem [] s = (Kept-refl s, λ p h. refl)
  load_all_lem (n ∷ ns) s =
      let t = load_one Y T n s in
      let (k, o) = load_all_lem ns t in
      let j = load_one-Kept n s in
      (
        record {
          datas_eq = k.datas_eq ∙ j.datas_eq;
          next_eq = k.next_eq ∙ j.next_eq;
          types_eq = λ q. k.types_eq q ∙ j.types_eq q;
        },
        λ p h. o p (IsUnnamed-Kept s t p ns j.datas_eq h.1) ∙ load_one_other n s p h.0,
      )

  -- With fuel above the height of a finite document, loading it ends. All keys that are collected
  -- from it are well-formed names; no variable is added, removed, or given another type; and a
  -- variable to which none of these keys leads is as it was.
  pub load_from_yaml_lem :
      (height : Node → ℕ) (finite : IsFinite Y height) (f : ℕ) (root : Node) (s : Configs T)
      → height root < f
      → (ns : List (Bytes × Node)) × (s' : Configs T) × (list_all_member Y f [] root ≡ some ns)
        × (load_from_yaml Y T f root s ≡ some s')
        × All (IsKey Y) ns
        × Kept s s'
        × ((p : ℕ) → IsUnnamed s p ns → s'.vars p ≡ s.vars p)
  unfolding load_from_yaml
  load_from_yaml_lem height finite f root s lt =
      let (ns, e) = list_all_member-some Y height finite f [] root lt in
      let (k, o) = load_all_lem ns s in
      (
        ns,
        load_all Y T ns s,
        e,
        rw (e, load_from_yaml),
        list_all_member-IsKey Y f [] root ns e,
        k,
        o,
      )
