-- ===== src/Config/Table.antt =====
-- atpdxy/config.h, class Config, and Config::LookupBase and Config::Visit in atpdxy/config.cpp: the
-- table of all variables.
pub mod Lookup
use mathlib.Core.Logic.{ite}
use atpdxy.Common.{
  ℕ, ◌+◌, ◌≡◌, refl, Bool, true, false, not, ◌&&◌, ◌||◌, Option, none, some, List, [], ◌∷◌, map,
  arith, ◌==◌, if◌then◌else◌,
}
use atpdxy.Common.Bytes.{Bytes, codes, bytes_eq, bytes_eq_iff, bytes_eq_self, bytes_lt, tolower}
use atpdxy.Common.Result.{Fault, invalid_argument, Result, ok, fail}
use atpdxy.Config.Var.{new_var, Types, Var}

contains : ℕ → Bytes → Bool
contains c [] = false
contains c (d ∷ ds) = c == d || contains c ds

-- The characters of a name, as the source lists them: 9 is not among them.
abbrev name_chars : Bytes
name_chars = codes "abcdefghijklmnopqrstuvwxyz._012345678"

-- `name.find_first_not_of(...) == std::string::npos`
unfoldable pub is_name : Bytes → Bool
unfolding contains
is_name [] = true
is_name (c ∷ cs) = contains c name_chars && is_name cs

tolower_char : (c : ℕ) → contains c name_chars ≡ true → tolower c ≡ c
unfolding contains tolower
tolower_char c h = ground arith

-- A name is in lower case already.
pub map-tolower : (s : Bytes) → is_name s ≡ true → map tolower s ≡ s
unfolding is_name
map-tolower [] h = refl
map-tolower (c ∷ cs) h = ground (arith, tolower_char c, map-tolower cs)

module _ (T : Types) where
  open T use {Ty, ty_dec, Val, Effects}

  -- A `ConfigVarBase::ptr`: a variable with the type that it is made for.
  pub record AnyVar : Type 0 where
    pub ty : Ty
    pub var : Var T ty

  -- `GetDatas()` is sorted by the name; the variables stand behind their pointers.
  pub record Configs : Type 0 where
    pub vars : ℕ → AnyVar
    pub next : ℕ
    pub datas : List (Bytes × ℕ)
    pub effects : Effects

  pub find : Bytes → List (Bytes × ℕ) → Option ℕ
  find k [] = none
  find k ((j, p) ∷ d) = if bytes_eq k j then some p else find k d

  -- `GetDatas()[name] = v`
  pub insert : Bytes → ℕ → List (Bytes × ℕ) → List (Bytes × ℕ)
  insert k p [] = (k, p) ∷ []
  insert k p ((j, q) ∷ d) =
      if bytes_eq k j
      then (k, p) ∷ d
      else if bytes_lt k j
      then (k, p) ∷ ((j, q) ∷ d)
      else (j, q) ∷ insert k p d

  -- `LookupBase`.
  unfoldable pub lookup_base : Bytes → Configs → Option ℕ
  unfolding find
  lookup_base name s = find name s.datas

  -- `std::dynamic_pointer_cast<ConfigVar<T>>`
  pub cast : Ty → ℕ → Configs → Option ℕ
  cast t p s = ite (ty_dec (s.vars p).ty t) (some p) none

  -- `Lookup(name)`.
  pub lookup : Ty → Bytes → Configs → Option ℕ
  unfolding lookup_base cast
  lookup t name s = elim (lookup_base name s) [ none ↦ none | some p ↦ cast t p s ]

  create : (t : Ty) → Bytes → Val t → Bytes → Configs → Configs
  unfolding insert
  create t name default_value description s = record s {
    vars = λ q.
        if s.next == q
        then record { ty = t; var = new_var T t name default_value description }
        else s.vars q;
    next = s.next + 1;
    datas = insert name s.next s.datas;
  }

  found_or_new : (t : Ty) → Bytes → Val t → Bytes → Configs → Option ℕ → Result (Configs × Option ℕ)
  unfolding cast create
  found_or_new t name default_value description s (some p) = ok (s, cast t p s)
  found_or_new t name default_value description s none =
      if not (is_name name)
      then fail invalid_argument
      else ok (create t name default_value description s, some s.next)

  -- `Lookup(name, default_value, description)`; the pointer is null where the types differ.
  unfoldable pub lookup_or_new :
      (t : Ty) → Bytes → Val t → Bytes → Configs → Result (Configs × Option ℕ)
  unfolding lookup_base found_or_new
  lookup_or_new t name default_value description s =
      found_or_new t name default_value description s (lookup_base name s)

  visit_all {ℓ} : {S : Type ℓ} → (AnyVar → S → S) → (ℕ → AnyVar) → List (Bytes × ℕ) → S → S
  visit_all cb vars [] z = z
  visit_all cb vars ((k, p) ∷ d) z = visit_all cb vars d (cb (vars p) z)

  -- `Visit`, on what the callback does to a state of its own.
  unfoldable pub visit {ℓ} : {S : Type ℓ} → (AnyVar → S → S) → Configs → S → S
  unfolding visit_all
  visit cb s z = visit_all cb s.vars s.datas z
