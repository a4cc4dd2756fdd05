-- ===== src/Tests/Configs.antt =====
-- The variables and documents of atpdxy/config.h and atpdxy/config.cpp, with small value types and
-- documents in place of the parameters.
use mathlib.Core.Bool.{Bool-discrete}
use atpdxy.Common.{
  ℕ, suc, ◌+◌, ◌<◌, ◌≡◌, refl, Bool, true, false, not, Option, none, some, List, [], ◌∷◌, ◌==◌,
  if◌then◌else◌, arith, All,
}
use atpdxy.Common.Bytes.{Bytes, codes, bytes_eq}
use atpdxy.Common.Result.{ok}
use atpdxy.Config.Var.{Types, new_var, Var, Listener}
use atpdxy.Config.Table.{Configs, is_name, lookup, lookup_base, lookup_or_new}
use atpdxy.Config.Table.Lookup.{IsTable, lookup_again}
use atpdxy.Config.Yaml.{Yaml}
use atpdxy.Config.Load.{list_all_member, load_from_yaml}
use atpdxy.Config.Load.Members.{IsKey}
use atpdxy.Config.Load.Frame.{IsUnnamed, Kept, load_from_yaml_lem}

abbrev pub Value : Bool → Type 0
Value true = ℕ
Value false = Bytes

abbrev pub same : (t : Bool) → Value t → Value t → Bool
same true m n = m == n
same false a b = bytes_eq a b

-- One digit, or any text.
abbrev pub read : (t : Bool) → Bytes → Option (Value t)
read true (c ∷ []) = some c
read true _ = none
read false s = some s

abbrev pub show : (t : Bool) → Value t → Option Bytes
show true n = some (n ∷ [])
show false s = some s

abbrev pub types : Types
types = record {
  Ty = Bool;
  ty_dec = Bool-discrete;
  Val = Value;
  val_eq = same;
  from_str = read;
  to_str = show;
  Effects = ℕ;
}

abbrev pub counted : Listener types true
counted old new n = n + 1

abbrev pub level : Var types true
level = record {
  name = codes "level";
  description = codes "how much is logged";
  val = 3;
  cbs = (4, counted) ∷ [];
}

-- One variable in the table.
abbrev one_var : Configs types
one_var = record {
  vars = λ p. record { ty = true; var = level };
  next = 1;
  datas = (codes "level", 0) ∷ [];
  effects = 0;
}

one_var-IsTable : IsTable types one_var
unfolding is_name
one_var-IsTable = ((refl, omega arith, refl), tt)

abbrev two_vars : Configs types
two_vars = record {
  vars = λ q.
      if 1 == q
      then record { ty = false; var = new_var types false (codes "file") (codes "a") [] }
      else record { ty = true; var = level };
  next = 2;
  datas = (codes "file", 1) ∷ (codes "level", 0) ∷ [];
  effects = 0;
}

lookup_again_example :
    ((w : ℕ) (text : Bytes)
      → lookup_or_new types true (codes "level") w text one_var ≡ ok (one_var, some 0))
    × (lookup types true (codes "level") one_var ≡ some 0)
    × ((j : Bytes)
        → bytes_eq j (codes "level") ≡ false
        → lookup_base types j one_var ≡ lookup_base types j one_var)
unfolding lookup_or_new bytes_eq
lookup_again_example = lookup_again types one_var true (codes "level") 9 [] 0 refl

-- Documents: a text, or a map with one member.
pub data Doc : Type 0 where
  leaf : Bytes → Doc
  one : Bytes → Doc → Doc

abbrev pub is_one : Doc → Bool
is_one (leaf s) = false
is_one (one k d) = true

abbrev pub text_of : Doc → Bytes
text_of (leaf s) = s
text_of (one k d) = []

abbrev pub members_of : Doc → List (Doc × Doc)
members_of (leaf s) = []
members_of (one k d) = (leaf k, d) ∷ []

abbrev pub yaml : Yaml
yaml = record {
  Node = Doc;
  is_map = is_one;
  is_scalar = λ d. not (is_one d);
  scalar = text_of;
  members = members_of;
  dump = λ d. codes "{...}";
}

abbrev depth : Doc → ℕ
depth (leaf s) = 0
depth (one k d) = suc (depth d)

depth-falls : (d : Doc) → All (λ m. depth m.1 < depth d) (members_of d)
depth-falls (leaf s) = tt
depth-falls (one k d) = (omega arith, tt)

abbrev document : Doc
document = one (codes "level") (leaf (codes "9"))

load_from_yaml_lem_example :
    (ns : List (Bytes × Doc)) × (s' : Configs types) × (list_all_member yaml 2 [] document
      ≡ some ns)
    × (load_from_yaml yaml types 2 document one_var ≡ some s')
    × All (IsKey yaml) ns
    × Kept yaml types one_var s'
    × ((p : ℕ) → IsUnnamed yaml types one_var p ns → s'.vars p ≡ one_var.vars p)
load_from_yaml_lem_example =
    load_from_yaml_lem yaml types depth (record { falls = depth-falls }) 2 document one_var
      (omega arith)
