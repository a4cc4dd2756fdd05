-- ===== src/Config/Document.antt =====
-- What atpdxy/config.h and atpdxy/log.cpp use of yaml-cpp to read and to build documents, as a
-- parameter beside `Yaml`, and what they rely on, as named laws.
use atpdxy.Common.{◌≡◌, false, Option, none, some, List, [], ◌∷◌, if◌then◌else◌, All}
use atpdxy.Common.Bytes.{Bytes, bytes_eq}
use atpdxy.Config.Yaml.{Yaml}

-- `load` is YAML::Load, `elements` what `size` and `operator[]` on indices give, `field` what
-- `operator[]` on a key gives, where the inner option says whether the node is defined, `as_string`
-- is `as<std::string>`; `none` stands for an exception. `text` makes a node of a string, `sequence`
-- makes one by `push_back` in order, and `mapping` one by assignments to keys in order.
pub record Documents (Y : Yaml) : Type 0 where
  pub load : Bytes → Option Y.Node
  pub elements : Y.Node → List Y.Node
  pub field : Y.Node → Bytes → Option (Option Y.Node)
  pub as_string : Y.Node → Option Bytes
  pub text : Bytes → Y.Node
  pub sequence : List Y.Node → Y.Node
  pub mapping : List (Bytes × Y.Node) → Y.Node

abbrev pub find_key {ℓ} : {A : Type ℓ} → Bytes → List (Bytes × A) → Option A
find_key k [] = none
find_key k ((j, v) ∷ kvs) = if bytes_eq k j then some v else find_key k kvs

-- Each key is there once.
abbrev pub HasKeys {ℓ} : {A : Type ℓ} → List (Bytes × A) → Type 0
HasKeys [] = Unit
HasKeys ((k, v) ∷ kvs) = All (λ e. bytes_eq k e.0 ≡ false) kvs × HasKeys kvs

-- A key with a value is a scalar.
abbrev pub entries : (Y : Yaml) → List (Y.Node × Y.Node) → List (Bytes × Y.Node)
entries Y [] = []
entries Y ((k, v) ∷ ms) = (Y.scalar k, v) ∷ entries Y ms

-- A built node is read as it was built, and is written and loaded again.
pub record DocumentLaws (Y : Yaml) (D : Documents Y) : Type 0 where
  pub load-dump : (n : Y.Node) → D.load (Y.dump n) ≡ some n
  pub as_string-text : (s : Bytes) → D.as_string (D.text s) ≡ some s
  pub elements-sequence : (ns : List Y.Node) → D.elements (D.sequence ns) ≡ ns
  pub field-mapping :
      (kvs : List (Bytes × Y.Node)) (k : Bytes)
      → HasKeys kvs
      → D.field (D.mapping kvs) k ≡ some (find_key k kvs)
  pub members-mapping :
      (kvs : List (Bytes × Y.Node)) → HasKeys kvs → entries Y (Y.members (D.mapping kvs)) ≡ kvs
