-- ===== src/Config/Yaml.antt =====
-- What atpdxy/config.h and atpdxy/config.cpp use of YAML::Node, as a parameter: yaml-cpp is not part
-- of the repository.
use atpdxy.Common.{ℕ, ◌<◌, Bool, List, All}
use atpdxy.Common.Bytes.{Bytes}

-- `members` is the iteration over a map; `dump` is what `operator<<` writes.
pub record Yaml : Type 1 where
  pub Node : Type 0
  pub is_map : Node → Bool
  pub is_scalar : Node → Bool
  pub scalar : Node → Bytes
  pub members : Node → List (Node × Node)
  pub dump : Node → Bytes

-- The nodes of a document are finite trees: a height falls from a map to the values in it.
pub record IsFinite (Y : Yaml) (height : Y.Node → ℕ) : Type 0 where
  pub falls : (n : Y.Node) → All (λ m. height m.1 < height n) (Y.members n)
