-- ===== src/Config/Convert.antt =====
-- atpdxy/config.h: the specialisations of LexicalCast for containers, given those for the elements.
-- Vectors and lists are lists; a set is the list of its elements in order of iteration, and a map
-- that of its pairs. The iteration of the unordered containers is taken to be that of insertion.
pub mod Insertion
pub mod RoundTrip
use atpdxy.Common.{
  ℕ, ◌≡◌, Bool, true, false, ◌||◌, Option, none, some, List, [], ◌∷◌, ◌++◌, if◌then◌else◌,
}
use atpdxy.Common.Bytes.{Bytes, bytes_eq, bytes_lt}
use atpdxy.Config.Yaml.{Yaml}
use atpdxy.Config.Document.{Documents, entries}

infixl 5 ◌>>=◌
abbrev pub ◌>>=◌ {ℓ κ} : {A : Type ℓ} {B : Type κ} (o : Option A) → (A → Option B) → Option B
none >>= next = none
some value >>= next = next value

module _ {T : Type 0} where
  -- `insert` of std::set, for the order of the elements.
  pub insert_ordered : (T → T → Bool) → T → List T → List T
  insert_ordered lt v [] = v ∷ []
  insert_ordered lt v (w ∷ ws) =
      if lt v w then v ∷ (w ∷ ws) else if lt w v then w ∷ insert_ordered lt v ws else w ∷ ws

  -- `insert` of std::unordered_set, for the equality of the elements.
  pub insert_unordered : (T → T → Bool) → T → List T → List T
  insert_unordered eq v [] = v ∷ []
  insert_unordered eq v (w ∷ ws) = if eq v w then w ∷ ws else w ∷ insert_unordered eq v ws

  -- The values are inserted one after the other.
  pub insert_all : (T → List T → List T) → List T → List T → List T
  insert_all ins [] set = set
  insert_all ins (v ∷ vs) set = insert_all ins vs (ins v set)

  -- `insert` of std::map and of std::unordered_map: a key that is there keeps its value.
  pub insert_pair : Bytes × T → List (Bytes × T) → List (Bytes × T)
  insert_pair (k, v) [] = (k, v) ∷ []
  insert_pair (k, v) ((j, w) ∷ kvs) =
      if bytes_lt k j
      then (k, v) ∷ ((j, w) ∷ kvs)
      else if bytes_lt j k
      then (j, w) ∷ insert_pair (k, v) kvs
      else (j, w) ∷ kvs

  pub insert_pair_unordered : Bytes × T → List (Bytes × T) → List (Bytes × T)
  insert_pair_unordered (k, v) [] = (k, v) ∷ []
  insert_pair_unordered (k, v) ((j, w) ∷ kvs) =
      if bytes_eq k j then (j, w) ∷ kvs else (j, w) ∷ insert_pair_unordered (k, v) kvs

module _ (Y : Yaml) (D : Documents Y) {T : Type 0} where
  open Y use {Node, members, dump}
  open D use {load, elements, sequence, mapping}

  -- The loop over a sequence: each node is written, and its text converted.
  unfoldable pub read_nodes : (Bytes → Option T) → List Node → Option (List T)
  read_nodes from [] = some []
  read_nodes from (n ∷ ns) = do v ← from (dump n); vs ← read_nodes from ns; some (v ∷ vs)

  -- The loop over the elements of a container: each is converted, and its text loaded.
  pub write_nodes : (T → Option Bytes) → List T → Option (List Node)
  write_nodes to [] = some []
  write_nodes to (v ∷ vs) = do s ← to v; n ← load s; ns ← write_nodes to vs; some (n ∷ ns)

  -- The loops over a map.
  pub read_entries : (Bytes → Option T) → List (Bytes × Node) → Option (List (Bytes × T))
  read_entries from [] = some []
  read_entries from ((k, n) ∷ ns) = do
    v ← from (dump n)
    vs ← read_entries from ns
    some ((k, v) ∷ vs)

  pub write_entries : (T → Option Bytes) → List (Bytes × T) → Option (List (Bytes × Node))
  write_entries to [] = some []
  write_entries to ((k, v) ∷ vs) = do
    s ← to v
    n ← load s
    ns ← write_entries to vs
    some ((k, n) ∷ ns)

  -- LexicalCast<std::string, std::vector<T>>, and that for std::list.
  unfoldable pub to_vector : (Bytes → Option T) → Bytes → Option (List T)
  unfolding read_nodes
  to_vector from s = do n ← load s; read_nodes from (elements n)

  abbrev pub to_list : (Bytes → Option T) → Bytes → Option (List T)
  to_list from s = to_vector from s

  -- LexicalCast<std::vector<T>, std::string>, and those for std::list and for sets.
  pub from_vector : (T → Option Bytes) → List T → Option Bytes
  unfolding write_nodes
  from_vector to vs = do ns ← write_nodes to vs; some (dump (sequence ns))

  abbrev pub from_list : (T → Option Bytes) → List T → Option Bytes
  from_list to vs = from_vector to vs

  abbrev pub from_set : (T → Option Bytes) → List T → Option Bytes
  from_set to vs = from_vector to vs

  abbrev pub from_unordered_set : (T → Option Bytes) → List T → Option Bytes
  from_unordered_set to vs = from_vector to vs

  -- LexicalCast<std::string, std::set<T>>, and LexicalCast<std::string, std::unordered_set<T>>.
  pub to_set : (T → T → Bool) → (Bytes → Option T) → Bytes → Option (List T)
  unfolding to_vector insert_ordered insert_all
  to_set lt from s = do vs ← to_vector from s; some (insert_all (insert_ordered lt) vs [])

  pub to_unordered_set : (T → T → Bool) → (Bytes → Option T) → Bytes → Option (List T)
  unfolding to_vector insert_unordered insert_all
  to_unordered_set eq from s = do
    vs ← to_vector from s
    some (insert_all (insert_unordered eq) vs [])

  -- LexicalCast<std::string, std::map<std::string, T>>, and that for std::unordered_map.
  pub to_map : (Bytes → Option T) → Bytes → Option (List (Bytes × T))
  unfolding read_entries insert_pair insert_all
  to_map from s = do
    n ← load s
    kvs ← read_entries from (entries Y (members n))
    some (insert_all insert_pair kvs [])

  pub to_unordered_map : (Bytes → Option T) → Bytes → Option (List (Bytes × T))
  unfolding read_entries insert_pair_unordered insert_all
  to_unordered_map from s = do
    n ← load s
    kvs ← read_entries from (entries Y (members n))
    some (insert_all insert_pair_unordered kvs [])

  -- LexicalCast<std::map<std::string, T>, std::string>, and that for std::unordered_map.
  pub from_map : (T → Option Bytes) → List (Bytes × T) → Option Bytes
  unfolding write_entries
  from_map to kvs = do ns ← write_entries to kvs; some (dump (mapping ns))

  abbrev pub from_unordered_map : (T → Option Bytes) → List (Bytes × T) → Option Bytes
  from_unordered_map to kvs = from_map to kvs
