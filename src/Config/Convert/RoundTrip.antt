-- ===== src/Config/Convert/RoundTrip.antt =====
-- LexicalCast of atpdxy/config.h for containers: a container that is written and read again.
use atpdxy.Common.{◌≡◌, refl, ◌∙◌, Bool, true, false, Option, some, List, [], ◌∷◌, All}
use atpdxy.Common.Bytes.{Bytes, bytes_eq, bytes_lt}
use atpdxy.Config.Yaml.{Yaml}
use atpdxy.Config.Document.{Documents, DocumentLaws, HasKeys, entries}
use atpdxy.Config.Convert.{
  ◌>>=◌, insert_ordered, insert_unordered, insert_all, insert_pair, insert_pair_unordered,
  read_nodes, write_nodes, read_entries, write_entries, to_vector, from_vector, from_set,
  from_unordered_set, from_unordered_map, to_set, to_unordered_set, to_map, to_unordered_map,
  from_map,
}
use atpdxy.Config.Convert.Insertion.{
  Pairwise, sorted-HasKeys, keys-Pairwise, insert_ordered_last, insert_unordered_last,
  insert_pair_last, insert_pair_unordered_last, insert_all_new,
}

-- A value that is written as a text is read again from it.
abbrev pub IsReread {ℓ} : {T : Type ℓ} → (Bytes → Option T) → (T → Option Bytes) → T → Type ℓ
IsReread from to v = (s : Bytes) × (to v ≡ some s) × (from s ≡ some v)

module _ (Y : Yaml) (D : Documents Y) (laws : DocumentLaws Y D) where
  open Y use {Node, members, dump}
  open D use {load, elements, sequence, mapping}

  -- The text of the value is loaded, and the text of the node that this gives is converted to the
  -- value: what the conversions of a container ask of those of its elements.
  abbrev pub IsLoaded : {T : Type 0} → (Bytes → Option T) → (T → Option Bytes) → T → Type 0
  IsLoaded from to v =
      (s : Bytes) × (n : Node) × (to v ≡ some s) × (load s ≡ some n) × (from (dump n) ≡ some v)

  -- A container is written as one node, from which it is read.
  abbrev pub IsWritten : {T : Type 0} → (Bytes → Option T) → (T → Option Bytes) → T → Type 0
  IsWritten from to v = (n : Node) × (to v ≡ some (dump n)) × (from (dump n) ≡ some v)

  written :
      {T : Type 0} (from : Bytes → Option T) (to : T → Option Bytes) (v : T)
      → IsWritten from to v
      → IsReread from to v × IsLoaded from to v
  written from to v (n, e, k) = ((dump n, e, k), (dump n, n, e, laws.load-dump n, k))

  module _ {T : Type 0} (from : Bytes → Option T) (to : T → Option Bytes) where
    write_nodes_lem :
        (vs : List T)
        → All (IsLoaded from to) vs
        → (ns : List Node) × (write_nodes Y D to vs ≡ some ns) × (read_nodes Y D from ns ≡ some vs)
    unfolding write_nodes read_nodes
    write_nodes_lem [] h = ([], refl, refl)
    write_nodes_lem (v ∷ vs) h =
        let (s, n, e, l, k) = h.0 in
        let (ns, w, r) = write_nodes_lem vs h.1 in (n ∷ ns, rw (e, l, w), rw (k, r))

    write_entries_lem :
        (kvs : List (Bytes × T))
        → All (λ e. IsLoaded from to e.1) kvs
        → (ns : List (Bytes × Node)) × (write_entries Y D to kvs ≡ some ns)
          × (read_entries Y D from ns ≡ some kvs)
          × ((k : Bytes)
              → All (λ e. bytes_eq k e.0 ≡ false) kvs
              → All (λ e. bytes_eq k e.0 ≡ false) ns)
          × (HasKeys kvs → HasKeys ns)
    unfolding write_entries read_entries
    write_entries_lem [] h = ([], refl, refl, (λ k q. tt), λ q. tt)
    write_entries_lem ((j, v) ∷ kvs) h =
        let (s, n, e, l, k) = h.0 in
        let (ns, w, r, a, q) = write_entries_lem kvs h.1 in
        ((j, n) ∷ ns, rw (e, l, w), rw (k, r), (λ i z. (z.0, a i z.1)), λ z. (a j z.0, q z.1))

    vector-IsWritten :
        (vs : List T)
        → All (IsLoaded from to) vs
        → IsWritten (to_vector Y D from) (from_vector Y D to) vs
    unfolding to_vector from_vector
    vector-IsWritten vs h =
        let (ns, w, r) = write_nodes_lem vs h in
        (sequence ns, rw w, rw (laws.load-dump (sequence ns), laws.elements-sequence ns, r))

    set-IsWritten :
        (ins : List T → List T) (vs : List T) (cast : Bytes → Option (List T))
        → ((s : Bytes) → cast s ≡ (to_vector Y D from s >>= λ us. some (ins us)))
        → ins vs ≡ vs
        → All (IsLoaded from to) vs
        → IsWritten cast (from_vector Y D to) vs
    set-IsWritten ins vs cast is same h =
        let (n, e, k) = vector-IsWritten vs h in (n, e, is (dump n) ∙ rw (k, same))

    map-IsWritten :
        (ins : List (Bytes × T) → List (Bytes × T)) (kvs : List (Bytes × T))
        (cast : Bytes → Option (List (Bytes × T)))
        → ((s : Bytes)
            → cast s ≡ (
                load s >>= λ n.
                read_entries Y D from (entries Y (members n)) >>= λ us. some (ins us)))
        → ins kvs ≡ kvs
        → HasKeys kvs
        → All (λ e. IsLoaded from to e.1) kvs
        → IsWritten cast (from_map Y D to) kvs
    unfolding from_map
    map-IsWritten ins kvs cast is same keys h =
        let (ns, w, r, a, q) = write_entries_lem kvs h in
        (
          mapping ns,
          rw w,
          is (dump (mapping ns))
              ∙ rw (laws.load-dump (mapping ns), laws.members-mapping ns (q keys), r, same),
        )

    -- Where yaml-cpp reads back what it writes, and each element of a vector is converted to a
    -- text that loads as a document from which it is converted back, the vector is converted to a
    -- text and read back from it; and that text loads as a document that is read back so too, as
    -- containers of containers need it.
    pub vector_lem :
        (vs : List T)
        → All (IsLoaded from to) vs
        → IsReread (to_vector Y D from) (from_vector Y D to) vs
          × IsLoaded (to_vector Y D from) (from_vector Y D to) vs
    vector_lem vs h = written (to_vector Y D from) (from_vector Y D to) vs (vector-IsWritten vs h)

    -- The same for sets, whose elements are in order.
    pub set_lem :
        (lt : T → T → Bool) (asymm : (v w : T) → lt v w ≡ true → lt w v ≡ false) (vs : List T)
        → Pairwise (λ v w. lt v w ≡ true) vs
        → All (IsLoaded from to) vs
        → IsReread (to_set Y D lt from) (from_set Y D to) vs
          × IsLoaded (to_set Y D lt from) (from_set Y D to) vs
    unfolding to_set
    set_lem lt asymm vs sorted h = written (to_set Y D lt from) (from_set Y D to) vs (
        set-IsWritten (λ us. insert_all (insert_ordered lt) us []) vs (to_set Y D lt from)
          (λ s. refl)
          (insert_all_new (λ v w. lt v w ≡ true) (insert_ordered lt) (insert_ordered_last lt asymm)
            vs sorted)
          h)

    -- The same for unordered sets, whose elements are distinct.
    pub unordered_set_lem :
        (eq : T → T → Bool) (vs : List T)
        → Pairwise (λ v w. eq w v ≡ false) vs
        → All (IsLoaded from to) vs
        → IsReread (to_unordered_set Y D eq from) (from_unordered_set Y D to) vs
          × IsLoaded (to_unordered_set Y D eq from) (from_unordered_set Y D to) vs
    unfolding to_unordered_set
    unordered_set_lem eq vs distinct h =
        written (to_unordered_set Y D eq from) (from_unordered_set Y D to) vs (
          set-IsWritten (λ us. insert_all (insert_unordered eq) us []) vs
            (to_unordered_set Y D eq from) (λ s. refl)
            (insert_all_new (λ v w. eq w v ≡ false) (insert_unordered eq) (insert_unordered_last eq)
              vs distinct)
            h)

    -- Where yaml-cpp reads back what it writes, and each value of a map, whose keys are in order,
    -- is converted to a text that loads as a document from which it is converted back, the map is
    -- converted to a text and read back from it; and that text loads as a document that is read
    -- back so too, as containers of containers need it.
    pub map_lem :
        (kvs : List (Bytes × T))
        → Pairwise (λ d e. bytes_lt d.0 e.0 ≡ true) kvs
        → All (λ e. IsLoaded from to e.1) kvs
        → IsReread (to_map Y D from) (from_map Y D to) kvs
          × IsLoaded (to_map Y D from) (from_map Y D to) kvs
    unfolding to_map
    map_lem kvs sorted h = written (to_map Y D from) (from_map Y D to) kvs (
        map-IsWritten (λ us. insert_all insert_pair us []) kvs (to_map Y D from) (λ s. refl)
          (insert_all_new (λ d e. bytes_lt d.0 e.0 ≡ true) insert_pair insert_pair_last kvs sorted)
          (sorted-HasKeys kvs sorted) h)

    -- The same for unordered maps, whose keys are distinct.
    pub unordered_map_lem :
        (kvs : List (Bytes × T))
        → HasKeys kvs
        → All (λ e. IsLoaded from to e.1) kvs
        → IsReread (to_unordered_map Y D from) (from_unordered_map Y D to) kvs
          × IsLoaded (to_unordered_map Y D from) (from_unordered_map Y D to) kvs
    unfolding to_unordered_map
    unordered_map_lem kvs keys h =
        written (to_unordered_map Y D from) (from_unordered_map Y D to) kvs (
          map-IsWritten (λ us. insert_all insert_pair_unordered us []) kvs
            (to_unordered_map Y D from) (λ s. refl)
            (insert_all_new (λ d e. bytes_eq e.0 d.0 ≡ false) insert_pair_unordered
              insert_pair_unordered_last kvs (keys-Pairwise kvs keys))
            keys h)
