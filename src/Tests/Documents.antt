-- ===== src/Tests/Documents.antt =====
-- Documents in place of yaml-cpp: a node is a text, in which a sequence is written as its elements,
-- each behind its length, and a mapping as the sequence of its keys and values.
use atpdxy.Common.{
  ℕ, zero, suc, ◌≤◌, ◌≡◌, refl, ap, ◌∙◌, true, false, Option, none, some, List, [], ◌∷◌, ◌++◌, map,
  arith, length, length-append,
}
use atpdxy.Common.Bytes.{Bytes, codes, bytes_lt}
use atpdxy.Config.Yaml.{Yaml}
use atpdxy.Config.Document.{Documents, DocumentLaws, find_key, entries}
use atpdxy.Config.Convert.{◌>>=◌, to_vector, to_map, from_map}
use atpdxy.Config.Convert.RoundTrip.{IsReread, IsLoaded, map_lem}
use atpdxy.Log.Document.{from_define, to_define, manager_yaml}
use atpdxy.Log.Document.RoundTrip.{kept, to_define-from_define}
use atpdxy.Log.Document.Loggers.{logger_define, to_vector-manager_yaml}
use atpdxy.Log.Manager.{IsManaged}
use atpdxy.Log.Configured.{
  log_defines_var, log_initer, log_initer-IsInitialised, assign_texts, assign_texts-IsManaged,
}
use atpdxy.Tests.Logs.{net_define, manager, manager-IsManaged}

abbrev take : ℕ → Bytes → Bytes
take zero s = []
take (suc n) [] = []
take (suc n) (c ∷ s) = c ∷ take n s

abbrev drop : ℕ → Bytes → Bytes
drop zero s = s
drop (suc n) [] = []
drop (suc n) (c ∷ s) = drop n s

abbrev encode : List Bytes → Bytes
encode [] = []
encode (n ∷ ns) = length n ∷ (n ++ encode ns)

abbrev decode : ℕ → Bytes → List Bytes
decode zero s = []
decode (suc f) [] = []
decode (suc f) (k ∷ s) = take k s ∷ decode f (drop k s)

take-append : (n s : Bytes) → take (length n) (n ++ s) ≡ n
take-append [] s = refl
take-append (c ∷ n) s = ap (◌∷◌ c) (take-append n s)

drop-append : (n s : Bytes) → drop (length n) (n ++ s) ≡ s
drop-append [] s = refl
drop-append (c ∷ n) s = drop-append n s

decode-encode : (f : ℕ) (ns : List Bytes) → length ns ≤ f → decode f (encode ns) ≡ ns
decode-encode zero [] le = refl
decode-encode (suc f) [] le = refl
decode-encode zero (n ∷ ns) le = absurd (omega arith)
decode-encode (suc f) (n ∷ ns) le =
    rw (take-append n (encode ns), drop-append n (encode ns))
      (ap (◌∷◌ n) (decode-encode f ns (omega arith)))

length-encode : (ns : List Bytes) → length ns ≤ length (encode ns)
length-encode [] = omega arith
length-encode (n ∷ ns) = omega (arith, length-append {0} n (encode ns), length-encode ns)

abbrev elements_of : Bytes → List Bytes
elements_of s = decode (length s) s

abbrev flat : List (Bytes × Bytes) → List Bytes
flat [] = []
flat ((k, v) ∷ kvs) = k ∷ (v ∷ flat kvs)

abbrev pairs : List Bytes → List (Bytes × Bytes)
pairs [] = []
pairs (k ∷ []) = []
pairs (k ∷ (v ∷ ns)) = (k, v) ∷ pairs ns

pairs-flat : (kvs : List (Bytes × Bytes)) → pairs (flat kvs) ≡ kvs
pairs-flat [] = refl
pairs-flat ((k, v) ∷ kvs) = ap (◌∷◌ (k, v)) (pairs-flat kvs)

abbrev plain : Yaml
plain = record {
  Node = Bytes;
  is_map = λ n. false;
  is_scalar = λ n. true;
  scalar = λ n. n;
  members = λ n. pairs (elements_of n);
  dump = λ n. n;
}

abbrev plain_documents : Documents plain
plain_documents = record {
  load = λ s. some s;
  elements = elements_of;
  field = λ n k. some (find_key k (pairs (elements_of n)));
  as_string = λ n. some n;
  text = λ s. s;
  sequence = encode;
  mapping = λ kvs. encode (flat kvs);
}

elements_of-encode : (ns : List Bytes) → elements_of (encode ns) ≡ ns
elements_of-encode ns = decode-encode (length (encode ns)) ns (length-encode ns)

entries-plain : (kvs : List (Bytes × Bytes)) → entries plain kvs ≡ kvs
entries-plain [] = refl
entries-plain ((k, v) ∷ kvs) = ap (◌∷◌ (k, v)) (entries-plain kvs)

plain_laws : DocumentLaws plain plain_documents
plain_laws = record {
  load-dump = λ n. refl;
  as_string-text = λ s. refl;
  elements-sequence = elements_of-encode;
  field-mapping = λ kvs k keys.
      ap (λ ns. some (find_key k (pairs ns))) (elements_of-encode (flat kvs))
      ∙ ap (λ ms. some (find_key k ms)) (pairs-flat kvs);
  members-mapping = λ kvs keys.
      entries-plain (pairs (elements_of (encode (flat kvs))))
      ∙ ap pairs (elements_of-encode (flat kvs))
      ∙ pairs-flat kvs;
}

-- A number is written as one character.
abbrev digit : Bytes → Option ℕ
digit (c ∷ []) = some c
digit _ = none

abbrev show : ℕ → Option Bytes
show n = some (n ∷ [])

digit-IsLoaded : (n : ℕ) → IsLoaded plain plain_documents plain_laws digit show n
digit-IsLoaded n = (n ∷ [], n ∷ [], refl, refl, refl)

abbrev two_keys : List (Bytes × ℕ)
two_keys = (codes "a", 7) ∷ (codes "b", 4) ∷ []

map_lem_example :
    IsReread (to_map plain plain_documents digit) (from_map plain plain_documents show) two_keys
    × IsLoaded plain plain_documents plain_laws
        (to_map plain plain_documents digit)
        (from_map plain plain_documents show)
        two_keys
unfolding bytes_lt
map_lem_example =
    map_lem plain plain_documents plain_laws digit show two_keys ((refl, tt), (tt, tt))
      (digit-IsLoaded 7, (digit-IsLoaded 4, tt))

to_define-from_define_example :
    (from_define plain plain_documents net_define >>= to_define plain plain_documents)
    ≡ some (kept net_define)
to_define-from_define_example = to_define-from_define plain plain_documents plain_laws net_define

to_vector-manager_yaml_example :
    (manager_yaml plain plain_documents manager
      >>= to_vector plain plain_documents (to_define plain plain_documents))
    ≡ some (map (λ e. logger_define manager.store (manager.store.loggers e.1)) manager.loggers)
to_vector-manager_yaml_example = to_vector-manager_yaml plain plain_documents plain_laws manager

assign_texts-IsManaged_example :
    IsManaged
      (assign_texts plain plain_documents
        (codes "x" ∷ [])
        (log_initer plain plain_documents 0 (log_defines_var plain plain_documents)).2
        manager).1
assign_texts-IsManaged_example =
    assign_texts-IsManaged plain plain_documents (codes "x" ∷ [])
      (log_initer plain plain_documents 0 (log_defines_var plain plain_documents)).2 manager
      (log_initer-IsInitialised plain plain_documents 0) manager-IsManaged
