-- ===== src/Config/Convert/Insertion.antt =====
-- Insertion of elements that are new into the ordered and unordered containers of atpdxy/config.h.
use mathlib.Core.List.{append_assoc, append-nil}
use atpdxy.Common.{
  ◌≡◌, refl, sym, ap, ◌∙◌, Bool, true, false, List, [], ◌∷◌, ◌++◌, arith, All, All-append,
}
use atpdxy.Common.Bytes.{Bytes, bytes_eq, bytes_eq_iff, bytes_lt}
use atpdxy.Config.Document.{HasKeys}
use atpdxy.Config.Convert.{
  insert_ordered, insert_unordered, insert_all, insert_pair, insert_pair_unordered,
}

-- The relation holds from each element to all behind it.
abbrev pub Pairwise {ℓ κ} : {A : Type ℓ} → (A → A → Type κ) → List A → Type κ
Pairwise R [] = Unit
Pairwise R (x ∷ xs) = All (R x) xs × Pairwise R xs

pub bytes_lt_asymm : (a b : Bytes) → bytes_lt a b ≡ true → bytes_lt b a ≡ false
unfolding bytes_lt
bytes_lt_asymm [] [] h = refl
bytes_lt_asymm [] (y ∷ b) h = refl
bytes_lt_asymm (x ∷ a) [] h = cc
bytes_lt_asymm (x ∷ a) (y ∷ b) h = ground (arith, bytes_lt_asymm a b)

pub bytes_lt-bytes_eq : (a b : Bytes) → bytes_lt a b ≡ true → bytes_eq a b ≡ false
unfolding bytes_lt bytes_eq
bytes_lt-bytes_eq [] [] h = cc
bytes_lt-bytes_eq [] (y ∷ b) h = refl
bytes_lt-bytes_eq (x ∷ a) [] h = cc
bytes_lt-bytes_eq (x ∷ a) (y ∷ b) h = ground (arith, bytes_lt-bytes_eq a b)

pub bytes_eq_comm : (a b : Bytes) → bytes_eq a b ≡ false → bytes_eq b a ≡ false
bytes_eq_comm a b h = ground (arith, bytes_eq_iff a b, bytes_eq_iff b a)

module _ {T : Type 0} where
  pub imp-All :
      (P Q : Bytes × T → Type 0) (xs : List (Bytes × T))
      → ((x : Bytes × T) → P x → Q x)
      → All P xs
      → All Q xs
  imp-All P Q [] f h = tt
  imp-All P Q (x ∷ xs) f h = (f x h.0, imp-All P Q xs f h.1)

  pub sorted-HasKeys :
      (kvs : List (Bytes × T)) → Pairwise (λ d e. bytes_lt d.0 e.0 ≡ true) kvs → HasKeys kvs
  sorted-HasKeys [] h = tt
  sorted-HasKeys ((k, v) ∷ kvs) h =
      (imp-All _ _ kvs (λ e l. bytes_lt-bytes_eq k e.0 l) h.0, sorted-HasKeys kvs h.1)

  pub keys-Pairwise :
      (kvs : List (Bytes × T)) → HasKeys kvs → Pairwise (λ d e. bytes_eq e.0 d.0 ≡ false) kvs
  keys-Pairwise [] h = tt
  keys-Pairwise ((k, v) ∷ kvs) h =
      (imp-All _ _ kvs (λ e l. bytes_eq_comm k e.0 l) h.0, keys-Pairwise kvs h.1)

  pub insert_ordered_last :
      (lt : T → T → Bool) (asymm : (v w : T) → lt v w ≡ true → lt w v ≡ false) (v : T)
      (acc : List T)
      → All (λ w. lt w v ≡ true) acc
      → insert_ordered lt v acc ≡ acc ++ v ∷ []
  unfolding insert_ordered
  insert_ordered_last lt asymm v [] h = refl
  insert_ordered_last lt asymm v (w ∷ acc) h =
      rw (asymm w v h.0, h.0) (ap (◌∷◌ w) (insert_ordered_last lt asymm v acc h.1))

  pub insert_unordered_last :
      (eq : T → T → Bool) (v : T) (acc : List T)
      → All (λ w. eq v w ≡ false) acc
      → insert_unordered eq v acc ≡ acc ++ v ∷ []
  unfolding insert_unordered
  insert_unordered_last eq v [] h = refl
  insert_unordered_last eq v (w ∷ acc) h =
      rw (h.0) (ap (◌∷◌ w) (insert_unordered_last eq v acc h.1))

  pub insert_pair_last :
      (kv : Bytes × T) (acc : List (Bytes × T))
      → All (λ e. bytes_lt e.0 kv.0 ≡ true) acc
      → insert_pair kv acc ≡ acc ++ kv ∷ []
  unfolding insert_pair
  insert_pair_last (k, v) [] h = refl
  insert_pair_last (k, v) ((j, w) ∷ acc) h =
      rw (bytes_lt_asymm j k h.0, h.0) (ap (◌∷◌ (j, w)) (insert_pair_last (k, v) acc h.1))

  pub insert_pair_unordered_last :
      (kv : Bytes × T) (acc : List (Bytes × T))
      → All (λ e. bytes_eq kv.0 e.0 ≡ false) acc
      → insert_pair_unordered kv acc ≡ acc ++ kv ∷ []
  unfolding insert_pair_unordered
  insert_pair_unordered_last (k, v) [] h = refl
  insert_pair_unordered_last (k, v) ((j, w) ∷ acc) h =
      rw (h.0) (ap (◌∷◌ (j, w)) (insert_pair_unordered_last (k, v) acc h.1))

  -- Where each insertion is one at the end, the elements come in as they stand.
  module _ (R : T → T → Type 0) (ins : T → List T → List T)
      (last : (v : T) (acc : List T) → All (λ w. R w v) acc → ins v acc ≡ acc ++ v ∷ []) where
    push-All :
        (v : T) (vs acc : List T)
        → All (λ u. All (λ w. R w u) acc) vs
        → All (R v) vs
        → All (λ u. All (λ w. R w u) (acc ++ v ∷ [])) vs
    push-All v [] acc h k = tt
    push-All v (u ∷ vs) acc h k =
        (All-append (λ w. R w u) acc (v ∷ []) h.0 (k.0, tt), push-All v vs acc h.1 k.1)

    insert_all_onto :
        (vs acc : List T)
        → All (λ v. All (λ w. R w v) acc) vs
        → Pairwise R vs
        → insert_all ins vs acc ≡ acc ++ vs
    unfolding insert_all
    insert_all_onto [] acc h p = sym (append-nil acc)
    insert_all_onto (v ∷ vs) acc h p =
        ap (insert_all ins vs) (last v acc h.0)
        ∙ insert_all_onto vs (acc ++ v ∷ []) (push-All v vs acc h.1 p.0) p.1
        ∙ append_assoc acc (v ∷ []) vs

    pub insert_all_new : (vs : List T) → Pairwise R vs → insert_all ins vs [] ≡ vs
    insert_all_new vs p = insert_all_onto vs [] (none_before vs) p
      where
        none_before : (us : List T) → All (λ v. All (λ w. R w v) []) us
        none_before [] = tt
        none_before (u ∷ us) = (tt, none_before us)
