-- ===== src/Config/Load/Members.antt =====
-- The keys that ListAllMember in atpdxy/config.cpp collects.
use mathlib.Core.Option.{some-injective}
use atpdxy.Common.{
  ℕ, zero, suc, ◌≤◌, ◌<◌, ◌≡◌, refl, subst, inl, inr, true, not, Option, none, some, List, [], ◌∷◌,
  ◌++◌, arith, if◌then◌else◌, Bool-cases, All, All-append,
}
use atpdxy.Common.Bytes.{Bytes}
use atpdxy.Config.Table.{is_name}
use atpdxy.Config.Yaml.{Yaml, IsFinite}
use atpdxy.Config.Load.{append_to, child_key, list_members, list_all_member}

module _ (Y : Yaml) where
  open Y use {Node, is_map, is_scalar, scalar, members, dump}

  -- With more fuel than the document is high, ListAllMember ends.
  module _ (height : Node → ℕ) (finite : IsFinite Y height) where
    list_members-some :
        (f : ℕ) (rec : Bytes → Node → Option (List (Bytes × Node))) (prefix : Bytes)
        (ms : List (Node × Node))
        → ((key : Bytes) (n : Node)
            → height n < f
            → (r : List (Bytes × Node)) × (rec key n ≡ some r))
        → All (λ m. height m.1 < f) ms
        → (r : List (Bytes × Node)) × (list_members Y rec prefix ms ≡ some r)
    unfolding list_members
    list_members-some f rec prefix [] total h = ([], refl)
    list_members-some f rec prefix ((k, v) ∷ ms) total h =
        let (a, e) = total (child_key Y prefix k) v h.0 in
        let (b, g) = list_members-some f rec prefix ms total h.1 in (a ++ b, rw (e, g))

    All-lt :
        (a f : ℕ) (ms : List (Node × Node))
        → a ≤ f
        → All (λ m. height m.1 < a) ms
        → All (λ m. height m.1 < f) ms
    All-lt a f [] le h = tt
    All-lt a f (m ∷ ms) le h = (omega arith, All-lt a f ms le h.1)

    pub list_all_member-some :
        (f : ℕ) (prefix : Bytes) (n : Node)
        → height n < f
        → (r : List (Bytes × Node)) × (list_all_member Y f prefix n ≡ some r)
    unfolding list_all_member
    list_all_member-some zero prefix n lt = absurd (omega arith)
    list_all_member-some (suc f) prefix n lt =
        let (b, g) =
          list_members-some f (list_all_member Y f) prefix (members n) (list_all_member-some f)
            (All-lt (height n) f (members n) (omega arith) (finite.falls n)) in
        elim (Bool-cases (not (is_name prefix))) [
          | inl e ↦ ([], rw e)
          | inr e ↦ elim (Bool-cases (is_map n)) [
            | inl m ↦ ((prefix, n) ∷ b, rw (e, m, g))
            | inr m ↦ ((prefix, n) ∷ [], rw (e, m))
          ]
        ]

  -- Every key that is collected is a well-formed name, so lower-casing it in LoadFromYaml changes
  -- nothing: a key with a capital letter in it is left out here, with all that is below it.
  abbrev pub IsKey : Bytes × Node → Type 0
  IsKey (k, n) = is_name k ≡ true

  append_to-All :
      (P : Bytes × Node → Type 0) (a b : Option (List (Bytes × Node))) {r : List (Bytes × Node)}
      → ((xs : List (Bytes × Node)) → a ≡ some xs → All P xs)
      → ((ys : List (Bytes × Node)) → b ≡ some ys → All P ys)
      → append_to a b ≡ some r
      → All P r
  append_to-All P none b h k e = absurd (cc)
  append_to-All P (some xs) none h k e = absurd (cc)
  append_to-All P (some xs) (some ys) h k e =
      subst (All P) (some-injective (xs ++ ys) _ e) (All-append P xs ys (h xs refl) (k ys refl))

  list_members-IsKey :
      (rec : Bytes → Node → Option (List (Bytes × Node))) (prefix : Bytes) (ms : List (Node × Node))
      {r : List (Bytes × Node)}
      → ((key : Bytes) (n : Node) (xs : List (Bytes × Node)) → rec key n ≡ some xs → All IsKey xs)
      → list_members Y rec prefix ms ≡ some r
      → All IsKey r
  unfolding list_members
  list_members-IsKey rec prefix [] h e = subst (All IsKey) (some-injective [] _ e) tt
  list_members-IsKey rec prefix ((k, v) ∷ ms) h e =
      append_to-All IsKey (rec (child_key Y prefix k) v) (list_members Y rec prefix ms)
        (h (child_key Y prefix k) v) (λ ys g. list_members-IsKey rec prefix ms h g) e

  below_IsKey :
      (prefix : Bytes) (n : Node) (below : Option (List (Bytes × Node))) (r : List (Bytes × Node))
      → ((ys : List (Bytes × Node)) → below ≡ some ys → All IsKey ys)
      → (if not (is_name prefix)
          then some []
          else append_to (some ((prefix, n) ∷ [])) (if is_map n then below else some []))
        ≡ some r
      → All IsKey r
  below_IsKey prefix n below r h e = elim (Bool-cases (is_name prefix)) [
    | inr k ↦ subst (All IsKey) (some-injective [] r (rw k at e)) tt
    | inl k ↦
        append_to-All IsKey (some ((prefix, n) ∷ [])) (if is_map n then below else some [])
          (λ xs x. subst (All IsKey) (some-injective _ xs x) (k, tt))
          (λ ys y. elim (Bool-cases (is_map n)) [
            | inl m ↦ h ys (rw m at y)
            | inr m ↦ subst (All IsKey) (some-injective [] ys (rw m at y)) tt
          ])
          (rw k at e)
  ]

  pub list_all_member-IsKey :
      (f : ℕ) (prefix : Bytes) (n : Node) (r : List (Bytes × Node))
      → list_all_member Y f prefix n ≡ some r
      → All IsKey r
  unfolding list_all_member
  list_all_member-IsKey zero prefix n r e = absurd (cc)
  list_all_member-IsKey (suc f) prefix n r e =
      below_IsKey prefix n (list_members Y (list_all_member Y f) prefix (members n)) r
        (λ ys g.
          list_members-IsKey (list_all_member Y f) prefix (members n) (list_all_member-IsKey f) g)
        e
