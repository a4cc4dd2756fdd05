-- ===== src/Config/Table/Lookup.antt =====
-- The table of atpdxy/config.h under Config::Lookup.
use mathlib.Core.Logic.{if_pos, if_neg}
use mathlib.Core.Option.{some-injective}
use atpdxy.Common.{
  ℕ, ◌<◌, ◌≡◌, refl, ap, ◌∙◌, subst, inl, inr, true, false, Option, none, some, List, [], ◌∷◌,
  arith, ◌==◌, if◌then◌else◌, ==_self, Bool-cases, All,
}
use atpdxy.Common.Bytes.{Bytes, bytes_eq, bytes_eq_iff, bytes_eq_self, bytes_lt}
use atpdxy.Common.Result.{ok, ok-injective}
use atpdxy.Config.Var.{new_var, Types}
use atpdxy.Config.Table.{
  is_name, map-tolower, find, insert, lookup_base, cast, lookup, create, found_or_new,
  lookup_or_new, AnyVar, Configs,
}

module _ (T : Types) where
  open T use {Ty, ty_dec, Val, Effects}

  find-insert :
      (k j : Bytes) (p : ℕ) (d : List (Bytes × ℕ))
      → find T j (insert T k p d) ≡ (if bytes_eq j k then some p else find T j d)
  unfolding find insert
  find-insert k j p [] = refl
  find-insert k j p ((i, q) ∷ d) = ground (
    arith,
    bytes_eq_iff k j,
    bytes_eq_iff j k,
    bytes_eq_iff k i,
    bytes_eq_iff j i,
    find-insert k j p d,
  )

  -- An entry of the table: its key is a name, and is the name of the variable that it points to.
  abbrev pub IsEntry : (ℕ → AnyVar T) → ℕ → Bytes × ℕ → Type 0
  IsEntry vars next (k, p) = (is_name k ≡ true) × (p < next) × ((vars p).var.name ≡ k)

  abbrev pub IsTable : Configs T → Type 0
  IsTable s = All (IsEntry s.vars s.next) s.datas

  insert-All :
      (P : Bytes × ℕ → Type 0) (k : Bytes) (p : ℕ) (d : List (Bytes × ℕ))
      → P (k, p)
      → All P d
      → All P (insert T k p d)
  unfolding insert
  insert-All P k p [] h a = (h, tt)
  insert-All P k p ((j, q) ∷ d) h a = elim (Bool-cases (bytes_eq k j)) [
    | inl e ↦ rw e (h, a.1)
    | inr e ↦ elim (Bool-cases (bytes_lt k j)) [
      | inl l ↦ rw (e, l) (h, a)
      | inr l ↦ rw (e, l) (a.0, insert-All P k p d h a.1)
    ]
  ]

  IsEntry-create :
      (s : Configs T) (t : Ty) (name : Bytes) (v : Val t) (desc : Bytes) (d : List (Bytes × ℕ))
      → All (IsEntry s.vars s.next) d
      → let s' = create T t name v desc s in All (IsEntry s'.vars s'.next) d
  unfolding create
  IsEntry-create s t name v desc [] h = tt
  IsEntry-create s t name v desc ((k, p) ∷ d) h =
      let e : (s.next == p) ≡ false = ground arith in
      ((h.0.0, omega arith, rw e h.0.2), IsEntry-create s t name v desc d h.1)

  new_named :
      (s : Configs T) (t : Ty) (name : Bytes) (v : Val t) (desc : Bytes)
      → is_name name ≡ true
      → ((create T t name v desc s).vars s.next).var.name ≡ name
  unfolding create new_var
  new_named s t name v desc h = rw (==_self s.next) (map-tolower name h)

  create-IsTable :
      (s : Configs T) (t : Ty) (name : Bytes) (v : Val t) (desc : Bytes)
      → is_name name ≡ true
      → IsTable s
      → IsTable (create T t name v desc s)
  create-IsTable s t name v desc ok_name h =
      let s' = create T t name v desc s in
      unfold create in
      insert-All (IsEntry s'.vars s'.next) name s.next s.datas
        (ok_name, omega arith, new_named s t name v desc ok_name)
        (IsEntry-create s t name v desc s.datas h)

  found_or_new-IsTable :
      (s : Configs T) (t : Ty) (name : Bytes) (v : Val t) (desc : Bytes) (o : Option ℕ)
      {x : Configs T × Option ℕ}
      → IsTable s
      → found_or_new T t name v desc s o ≡ ok x
      → IsTable x.0
  unfolding found_or_new
  found_or_new-IsTable s t name v desc (some p) h e = subst (λ x. IsTable x.0) (ok-injective e) h
  found_or_new-IsTable s t name v desc none h e = elim (Bool-cases (is_name name)) [
    | inl n ↦
        subst (λ x. IsTable x.0) (ok-injective (rw n at e)) (create-IsTable s t name v desc n h)
    | inr n ↦ absurd (cc (rw n at e))
  ]

  -- If each key of the table is a well-formed name and is the name of the made variable behind
  -- it, this is still so after every Lookup with a default that does not throw.
  pub lookup_or_new-IsTable :
      (s : Configs T) (t : Ty) (name : Bytes) (v : Val t) (desc : Bytes) {x : Configs T × Option ℕ}
      → IsTable s
      → lookup_or_new T t name v desc s ≡ ok x
      → IsTable x.0
  unfolding lookup_or_new
  lookup_or_new-IsTable s t name v desc h e =
      found_or_new-IsTable s t name v desc (lookup_base T name s) h e

  -- What a lookup that gave a pointer leaves behind.
  pub record Holds (t : Ty) (name : Bytes) (p : ℕ) (s s' : Configs T) : Type 0 where
    pub found : lookup_base T name s' ≡ some p
    pub typed : cast T t p s' ≡ some p
    pub others : (j : Bytes) → bytes_eq j name ≡ false → lookup_base T j s' ≡ lookup_base T j s

  cast_eq : (t : Ty) (q p : ℕ) (s : Configs T) → cast T t q s ≡ some p → q ≡ p
  unfolding cast
  cast_eq t q p s e = elim (ty_dec (s.vars q).ty t) [
    | yes h ↦ some-injective q p (rw (if_pos _ h) at e)
    | no h ↦ absurd (cc (rw (if_neg _ h) at e))
  ]

  create-Holds :
      (s : Configs T) (t : Ty) (name : Bytes) (v : Val t) (desc : Bytes)
      → Holds t name s.next s (create T t name v desc s)
  unfolding create lookup_base cast
  create-Holds s t name v desc = record {
    found = find-insert name name s.next s.datas ∙ rw (bytes_eq_self name);
    typed = rw (==_self s.next) (if_pos (ty_dec t t) refl _ _);
    others = λ j h. find-insert name j s.next s.datas ∙ rw h;
  }

  found_or_new-Holds :
      (s : Configs T) (t : Ty) (name : Bytes) (v : Val t) (desc : Bytes) (o : Option ℕ) (p : ℕ)
      {s' : Configs T}
      → lookup_base T name s ≡ o
      → found_or_new T t name v desc s o ≡ ok (s', some p)
      → Holds t name p s s'
  unfolding found_or_new
  found_or_new-Holds s t name v desc (some q) p {s'} l e =
      let c : cast T t q s ≡ some p = ap (λ x. x.1) (ok-injective e) in
      let r : q ≡ p = cast_eq t q p s c in
      subst (Holds t name p s) (ap (λ x. x.0) (ok-injective e)) (record {
        found = l ∙ ap some r;
        typed = subst (λ z. cast T t z s ≡ some p) r c;
        others = λ j h. refl;
      })
  found_or_new-Holds s t name v desc none p {s'} l e = elim (Bool-cases (is_name name)) [
    | inr n ↦ absurd (cc (rw n at e))
    | inl n ↦
        let x = ok-injective (rw n at e) in
        let r : s.next ≡ p = some-injective s.next p (ap (λ x. x.1) x) in
        subst (Holds t name p s) (ap (λ x. x.0) x) (
          subst (λ z. Holds t name z s (create T t name v desc s)) r (create-Holds s t name v desc))
  ]

  -- When Lookup with a default has given a variable, each later Lookup of the name at the same
  -- type, with any default, gives this variable and changes nothing, Lookup without a default
  -- gives it too, and no other name leads anywhere else than before.
  pub lookup_again :
      (s : Configs T) (t : Ty) (name : Bytes) (v : Val t) (desc : Bytes) (p : ℕ) {s' : Configs T}
      → lookup_or_new T t name v desc s ≡ ok (s', some p)
      → ((w : Val t) (text : Bytes) → lookup_or_new T t name w text s' ≡ ok (s', some p))
        × (lookup T t name s' ≡ some p)
        × ((j : Bytes) → bytes_eq j name ≡ false → lookup_base T j s' ≡ lookup_base T j s)
  unfolding lookup_or_new lookup found_or_new
  lookup_again s t name v desc p {s'} e =
      let h : Holds t name p s s' =
        found_or_new-Holds s t name v desc (lookup_base T name s) p refl e in
      (λ w text. rw (h.found, h.typed), rw (h.found, lookup) h.typed, h.others)
