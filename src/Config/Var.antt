-- ===== src/Config/Var.antt =====
-- atpdxy/config.h, class ConfigVar. What a template instance is made of is a parameter: the value
-- types with their equality and their conversions, and what the listeners act on.
pub mod Race
pub mod Throws
use atpdxy.Common.{
  ℕ, ◌+◌, ◌%◌, ◌^◌, ◌≤◌, ◌<◌, ◌≡◌, refl, ap, Bool, true, Option, none, some, List, [], ◌∷◌, map,
  arith, ltb, ◌==◌, if◌then◌else◌,
}
use atpdxy.Common.Bytes.{Bytes, tolower}

-- `none` stands for an exception. `Effects` is the state outside the variable that listeners change.
pub record Types : Type 1 where
  pub Ty : Type 0
  pub ty_dec : Discrete Ty
  pub Val : Ty → Type 0
  pub val_eq : (t : Ty) → Val t → Val t → Bool
  pub from_str : (t : Ty) → Bytes → Option (Val t)
  pub to_str : (t : Ty) → Val t → Option Bytes
  pub Effects : Type 0

module _ (T : Types) where
  open T use {Ty, Val, val_eq, from_str, to_str, Effects}

  -- `on_change_cb`.
  abbrev pub Listener : Ty → Type 0
  Listener t = Val t → Val t → Effects → Effects

  -- `m_cbs` is sorted by the key, as a std::map is.
  pub record Var (t : Ty) : Type 0 where
    pub name : Bytes
    pub description : Bytes
    pub val : Val t
    pub cbs : List (ℕ × Listener t)

  -- The constructor, with that of ConfigVarBase.
  unfoldable pub new_var : (t : Ty) → Bytes → Val t → Bytes → Var t
  new_var t name default_value description = record {
    name = map tolower name;
    description = description;
    val = default_value;
    cbs = [];
  }

  -- The calls of the listeners, in the order of their keys.
  unfoldable pub notify : (t : Ty) → List (ℕ × Listener t) → Val t → Val t → Effects → Effects
  notify t [] old new w = w
  notify t ((i, cb) ∷ cbs) old new w = notify t cbs old new (cb old new w)

  -- `getValue`.
  pub get_value : (t : Ty) → Var t → Val t
  get_value t c = c.val

  -- `setValue`. The listeners are called before the value is set; they are taken not to look at it.
  unfoldable pub set_value : (t : Ty) → Val t → Var t → Effects → Var t × Effects
  unfolding notify
  set_value t v c w =
      if val_eq t v c.val then (c, w) else (record c { val = v }, notify t c.cbs c.val v w)

  set_parsed : (t : Ty) → Option (Val t) → Var t → Effects → Var t × Effects
  unfolding set_value
  set_parsed t none c w = (c, w)
  set_parsed t (some v) c w = set_value t v c w

  -- `fromString`. The result `""` is converted to bool: a pointer that is not null is true.
  unfoldable pub from_string : (t : Ty) → Bytes → Var t → Effects → Var t × Effects × Bool
  unfolding set_parsed
  from_string t s c w = let (c', w') = set_parsed t (from_str t s) c w in (c', w', true)

  -- `toString`: the empty text where the conversion throws.
  pub to_string : (t : Ty) → Var t → Bytes
  to_string t c = elim (to_str t c.val) [ none ↦ [] | some s ↦ s ]

  -- `m_cbs[key] = cb`.
  pub put_cb : (t : Ty) → ℕ → Listener t → List (ℕ × Listener t) → List (ℕ × Listener t)
  put_cb t k cb [] = (k, cb) ∷ []
  put_cb t k cb ((j, d) ∷ cbs) =
      if k == j
      then (k, cb) ∷ cbs
      else if ltb k j
      then (k, cb) ∷ ((j, d) ∷ cbs)
      else (j, d) ∷ put_cb t k cb cbs

  pub erase_cb : (t : Ty) → ℕ → List (ℕ × Listener t) → List (ℕ × Listener t)
  erase_cb t k [] = []
  erase_cb t k ((j, d) ∷ cbs) = if k == j then cbs else (j, d) ∷ erase_cb t k cbs

  pub find_cb : (t : Ty) → ℕ → List (ℕ × Listener t) → Option (Listener t)
  find_cb t k [] = none
  find_cb t k ((j, d) ∷ cbs) = if k == j then some d else find_cb t k cbs

  -- `addListener`; `last` is the static `s_func_id`, which all variables of a type share.
  unfoldable pub add_listener : (t : Ty) → Listener t → ℕ → Var t → ℕ × ℕ × Var t
  unfolding put_cb
  add_listener t cb last c =
      let id = (last + 1) % 2 ^ 64 in (id, id, record c { cbs = put_cb t id cb c.cbs })

  pub del_listener : (t : Ty) → ℕ → Var t → Var t
  unfolding erase_cb
  del_listener t k c = record c { cbs = erase_cb t k c.cbs }

  pub get_listener : (t : Ty) → ℕ → Var t → Option (Listener t)
  unfolding find_cb
  get_listener t k c = find_cb t k c.cbs

  pub clear_listener : (t : Ty) → Var t → Var t
  clear_listener t c = record c { cbs = [] }

  -- Keys rise along the list and are above the bound.
  abbrev pub Above : (t : Ty) → ℕ → List (ℕ × Listener t) → Type 0
  Above t b [] = Unit
  Above t b ((j, d) ∷ cbs) = (b ≤ j) × Above t (j + 1) cbs

  find_cb_below :
      (t : Ty) (k b : ℕ) (cbs : List (ℕ × Listener t))
      → k < b
      → Above t b cbs
      → find_cb t k cbs ≡ none
  unfolding find_cb
  find_cb_below t k b [] lt h = refl
  find_cb_below t k b ((j, d) ∷ cbs) lt h = ground (arith, find_cb_below t k (j + 1) cbs)

  find_cb-put_cb :
      (t : Ty) (k j : ℕ) (cb : Listener t) (cbs : List (ℕ × Listener t))
      → find_cb t j (put_cb t k cb cbs) ≡ (if j == k then some cb else find_cb t j cbs)
  unfolding find_cb put_cb
  find_cb-put_cb t k j cb [] = refl
  find_cb-put_cb t k j cb ((i, d) ∷ cbs) = ground (arith, find_cb-put_cb t k j cb cbs)

  put_cb-Above :
      (t : Ty) (k b : ℕ) (cb : Listener t) (cbs : List (ℕ × Listener t))
      → b ≤ k
      → Above t b cbs
      → Above t b (put_cb t k cb cbs)
  unfolding put_cb
  put_cb-Above t k b cb [] le h = (le, tt)
  put_cb-Above t k b cb ((i, d) ∷ cbs) le h = ground (arith, put_cb-Above t k (i + 1) cb cbs)

  find_cb-erase_cb :
      (t : Ty) (k j b : ℕ) (cbs : List (ℕ × Listener t))
      → Above t b cbs
      → find_cb t j (erase_cb t k cbs) ≡ (if j == k then none else find_cb t j cbs)
  unfolding find_cb erase_cb
  find_cb-erase_cb t k j b [] h = ground arith
  find_cb-erase_cb t k j b ((i, d) ∷ cbs) h =
      ground (arith, find_cb-erase_cb t k j (i + 1) cbs, find_cb_below t j (i + 1) cbs)

  abbrev pub Below : (t : Ty) → ℕ → List (ℕ × Listener t) → Type 0
  Below t b [] = Unit
  Below t b ((j, d) ∷ cbs) = (j ≤ b) × Below t b cbs

  find_cb_above :
      (t : Ty) (k b : ℕ) (cbs : List (ℕ × Listener t))
      → b < k
      → Below t b cbs
      → find_cb t k cbs ≡ none
  unfolding find_cb
  find_cb_above t k b [] lt h = refl
  find_cb_above t k b ((j, d) ∷ cbs) lt h = ground (arith, find_cb_above t k b cbs)

  -- When the counter of keys does not wrap and no key of the variable is above it, addListener
  -- gives a key under which the variable had no listener, the listener is found under it
  -- afterwards, what is found under the other keys is as before, and the counter has risen.
  pub add_listener_lem :
      (t : Ty) (cb : Listener t) (last : ℕ) (c : Var t)
      → last + 1 < 2 ^ 64
      → Below t last c.cbs
      → let (id, last', c') = add_listener t cb last c in
        (get_listener t id c ≡ none)
        × ((j : ℕ) → get_listener t j c' ≡ (if j == id then some cb else get_listener t j c))
        × (last < last')
  unfolding add_listener get_listener
  add_listener_lem t cb last c small h = (
    find_cb_above t ((last + 1) % 2 ^ 64) last c.cbs (omega arith) h,
    λ j. find_cb-put_cb t ((last + 1) % 2 ^ 64) j cb c.cbs,
    omega arith,
  )

  -- On listeners sorted by key, after delListener nothing is found under the key, and what is
  -- found under the other keys is as before.
  pub del_listener_lem :
      (t : Ty) (k j : ℕ) (c : Var t)
      → Above t 0 c.cbs
      → get_listener t j (del_listener t k c) ≡ (if j == k then none else get_listener t j c)
  unfolding del_listener get_listener
  del_listener_lem t k j c h = find_cb-erase_cb t k j 0 c.cbs h

  -- fromString answers true for every text. A text that cannot be converted changes neither the
  -- variable nor what listeners act on; one that can be does what setValue does with the value.
  pub from_string_lem :
      (t : Ty) (s : Bytes) (c : Var t) (w : Effects)
      → ((from_string t s c w).2 ≡ true)
        × (from_str t s ≡ none → ((from_string t s c w).0 ≡ c) × ((from_string t s c w).1 ≡ w))
        × ((v : Val t)
            → from_str t s ≡ some v
            → ((from_string t s c w).0 ≡ (set_value t v c w).0)
              × ((from_string t s c w).1 ≡ (set_value t v c w).1))
  unfolding from_string
  from_string_lem t s c w = (
    refl,
    λ e. (ap (λ o. (set_parsed t o c w).0) e, ap (λ o. (set_parsed t o c w).1) e),
    λ v e. (ap (λ o. (set_parsed t o c w).0) e, ap (λ o. (set_parsed t o c w).1) e),
  )
