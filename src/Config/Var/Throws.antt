-- ===== src/Config/Var/Throws.antt =====
-- ConfigVar::setValue and ConfigVar::fromString of atpdxy/config.h with listeners that may throw a
-- std::exception. One that is thrown leaves setValue, whose guard gives the mutex back, and is caught in
-- fromString.
use atpdxy.Common.{
  ℕ, ◌≡◌, refl, Bool, true, false, Option, none, some, List, [], ◌∷◌, ◌++◌, map, if◌then◌else◌,
  Bool-cases, inl, inr,
}
use atpdxy.Common.Bytes.{Bytes}
use atpdxy.Config.Var.{Types, Var, Listener, notify, set_value}

module _ (T : Types) (t : T.Ty) where
  open T use {Val, val_eq, from_str, Effects}

  -- What a listener does, and whether it ends with an exception.
  abbrev pub Throwing : Type 0
  Throwing = Val t → Val t → Effects → Effects × Bool

  -- The loop over the listeners, up to the first one that throws.
  pub notify_until : List (ℕ × Throwing) → Val t → Val t → Effects → Effects × Bool
  notify_until [] old new w = (w, false)
  notify_until ((i, cb) ∷ cbs) old new w =
      let (w', threw) = cb old new w in
      let rest = notify_until cbs old new w' in if threw then (w', true) else rest

  -- `setValue`: the value, what the listeners left, and whether an exception was thrown.
  pub set_value_until : Val t → Val t → List (ℕ × Throwing) → Effects → Val t × Effects × Bool
  unfolding notify_until
  set_value_until v val cbs w =
      let (w', threw) = notify_until cbs val v w in
      if val_eq t v val then (val, w, false) else if threw then (val, w', true) else (v, w', false)

  set_parsed_until : Option (Val t) → Val t → List (ℕ × Throwing) → Effects → Val t × Effects × Bool
  unfolding set_value_until
  set_parsed_until none val cbs w = (val, w, true)
  set_parsed_until (some v) val cbs w = set_value_until v val cbs w

  -- `fromString`, which catches what the conversion or a listener throws, and answers true.
  pub from_string_until : Bytes → Val t → List (ℕ × Throwing) → Effects → Val t × Effects × Bool
  unfolding set_parsed_until
  from_string_until text val cbs w =
      let (val', w', threw) = set_parsed_until (from_str t text) val cbs w in (val', w', true)

  -- What listeners leave, one after the other, if none of them throws.
  abbrev pub tell_all : List (ℕ × Throwing) → Val t → Val t → Effects → Effects
  tell_all [] old new w = w
  tell_all ((i, cb) ∷ cbs) old new w = tell_all cbs old new (cb old new w).0

  abbrev pub AreQuiet : List (ℕ × Throwing) → Val t → Val t → Effects → Type 0
  AreQuiet [] old new w = Unit {0}
  AreQuiet ((i, cb) ∷ cbs) old new w =
      ((cb old new w).1 ≡ false) × AreQuiet cbs old new (cb old new w).0

  notify_until-throws :
      (before after : List (ℕ × Throwing)) (i : ℕ) (cb : Throwing) (old new : Val t) (w : Effects)
      → AreQuiet before old new w
      → (cb old new (tell_all before old new w)).1 ≡ true
      → notify_until (before ++ (i, cb) ∷ after) old new w
        ≡ ((cb old new (tell_all before old new w)).0, true)
  unfolding notify_until
  notify_until-throws [] after i cb old new w h e = rw e refl
  notify_until-throws ((j, d) ∷ before) after i cb old new w h e =
      rw h.0 (notify_until-throws before after i cb old new (d old new w).0 h.1 e)

  notify_until-quiet :
      (cbs : List (ℕ × Throwing)) (old new : Val t) (w : Effects)
      → AreQuiet cbs old new w
      → notify_until cbs old new w ≡ (tell_all cbs old new w, false)
  unfolding notify_until
  notify_until-quiet [] old new w h = refl
  notify_until-quiet ((i, cb) ∷ cbs) old new w h =
      rw h.0 (notify_until-quiet cbs old new (cb old new w).0 h.1)

  -- Of the listeners of a variable, whose text is converted to a value that differs from the one
  -- it has, the first ones are quiet and the next one throws: fromString answers true
  -- nevertheless. The variable keeps its old value; the quiet listeners and the one that threw
  -- have acted on the new one, and those behind have not been called.
  pub from_string_until-throws :
      (before after : List (ℕ × Throwing)) (i : ℕ) (cb : Throwing) (text : Bytes) (val v : Val t)
      (w : Effects)
      → from_str t text ≡ some v
      → val_eq t v val ≡ false
      → AreQuiet before val v w
      → (cb val v (tell_all before val v w)).1 ≡ true
      → from_string_until text val (before ++ (i, cb) ∷ after) w
        ≡ (val, (cb val v (tell_all before val v w)).0, true)
  unfolding from_string_until set_parsed_until set_value_until
  from_string_until-throws before after i cb text val v w parsed new quiet threw =
      rw (parsed, notify_until-throws before after i cb val v w quiet threw, new) refl

  -- A listener that does not throw.
  abbrev plain : ℕ × Throwing → ℕ × Listener T t
  plain (i, cb) = (i, λ old new w. (cb old new w).0)

  notify-plain :
      (cbs : List (ℕ × Throwing)) (old new : Val t) (w : Effects)
      → notify T t (map plain cbs) old new w ≡ tell_all cbs old new w
  unfolding notify
  notify-plain [] old new w = refl
  notify-plain ((i, cb) ∷ cbs) old new w = notify-plain cbs old new (cb old new w).0

  -- Where no listener throws, `setValue` is the one for listeners that do not.
  pub set_value_until-set_value :
      (v : Val t) (c : Var T t) (cbs : List (ℕ × Throwing)) (w : Effects)
      → c.cbs ≡ map plain cbs
      → AreQuiet cbs c.val v w
      → set_value_until v c.val cbs w
        ≡ ((set_value T t v c w).0.val, (set_value T t v c w).1, false)
  unfolding set_value_until set_value
  set_value_until-set_value v c cbs w same quiet = elim (Bool-cases (val_eq t v c.val)) [
    | inl e ↦ rw e refl
    | inr e ↦ rw (notify_until-quiet cbs c.val v w quiet, e, same, notify-plain cbs c.val v w) refl
  ]
