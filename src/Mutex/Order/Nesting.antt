-- ===== src/Mutex/Order/Nesting.antt =====
-- Operations that take mutexes in the order of their ranks, put together from their parts.
use atpdxy.Common.{
  ℕ, suc, ◌≤◌, ◌<◌, refl, sym, subst, Bool, true, false, List, [], ◌∷◌, ◌++◌, All, append_assoc,
  append-nil, arith, if◌then◌else◌,
}
use atpdxy.Mutex.Order.{Access, Act, gives, each, inside, Ordered}

module _ {L : Type 0} (rank : L → ℕ) where
  -- While all mutexes that are held have ranks below `low`, the calls can be made, and what could
  -- be done before can be done behind them.
  abbrev pub Closed : ℕ → List (Act L) → Type 0
  Closed low acts =
      (ks : List (Access × L)) (more : List (Act L))
      → All (λ k. rank k.1 < low) ks
      → Ordered rank ks more
      → Ordered rank ks (acts ++ more)

  pub []-Closed : (low : ℕ) → Closed low []
  []-Closed low ks more h o = o

  pub append-Closed :
      (low : ℕ) (a b : List (Act L)) → Closed low a → Closed low b → Closed low (a ++ b)
  append-Closed low a b ha hb ks more h o =
      subst (Ordered rank ks) (sym (append_assoc a b more)) (ha ks (b ++ more) h (hb ks more h o))

  pub if-Closed :
      (low : ℕ) (b : Bool) (x y : List (Act L))
      → Closed low x
      → Closed low y
      → Closed low (if b then x else y)
  if-Closed low true x y hx hy = hx
  if-Closed low false x y hx hy = hy

  pub each-Closed {ℓ} :
      (low : ℕ) {A : Type ℓ} (f : A → List (Act L)) (xs : List A)
      → ((x : A) → Closed low (f x))
      → Closed low (each f xs)
  each-Closed low f [] h = []-Closed low
  each-Closed low f (x ∷ xs) h = append-Closed low (f x) (each f xs) (h x) (each-Closed low f xs h)

  All-lt :
      (a b : ℕ) (ks : List (Access × L))
      → a ≤ b
      → All (λ k. rank k.1 < a) ks
      → All (λ k. rank k.1 < b) ks
  All-lt a b [] h all = tt
  All-lt a b (k ∷ ks) h all = (omega (arith, all.0), All-lt a b ks h all.1)

  pub Closed-le : (a b : ℕ) (acts : List (Act L)) → a ≤ b → Closed b acts → Closed a acts
  Closed-le a b acts le h ks more all o = h ks more (All-lt a b ks le all) o

  pub inside-Closed :
      (low : ℕ) (m : Access) (l : L) (acts : List (Act L))
      → low ≤ rank l
      → Closed (suc (rank l)) acts
      → Closed low (inside m l acts)
  inside-Closed low m l acts le h ks more all o =
      let below = All-lt low (rank l) ks le all in
      (
        below,
        subst (Ordered rank ((m, l) ∷ ks)) (sym (append_assoc acts (gives l ∷ []) more)) (
            h ((m, l) ∷ ks) (gives l ∷ more)
              (omega arith, All-lt (rank l) (suc (rank l)) ks (omega arith) below) (refl, o)),
      )

  pub Closed-Ordered : (low : ℕ) (acts : List (Act L)) → Closed low acts → Ordered rank [] acts
  Closed-Ordered low acts h = subst (Ordered rank []) (append-nil acts) (h [] [] tt tt)
