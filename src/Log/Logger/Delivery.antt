-- ===== src/Log/Logger/Delivery.antt =====
-- Logger::log in atpdxy/log.cpp: the appenders that it brings an event to.
use atpdxy.Common.{
  ℕ, suc, ◌<◌, ◌≡◌, refl, ◌∙◌, inl, inr, true, false, Option, none, some, List, [], ◌∷◌, arith,
  if◌then◌else◌, Bool-cases, All,
}
use atpdxy.Common.Bytes.{Bytes, is_empty}
use atpdxy.Common.Result.{ok}
use atpdxy.Log.Level.{Level, at_least}
use atpdxy.Log.Event.{Event}
use atpdxy.Log.Formatter.{format}
use atpdxy.Log.Store.{name_of, Kind, stdout, file, Logger, Store}
use atpdxy.Log.Logger.Formatters.{IsReady, All-imp}
use atpdxy.Log.Logger.{Env, is_some, refresh, write, prepare, append_log, append_all, log}

abbrev pub HasFormatter : Store → ℕ → Type 0
HasFormatter s a = is_some (s.appenders a).formatter ≡ true

-- What writing does not change: the loggers, and the formatters of the appenders.
pub record Same (s s' : Store) : Type 0 where
  pub loggers_eq : s'.loggers ≡ s.loggers
  pub formatter_eq : (a : ℕ) → (s'.appenders a).formatter ≡ (s.appenders a).formatter

Same-refl : (s : Store) → Same s s
Same-refl s = record { loggers_eq = refl; formatter_eq = λ a. refl }

Same-trans : {s t u : Store} → Same s t → Same t u → Same s u
Same-trans x y = record {
  loggers_eq = y.loggers_eq ∙ x.loggers_eq;
  formatter_eq = λ a. y.formatter_eq a ∙ x.formatter_eq a;
}

All-Same :
    {s s' : Store} (as' : List ℕ) → Same s s' → All (HasFormatter s) as' → All (HasFormatter s') as'
All-Same [] same h = tt
All-Same (a ∷ as') same h = (rw (same.formatter_eq a) h.0, All-Same as' same h.1)

some_of {ℓ} : {A : Type ℓ} (o : Option A) → is_some o ≡ true → (a : A) × (o ≡ some a)
some_of none h = absurd (cc)
some_of (some a) h = (a, refl)

module _ (strftime : Bytes → ℕ → Bytes) (env : Env) where
  write-Same :
      (a : ℕ) (k : Kind) (text : Bytes) (s : Store) → Same s (write strftime env a k text s)
  unfolding write
  write-Same a stdout text s = record { loggers_eq = refl; formatter_eq = λ b. refl }
  write-Same a (file n last) text s = record {
    loggers_eq = ground arith;
    formatter_eq = λ b. ground arith;
  }

  prepare-Same : (a : ℕ) (k : Kind) (s : Store) → Same s (prepare strftime env a k s)
  unfolding prepare refresh
  prepare-Same a stdout s = Same-refl s
  prepare-Same a (file n last) s = record {
    loggers_eq = ground arith;
    formatter_eq = λ b. ground arith;
  }

  append_log_ok :
      (a : ℕ) (level : Level) (e : Event) (s : Store)
      → HasFormatter s a
      → (s' : Store) × (append_log strftime env a level e s ≡ ok s') × Same s s'
  unfolding append_log
  append_log_ok a level e s h =
      let ap = s.appenders a in
      let (f, is) = some_of ap.formatter h in
      let s' = prepare strftime env a ap.kind s in
      elim (Bool-cases (at_least level ap.level)) [
        | inl c ↦ (
          write strftime env a ap.kind (format strftime (name_of s) f level e) s',
          rw (c, is),
          Same-trans (prepare-Same a ap.kind s) (write-Same a ap.kind _ s'),
        )
        | inr c ↦ (s, rw c, Same-refl s)
      ]

  append_all_ok :
      (as' : List ℕ) (level : Level) (e : Event) (s : Store)
      → All (HasFormatter s) as'
      → (s' : Store) × (append_all strftime env as' level e s ≡ ok s') × Same s s'
  unfolding append_all
  append_all_ok [] level e s h = (s, refl, Same-refl s)
  append_all_ok (a ∷ as') level e s h =
      let (t, first, same) = append_log_ok a level e s h.0 in
      let (u, rest, more) = append_all_ok as' level e t (All-Same as' same h.1) in
      (u, rw (first) rest, Same-trans same more)

-- The appenders that an event of the level comes to from a logger, given the root logger.
abbrev pub own_targets : Level → Logger → List ℕ
own_targets level l = if at_least level l.level then l.appenders else []

abbrev pub targets : Level → Logger → Logger → List ℕ
targets level l r =
    if at_least level l.level
    then (if is_empty l.appenders then own_targets level r else l.appenders)
    else []

module _ (strftime : Bytes → ℕ → Bytes) (env : Env) (level : Level) (e : Event) (s : Store) where
  -- A logger whose level refuses the event does nothing.
  pub log_refused :
      (f p : ℕ)
      → at_least level (s.loggers p).level ≡ false
      → log strftime env (suc f) p level e s ≡ ok s
  unfolding log
  log_refused f p h = rw h

  log_own :
      (f r : ℕ)
      → is_empty (s.loggers r).appenders ≡ false
      → log strftime env (suc f) r level e s
        ≡ append_all strftime env (own_targets level (s.loggers r)) level e s
  unfolding log append_all
  log_own f r h = elim (Bool-cases (at_least level (s.loggers r).level)) [
    | inl c ↦ rw (c, h)
    | inr c ↦ rw c
  ]

  log-targets :
      (p r : ℕ)
      → (s.loggers p).root ≡ some r
      → is_empty (s.loggers r).appenders ≡ false
      → log strftime env 2 p level e s
        ≡ append_all strftime env (targets level (s.loggers p) (s.loggers r)) level e s
  unfolding log append_all
  log-targets p r root h = elim (Bool-cases (at_least level (s.loggers p).level)) [
    | inl c ↦ elim (Bool-cases (is_empty (s.loggers p).appenders)) [
      | inl d ↦ rw (c, d, root) (log_own 0 r h)
      | inr d ↦ rw (c, d)
    ]
    | inr c ↦ rw c
  ]

  targets-All :
      (P : ℕ → Type 0) (l r : Logger)
      → All P l.appenders
      → All P r.appenders
      → All P (targets level l r)
  targets-All P l r a b = elim (Bool-cases (at_least level l.level)) [
    | inl c ↦ elim (Bool-cases (is_empty l.appenders)) [
      | inl d ↦ elim (Bool-cases (at_least level r.level)) [
        | inl x ↦ rw (c, d, x) b
        | inr x ↦ rw (c, d, x) tt
      ]
      | inr d ↦ rw (c, d) a
    ]
    | inr c ↦ rw c tt
  ]

  -- Where every made logger and the appenders attached to it have formatters, a made logger whose
  -- root is a made logger with appenders delivers an event with fuel 2 and meets no null pointer.
  -- The result is that of the appenders in question writing one after the other: none if the
  -- logger's level refuses the event, its own if it has any, otherwise those of the root if the
  -- root's level lets the event through. No logger and no appender's formatter is changed.
  pub log_lem :
      (p r : ℕ)
      → IsReady s
      → p < s.next_logger
      → r < s.next_logger
      → (s.loggers p).root ≡ some r
      → is_empty (s.loggers r).appenders ≡ false
      → (s' : Store) × (log strftime env 2 p level e s ≡ ok s')
        × (append_all strftime env (targets level (s.loggers p) (s.loggers r)) level e s ≡ ok s')
        × Same s s'
  log_lem p r h lp lr root filled =
      let (s', done, same) =
        append_all_ok strftime env (targets level (s.loggers p) (s.loggers r)) level e s (
          targets-All (HasFormatter s) (s.loggers p) (s.loggers r)
            (All-imp _ (λ a u. u.1) (h.usable p lp)) (All-imp _ (λ a u. u.1) (h.usable r lr))) in
      (s', log-targets p r root filled ∙ done, done, same)

  -- The root logger, with appenders of its own, delivers an event to them or refuses it.
  pub log_root_lem :
      (f r : ℕ)
      → IsReady s
      → r < s.next_logger
      → is_empty (s.loggers r).appenders ≡ false
      → (s' : Store) × (log strftime env (suc f) r level e s ≡ ok s')
        × (append_all strftime env (own_targets level (s.loggers r)) level e s ≡ ok s')
        × Same s s'
  log_root_lem f r h lr filled =
      let usable = All-imp (s.loggers r).appenders (λ a u. u.1) (h.usable r lr) in
      let own : All (HasFormatter s) (own_targets level (s.loggers r)) =
        elim (Bool-cases (at_least level (s.loggers r).level)) [
          | inl c ↦ rw c usable
          | inr c ↦ rw c tt
        ] in
      let (s', done, same) =
        append_all_ok strftime env (own_targets level (s.loggers r)) level e s own in
      (s', log_own f r filled ∙ done, done, same)
