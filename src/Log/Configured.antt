-- ===== src/Log/Configured.antt =====
-- atpdxy/log.cpp: g_log_defines, the configuration variable of the loggers' definitions, and
-- LogIniter, which lets the listener run on each change of it. The state that listeners act on is
-- the manager of the loggers.
use atpdxy.Common.{
  ℕ, ◌≡◌, refl, sym, subst, inl, inr, Bool, true, false, ◌&&◌, List, [], ◌∷◌, Bool-cases,
  Option-cases, All,
}
use atpdxy.Common.Bytes.{Bytes, codes, bytes_lt}
use atpdxy.Config.Var.{
  Types, Var, Listener, new_var, add_listener, from_string, set_value, notify, from_string_lem,
}
use atpdxy.Config.Yaml.{Yaml}
use atpdxy.Config.Document.{Documents}
use atpdxy.Config.Convert.{to_set, from_set}
use atpdxy.Log.Define.{LogDefine, define_eq, on_change, on_change-IsManaged}
use atpdxy.Log.Document.{to_define, from_define}
use atpdxy.Log.Manager.{Manager, IsManaged}

-- `operator<` of LogDefine, and `operator==` of std::set<LogDefine>.
abbrev pub define_lt : LogDefine → LogDefine → Bool
define_lt a b = bytes_lt a.name b.name

pub defines_eq : List LogDefine → List LogDefine → Bool
defines_eq [] [] = true
defines_eq (a ∷ as') (b ∷ bs) = define_eq a b && defines_eq as' bs
defines_eq _ _ = false

pub data LogTypes : Type 0 where
  log_defines : LogTypes

pub LogTypes-discrete : Discrete LogTypes
LogTypes-discrete = hlevel

module _ (Y : Yaml) (D : Documents Y) where
  -- ConfigVar<std::set<LogDefine>>.
  abbrev pub log_types : Types
  log_types = record {
    Ty = LogTypes;
    ty_dec = LogTypes-discrete;
    Val = λ t. List LogDefine;
    val_eq = λ t. defines_eq;
    from_str = λ t. to_set Y D define_lt (to_define Y D);
    to_str = λ t. from_set Y D (from_define Y D);
    Effects = Manager;
  }

  -- `g_log_defines`.
  pub log_defines_var : Var log_types log_defines
  log_defines_var = new_var log_types log_defines (codes "logs") [] (codes "logs config")

  -- LogIniter::LogIniter, given the last key of a listener.
  pub log_initer : ℕ → Var log_types log_defines → ℕ × ℕ × Var log_types log_defines
  log_initer last c = add_listener log_types log_defines on_change last c

  -- The listeners of the variable are that of LogIniter.
  abbrev pub IsInitialised : Var log_types log_defines → Type 0
  IsInitialised c = All (λ e. e.1 ≡ on_change) c.cbs

  pub log_initer-IsInitialised : (last : ℕ) → IsInitialised (log_initer last log_defines_var).2
  unfolding log_initer log_defines_var new_var add_listener
  log_initer-IsInitialised last = (refl, tt)

  notify-IsManaged :
      (cbs : List (ℕ × Listener log_types log_defines)) (old new : List LogDefine) (m : Manager)
      → All (λ e. e.1 ≡ on_change) cbs
      → IsManaged m
      → IsManaged (notify log_types log_defines cbs old new m)
  unfolding notify
  notify-IsManaged [] old new m h k = k
  notify-IsManaged ((i, cb) ∷ cbs) old new m h k =
      notify-IsManaged cbs old new (cb old new m) h.1 (rw (h.0) (on_change-IsManaged old new m k))

  set_value-IsManaged :
      (v : List LogDefine) (c : Var log_types log_defines) (m : Manager)
      → IsInitialised c
      → IsManaged m
      → IsManaged (set_value log_types log_defines v c m).1
        × IsInitialised (set_value log_types log_defines v c m).0
  unfolding set_value
  set_value-IsManaged v c m h k = elim (Bool-cases (defines_eq v c.val)) [
    | inl e ↦ rw e (k, h)
    | inr e ↦ rw e (notify-IsManaged c.cbs c.val v m h k, h)
  ]

  -- The texts that are assigned to the variable one after the other.
  pub assign_texts :
      List Bytes → Var log_types log_defines → Manager → Var log_types log_defines × Manager
  assign_texts [] c m = (c, m)
  assign_texts (s ∷ ss) c m =
      let (c', m', _) = from_string log_types log_defines s c m in assign_texts ss c' m'

  from_string-IsManaged :
      (s : Bytes) (c : Var log_types log_defines) (m : Manager)
      → IsInitialised c
      → IsManaged m
      → IsManaged (from_string log_types log_defines s c m).1
        × IsInitialised (from_string log_types log_defines s c m).0
  from_string-IsManaged s c m h k =
      let (_, kept, changed) = from_string_lem log_types log_defines s c m in
      elim (Option-cases (to_set Y D define_lt (to_define Y D) s)) [
        | inl e ↦ (subst IsManaged (sym (kept e).1) k, subst IsInitialised (sym (kept e).0) h)
        | inr (v, e) ↦
            let x = set_value-IsManaged v c m h k in
            (
              subst IsManaged (sym (changed v e).1) x.0,
              subst IsInitialised (sym (changed v e).0) x.1,
            )
      ]

  -- Whatever texts are assigned to the variable of the loggers' definitions one after the other,
  -- when its only listeners are those of LogIniter: every made logger still has a formatter and
  -- every attached appender is made and has one, the root logger is made, and each logger of the
  -- map is made and is the root logger or has it as its root.
  pub assign_texts-IsManaged :
      (ss : List Bytes) (c : Var log_types log_defines) (m : Manager)
      → IsInitialised c
      → IsManaged m
      → IsManaged (assign_texts ss c m).1
  unfolding assign_texts
  assign_texts-IsManaged [] c m h k = k
  assign_texts-IsManaged (s ∷ ss) c m h k =
      let x = from_string-IsManaged s c m h k in
      assign_texts-IsManaged ss (from_string log_types log_defines s c m).0
        (from_string log_types log_defines s c m).1 x.1 x.0
