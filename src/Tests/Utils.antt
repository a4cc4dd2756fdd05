-- ===== src/Tests/Utils.antt =====
-- Semaphores, backtraces, the macros of the loggers, and a variable that several threads set.
use mathlib.Core.Option.{some-injective}
use atpdxy.Common.{
  none, All, map, drop, ◌++◌, false, ℕ, zero, suc, ◌+◌, ◌≤◌, ◌<◌, ◌≡◌, refl, sym, ap, ◌∙◌, Bool,
  true, some, List, [], ◌∷◌, arith, length, Option,
}
use atpdxy.Log.Macro.Assert.{log_assert, aborts, goes_on, failure, log_assert_lem}
use atpdxy.Config.Var.Throws.{Throwing, from_string_until, from_string_until-throws}
use atpdxy.Common.Bytes.{Bytes, codes}
use atpdxy.Common.Result.{ok}
use atpdxy.Mutex.Semaphore.{
  Waited, Sem, new_semaphore, wait, waits, notifies, Counted, uses, fresh, uses_balanced,
}
use atpdxy.Util.{pos, Traces, Work, back_trace, backtrace_to_string}
use atpdxy.Util.Lines.{lines, IsLine}
use atpdxy.Util.Frames.{back_trace-Traced}
use atpdxy.Log.Level.{Level}
use atpdxy.Log.Store.{Store}
use atpdxy.Log.Logger.{append_all}
use atpdxy.Log.Logger.Delivery.{Same}
use atpdxy.Log.Macro.{Place, log_stream, log_format}
use atpdxy.Log.Macro.Guard.{event_of, log_macros_lem}
use atpdxy.Config.Var.Race.{
  Shared, AllOutside, Reach, Leads, go, compares, compare_and_tell, store_value, later, calls,
  tells, sets, told_in_turn, told_in_race,
}
use atpdxy.Config.Var.Race.{fresh as start, here as begin}
use atpdxy.Tests.Fibers.{two_fibers}
use atpdxy.Tests.Logs.{two_loggers, two_loggers-IsReady, env}
use atpdxy.Tests.Configs.{types}

abbrev count_wait : Bool → ℕ → Waited ℕ
count_wait true zero = Waited.failed
count_wait false zero = Waited.blocks
count_wait i (suc n) = Waited.passed n

count_wait-down : (i : Bool) (s t : ℕ) → count_wait i s ≡ Waited.passed t → s ≡ suc t
count_wait-down true zero t e = cc
count_wait-down false zero t e = cc
count_wait-down true (suc n) t e = cc
count_wait-down false (suc n) t e = cc

count_wait-up : (s : ℕ) → 0 < s → (t : ℕ) × (count_wait false s ≡ Waited.passed t)
count_wait-up zero h = absurd (omega (arith, h))
count_wait-up (suc s) h = (s, refl)

-- Semaphores that are their counts.
abbrev counter : Sem
counter = record {
  State = ℕ;
  count = λ s. s;
  sem_init = λ n. some n;
  sem_wait = count_wait;
  sem_post = λ s. some (suc s);
  init_count = λ n s e. sym (some-injective _ _ e);
  wait_count = count_wait-down;
  wait_passes = count_wait-up;
  post_count = λ s t e. sym (some-injective _ _ e);
}

-- One call passes, one is interrupted, and one wakes the semaphore again.
abbrev used : Counted ℕ
used = uses counter (waits false ∷ waits true ∷ notifies ∷ []) (fresh counter 1)

uses_balanced_example :
    (used.state + used.waits_done ≡ 1 + used.posts_done)
    × (used.waits_done < 1 + used.posts_done
        → (t : ℕ) × (wait counter false used.state ≡ Waited.passed (ok t)))
unfolding new_semaphore
uses_balanced_example = uses_balanced counter 1 1 (waits false ∷ waits true ∷ notifies ∷ []) refl

abbrev frames : ℕ → List ℕ
frames zero = []
frames (suc n) = n ∷ frames n

frames-le : (n : ℕ) → length (frames n) ≤ n
frames-le zero = omega arith
frames-le (suc n) = omega (arith, frames-le n)

abbrev name_all : List ℕ → List Bytes
name_all [] = []
name_all (c ∷ cs) = codes "main" ∷ name_all cs

length-name_all : (cs : List ℕ) → length (name_all cs) ≡ length cs
length-name_all [] = refl
length-name_all (c ∷ cs) = omega (arith, length-name_all cs)

mains-IsLine : (n : ℕ) → All IsLine (name_all (frames n))
mains-IsLine zero = tt
mains-IsLine (suc n) = (omega arith, mains-IsLine n)

-- Every call is one of main.
abbrev mains : Traces
mains = record {
  backtrace = frames;
  backtrace_symbols = λ cs. some (name_all cs);
  in_room = frames-le;
  one_each = λ cs texts e. ap length (sym (some-injective _ _ e)) ∙ length-name_all cs;
}

abbrev no_work : Work
no_work = record { bt = []; blocks = 0; errors = [] }

back_trace-Traced_example :
    back_trace mains 3 (pos 1) no_work ≡ record no_work { bt = codes "main" ∷ codes "main" ∷ [] }
back_trace-Traced_example = back_trace-Traced mains 3 (pos 1) no_work

abbrev here : Place
here = record {
  file = codes "main.cc";
  line = 12;
  thread_id = 5;
  thread_name = codes "main";
  machine = two_fibers;
}

-- vasprintf with no conversions.
abbrev print_plain : Bytes → Bytes → Option Bytes
print_plain fmt args = some fmt

log_macros_lem_example :
    (s' : Store) × (log_format
        (λ fmt t. fmt)
        env
        print_plain
        2
        here
        1
        Level.info
        (codes "hi")
        []
        two_loggers
      ≡ ok s')
    × (log_stream (λ fmt t. fmt) env 2 here 1 Level.info (codes "hi") two_loggers ≡ ok s')
    × (append_all
          (λ fmt t. fmt)
          env
          (0 ∷ [])
          Level.info
          (event_of here 1 Level.info env.now (codes "hi"))
          two_loggers
        ≡ ok s')
    × Same two_loggers s'
log_macros_lem_example =
    log_macros_lem (λ fmt t. fmt) env Level.info here two_loggers print_plain (codes "hi") [] 1 0
      two_loggers-IsReady (omega arith) (omega arith) refl refl

-- Thread 0 sets the value from 3 to 5.
abbrev called : Shared ℕ
called = go 0 (compares 5) (start 3)

abbrev set_once : Shared ℕ
set_once = store_value types true 0 5 (compare_and_tell types true 0 5 called)

set_once-Reach : Reach types true AllOutside 3 set_once
unfolding compare_and_tell
set_once-Reach =
    later (later (later begin (calls 0 5 refl (λ j. refl))) (tells 0 5 refl)) (sets 0 5 refl)

set_once-AllOutside : AllOutside set_once
unfolding compare_and_tell store_value
set_once-AllOutside j = ground arith

told_in_turn_example : Leads 3 set_once.told set_once.val
told_in_turn_example = told_in_turn types true 3 set_once-Reach set_once-AllOutside

told_in_race_example :
    (s : Shared ℕ) × Reach types true (λ u. Unit {0}) 3 s
    × AllOutside s
    × (s.val ≡ 5)
    × (s.told ≡ (3, 7) ∷ (3, 5) ∷ [])
told_in_race_example = told_in_race types true 3 5 7 refl refl

log_assert_lem_example :
    ((s' : Store) × (log_assert
          (λ fmt t. fmt)
          env
          mains
          2
          here
          0
          false
          (codes "x > 0")
          none
          two_loggers
          no_work
        ≡ ok (s', no_work, aborts))
      × (append_all
            (λ fmt t. fmt)
            env
            (0 ∷ [])
            Level.error
            (failure
              (λ fmt t. fmt)
              env
              mains
              here
              0
              (codes "x > 0")
              none
              two_loggers
              no_work
              (name_all (frames 100)))
            two_loggers
          ≡ ok s')
      × Same two_loggers s')
    × (lines (backtrace_to_string mains 100 (pos 2) (codes "    ") no_work).0
        ≡ map (λ text. codes "    " ++ text) (drop 2 (name_all (frames 100))))
    × (log_assert (λ fmt t. fmt) env mains 2 here 0 true (codes "x > 0") none two_loggers no_work
        ≡ ok (two_loggers, no_work, goes_on))
log_assert_lem_example =
    log_assert_lem (λ fmt t. fmt) env mains here 0 (codes "x > 0") none two_loggers no_work
      (name_all (frames 100)) 1 two_loggers-IsReady (omega arith) refl refl (mains-IsLine 100)

-- Listeners that count, and one that throws.
abbrev counts : Throwing types true
counts old new w = (w + 1, false)

abbrev throws_out : Throwing types true
throws_out old new w = (w + 10, true)

from_string_until-throws_example :
    from_string_until types true (codes "9") 3 ((1, counts) ∷ (2, throws_out) ∷ (4, counts) ∷ []) 0
    ≡ (3, 11, true)
from_string_until-throws_example =
    from_string_until-throws types true ((1, counts) ∷ []) ((4, counts) ∷ []) 2 throws_out
      (codes "9") 3 b'9' 0 refl refl (refl, tt) refl
