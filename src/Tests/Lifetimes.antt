-- ===== src/Tests/Lifetimes.antt =====
-- A scheduler of one thread, and one of several, from beginning to end.
use atpdxy.Common.{ℕ, ◌+◌, ◌≡◌, refl, true, false, none, some, [], ◌∷◌, if◌then◌else◌, ◌==◌, arith}
use atpdxy.Common.Bytes.{codes}
use atpdxy.Common.Result.{ok, fail, assertion}
use atpdxy.Fiber.{Fiber, State, Func, Context, Ending}
use atpdxy.Thread.{first_locals}
use atpdxy.Scheduler.{fiber_task, schedule}
use atpdxy.Scheduler.Round.Robin.{rounds, turns}
use atpdxy.Scheduler.Lifetime.Entry.{IsAlone}
use atpdxy.Scheduler.Lifetime.{Site, blank, stop}
use atpdxy.Scheduler.Lifetime.Again.{stop_again}
use atpdxy.Scheduler.Lifetime.Whole.{Lives, life_ends}
use atpdxy.Tests.Rounds.{yields}

abbrev no_fiber : Fiber
no_fiber = record {
  id = 0;
  stacksize = 0;
  state = State.init;
  func = Func.of_thread;
  ctx = Context.unset;
  has_stack = false;
  cb = none;
}

-- A thread that has made no fiber yet.
abbrev new_site : Site
new_site = record {
  sched = blank [];
  machine = record {
    fibers = λ p. no_fiber;
    next = 0;
    fiber_id = 0;
    fiber_count = 0;
    this_fiber = none;
    thread_fiber = none;
    main_fiber = none;
    running = none;
  };
  this_scheduler = none;
  thread = none;
  locals = first_locals;
}

abbrev end_of : ℕ → Ending
end_of p = if p == 3 then Ending.threw else Ending.returned

life_ends_example :
    Lives 0 1024 9 5
      (codes "test")
      (λ i. i + 100)
      (λ p. p)
      end_of
      (6 ∷ 7 ∷ [])
      (2 ∷ 3 ∷ [])
      yields
      yields
      new_site
life_ends_example =
    life_ends 0 1024 9 5 (codes "test") (λ i. i + 100) (λ p. p) end_of 6 (7 ∷ []) yields yields
      new_site refl refl

abbrev a_fiber : Func → Fiber
a_fiber f = record no_fiber { func = f; ctx = Context.start; has_stack = true }

-- The fiber 2 is in the queue, and 1 is the root fiber.
abbrev alone_site : Site
alone_site = record new_site {
  sched = record (blank []) {
    tasks = fiber_task 2 ∷ [];
    root_fiber = some 1;
    root_thread = some 5;
  };
  machine = record new_site.machine {
    fibers = λ p. a_fiber (if p == 1 then Func.caller_main_func else Func.main_func);
    next = 3;
    this_fiber = some 0;
    thread_fiber = some 0;
    main_fiber = some 1;
    running = some 0;
  };
  this_scheduler = some 0;
}

alone_site-IsAlone : IsAlone 0 5 1 0 (2 ∷ []) alone_site
alone_site-IsAlone = record {
  root_eq = refl;
  root_thread_eq = refl;
  no_threads = refl;
  threads_eq = refl;
  no_active = refl;
  tasks_eq = refl;
  here_eq = refl;
  main_eq = refl;
  thread_eq = refl;
  runs = refl;
  root_ctx = refl;
  root_func = refl;
  root_made = omega arith;
  root_not_thread = λ e. omega (arith, e);
  thread_made = omega arith;
  waiting = (
    record {
      alive = refl;
      rests = refl;
      goes_on = record { goes = refl; func_eq = refl };
      not_root = λ e. omega (arith, e);
      not_thread = λ e. omega (arith, e);
      made = omega arith;
    },
    tt,
  );
  distinct = (tt, tt);
}

stop_again_example :
    (s' : Site) × (stop 0 1024 5
        (turns end_of (rounds ((2, 1) ∷ [])) ((2, 1) ∷ []) yields yields)
        alone_site
      ≡ ok (s', []))
    × (stop 0 1024 5 (yields ∷ []) (record s' { sched = schedule (fiber_task 7) s'.sched })
        ≡ fail assertion)
stop_again_example =
    stop_again 0 1024 5 1 0 end_of 2 1 [] yields yields (yields ∷ []) (fiber_task 7) alone_site
      alone_site-IsAlone refl
