-- ===== src/Scheduler/Lifetime/Alone.antt =====
-- `stop` in atpdxy/scheduler.cpp on a scheduler that has no thread but the one that made it.
use atpdxy.Scheduler.Lifetime.Entry.{
  prepared, prepare-prepared, CanStart, IsAlone, new_other, new_rest, entered, root_worker,
  called_lem, entered-Loop,
}
use atpdxy.Common.{
  ℕ, ◌≡◌, refl, sym, ap, ◌∙◌, subst, ◌≢◌, ◌<◌, Bool, true, false, not, ◌&&◌, Option, none, some,
  List, [], ◌∷◌, arith, if◌then◌else◌, All, ==_self,
}
use atpdxy.Common.Result.{Result, ok, assert, ◌>>=◌, ◌>>◌}
use atpdxy.Fiber.{
  is_some, points_to, new_fiber, State, term, caller_main_func, start, suspended, finished, Machine,
  Ending, returned,
}
use atpdxy.Fiber.Control.{state_after, over}
use atpdxy.Fiber.Calls.{
  called, call-called, called_rest, caller_ended, caller_main_func_end-ended, caller_ended_lem,
  caller_ended_other, caller_ended_thread, called_back,
}
use atpdxy.Scheduler.{tickle, stopping, Task, Scheduler}
use atpdxy.Scheduler.Round.{run, World, Turn}
use atpdxy.Scheduler.Round.Drain.{Drained}
use atpdxy.Scheduler.Round.Robin.{fibers, rounds, turns, drain_lem}
use atpdxy.Scheduler.Round.Stops.{stopping_made}
use atpdxy.Scheduler.Lifetime.{Site, call_root, tickle_times, stop_root, stop_rest, stop}

pub stopping_busy :
    (s : Scheduler) {t : Task} {ts : List Task} → s.tasks ≡ t ∷ ts → stopping s ≡ false
unfolding stopping
stopping_busy s e = ground arith

and_false : (b c : Bool) → c ≡ false → (b && c) ≡ false
and_false b c e = ground arith

-- `stop` has gone through the queue: each fiber has ended as its callback did, the root fiber has
-- ended for good, the thread's fiber runs again, and no other fiber but the two was touched.
pub record IsDone (self r t : ℕ) (end_of : ℕ → Ending) (ps : List ℕ) (s s' : Site) : Type 0 where
  pub tasks_eq : s'.sched.tasks ≡ []
  pub stopped : stopping s'.sched ≡ true
  pub is_stopping_eq : s'.sched.is_stopping ≡ true
  pub here_eq : s'.this_scheduler ≡ some self
  pub root_over : (s'.machine.fibers r).state ≡ term
  pub root_ctx : (s'.machine.fibers r).ctx ≡ finished
  pub root_eq : s'.sched.root_fiber ≡ s.sched.root_fiber
  pub root_thread_eq : s'.sched.root_thread ≡ s.sched.root_thread
  pub no_threads : s'.sched.thread_count ≡ s.sched.thread_count
  pub thread_eq : s'.machine.thread_fiber ≡ some t
  pub back : s'.machine.running ≡ some t
  pub this_eq : s'.machine.this_fiber ≡ some t
  pub ended : All (λ p. (s'.machine.fibers p).state ≡ state_after (over (end_of p))) ps
  pub others :
      (q : ℕ)
      → q < s.machine.next
      → All (λ p. q ≢ p) ps
      → r ≢ q
      → t ≢ q
      → s'.machine.fibers q ≡ s.machine.fibers q

-- The site behind the call of the root fiber, whose loop left `w'`.
abbrev gone_through : ℕ → ℕ → ℕ → World → Site → Site
gone_through self r t w' s = record s {
  sched = w'.sched;
  machine = caller_ended r t returned w'.machine;
  this_scheduler = some self;
}

call_root_lem :
    (self size tid r t : ℕ) (us : List Turn) (s : Site) {w' : World} {n : ℕ}
    → s.machine.thread_fiber ≡ some t
    → t ≢ r
    → (s.machine.fibers r).ctx ≡ start
    → (s.machine.fibers r).func ≡ caller_main_func
    → s.sched.root_thread ≡ some tid
    → run size us
        (root_worker tid s)
        (record { sched = s.sched; machine = (new_fiber size 0 0 false (called r t s.machine)).0 })
      ≡ ok (some (w', n))
    → w'.machine.running ≡ some r
    → w'.machine.thread_fiber ≡ some t
    → (w'.machine.fibers t).ctx ≡ suspended (some t)
    → call_root self size tid us r s ≡ ok (gone_through self r t w' s)
unfolding call_root
call_root_lem self size tid r t us s {w'} {n} thread ne ctx func root e runs thread' back_to =
    let w : World = record { sched = s.sched; machine = called r t s.machine } in
    let e' : run size us (prepared size tid w).1 (prepared size tid w).0 ≡ ok (some (w', n)) =
      subst
        (λ i.
          run size us (record { tid = tid; idle_fiber = i; cb_fiber = none })
            (prepared size tid w).0
          ≡ ok (some (w', n)))
        (sym (called_rest r t s.machine).2) e in
    rw
      (
        call-called r t s.machine thread ne ctx,
        ctx,
        func,
        prepare-prepared size tid w root,
        e',
        caller_main_func_end-ended r t w'.machine runs thread' ne back_to,
      )
      refl

pub stop_root_lem :
    (self size tid r : ℕ) (us : List Turn) (s : Site) {res : Result Site}
    → stopping (tickle s.sched) ≡ false
    → call_root self size tid us r (record s { sched = tickle s.sched }) ≡ res
    → stop_root self size tid us (some r) s ≡ res
unfolding stop_root
stop_root_lem self size tid r us s busy e =
    ap
      (λ b.
        if not b
        then call_root self size tid us r (record s { sched = tickle s.sched })
        else ok (record s { sched = tickle s.sched }))
      busy
    ∙ e

-- The assertion on `GetThis()`.
guard_holds :
    (self tid : ℕ) (here root : Option ℕ)
    → here ≡ some self
    → root ≡ some tid
    → (if is_some root then points_to here self else not (points_to here self)) ≡ true
guard_holds self tid here root e f = rw (e, f) (==_self self)

-- The threads are taken out of the scheduler, and joined.
abbrev let_go : Site → Site × List ℕ
let_go s = (record s { sched = record s.sched { threads = [] } }, s.sched.threads)

pub stop_rest_lem :
    (self size tid r : ℕ) (us : List Turn) (s : Site) {res : Result Site}
    → s.this_scheduler ≡ some self
    → s.sched.root_thread ≡ some tid
    → s.sched.thread_count ≡ 0
    → s.sched.root_fiber ≡ some r
    → stop_root self size tid us
        (some r)
        (record s { sched = record s.sched { is_stopping = true } })
      ≡ res
    → stop_rest self size tid us s ≡ (res >>= λ s'. ok (let_go s'))
unfolding stop_rest tickle_times
stop_rest_lem self size tid r us s {res = res} here root count fiber e =
    let told : Scheduler = record s.sched { is_stopping = true } in
    let woken : ℕ → Site = λ n. record s { sched = tickle_times n told } in
    let called_back : stop_root self size tid us s.sched.root_fiber (woken s.sched.thread_count)
        ≡ res =
      ap (λ o. stop_root self size tid us o (woken s.sched.thread_count)) fiber
      ∙ ap (λ n. stop_root self size tid us (some r) (woken n)) count
      ∙ e in
    ap
      (λ b.
        assert b
        >> (stop_root self size tid us s.sched.root_fiber (woken s.sched.thread_count) >>= λ s'.
            ok (let_go s')))
      (guard_holds self tid s.this_scheduler s.sched.root_thread here root)
    ∙ ap (λ x. x >>= λ s'. ok (let_go s')) called_back

pub stop_eq :
    (self size tid : ℕ) (us : List Turn) (s : Site) {t : Task} {ts : List Task}
    → s.sched.tasks ≡ t ∷ ts
    → stop self size tid us s
      ≡ stop_rest self size tid us (record s { sched = record s.sched { auto_stop = true } })
unfolding stop
stop_eq self size tid us s e =
    let told : Scheduler = record s.sched { auto_stop = true; is_stopping = true } in
    ap
      (λ b.
        if b
        then ok (record s { sched = told }, [])
        else stop_rest self size tid us (record s { sched = record s.sched { auto_stop = true } }))
      (and_false _ (stopping told) (stopping_busy told e))

still_ended :
    (r t : ℕ) (m : Machine) (f : ℕ → State) (ps : List ℕ) (o : Machine)
    → All (CanStart r t o) ps
    → All (λ p. (m.fibers p).state ≡ f p) ps
    → All (λ p. ((caller_ended r t returned m).fibers p).state ≡ f p) ps
still_ended r t m f [] o h k = tt
still_ended r t m f (p ∷ ps) o (c, h) (e, k) =
    (ap (λ x. x.state) (caller_ended_other r t m p c.not_root) ∙ e, still_ended r t m f ps o h k)

gone_through-IsDone :
    (self size tid r t : ℕ) (end_of : ℕ → Ending) (ps : List ℕ) (s : Site) (w' : World)
    → IsAlone self tid r t ps s
    → Drained r s.machine.next end_of ps (entered size r t s) w'
    → w'.machine.thread_fiber ≡ some t
    → IsDone self r t end_of ps s
        (record (gone_through self r t w' s) { sched = record w'.sched { threads = [] } })
unfolding tickle
gone_through-IsDone self size tid r t end_of ps s w' x d thread =
    let (root, run, this, over') = caller_ended_lem r t w'.machine in
    record {
      tasks_eq = d.tasks_eq;
      stopped =
          stopping_made (record w'.sched { threads = [] }) d.auto_stop_eq d.is_stopping_eq
            d.tasks_eq d.no_active;
      is_stopping_eq = d.is_stopping_eq;
      here_eq = refl;
      root_over = root;
      root_ctx = over';
      root_eq = d.root_fiber_eq;
      root_thread_eq = d.root_thread_eq;
      no_threads = d.thread_count_eq;
      thread_eq = caller_ended_thread r t w'.machine ∙ thread;
      back = run;
      this_eq = this;
      ended =
          still_ended r t w'.machine (λ p. state_after (over (end_of p))) ps s.machine x.waiting
            d.ended;
      others = λ q l a b c.
          caller_ended_other r t w'.machine q b
          ∙ d.others q a b (omega arith)
          ∙ called_lem r t s.machine size q b c l;
    }

not_thread : (r t : ℕ) (m : Machine) (ps : List ℕ) → All (CanStart r t m) ps → All (λ p. t ≢ p) ps
not_thread r t m [] h = tt
not_thread r t m (p ∷ ps) (c, h) = (c.not_thread, not_thread r t m ps h)

-- The thread's fiber is where it called the root fiber.
thread_waits :
    (self size tid r t : ℕ) (end_of : ℕ → Ending) (ps : List ℕ) (s : Site) (w' : World)
    → IsAlone self tid r t ps s
    → Drained r s.machine.next end_of ps (entered size r t s) w'
    → (w'.machine.fibers t).ctx ≡ suspended (some t)
unfolding tickle
thread_waits self size tid r t end_of ps s w' x d =
    ap (λ f. f.ctx)
      (d.others t (not_thread r t s.machine ps x.waiting) x.root_not_thread
          (omega (arith, x.thread_made))
        ∙ new_other size 0 (called r t s.machine) t
            (subst (λ n. t < n) (sym (called_rest r t s.machine).2) x.thread_made))
    ∙ called_back r t s.machine (λ i. x.root_not_thread (sym i))
    ∙ ap suspended x.runs

-- On a scheduler that is alone, `stop` with fibers in the queue that yield so many times and then
-- end succeeds, and all is done.
pub stop_lem :
    (self size tid r t : ℕ) (end_of : ℕ → Ending) (p n : ℕ) (js : List (ℕ × ℕ)) (u v : Turn)
    (s : Site)
    → IsAlone self tid r t (p ∷ fibers js) s
    → (s' : Site) × (stop self size tid (turns end_of (rounds ((p, n) ∷ js)) ((p, n) ∷ js) u v) s
        ≡ ok (s', []))
      × IsDone self r t end_of (p ∷ fibers js) s s'
unfolding tickle
stop_lem self size tid r t end_of p n js u v s x =
    let us = turns end_of (rounds ((p, n) ∷ js)) ((p, n) ∷ js) u v in
    let told : Scheduler = record s.sched { auto_stop = true; is_stopping = true } in
    let (w', e, d) =
      drain_lem size r end_of ((p, n) ∷ js) u v (root_worker tid s) (entered size r t s)
        (entered-Loop self size tid r t (p ∷ fibers js) s x) in
    let thread =
      d.thread_eq
      ∙ (new_rest size 0 (called r t s.machine)).0
      ∙ (called_rest r t s.machine).0
      ∙ x.thread_eq in
    let gone =
      call_root_lem self size tid r t us (record s { sched = tickle told }) x.thread_eq
        (λ i. x.root_not_thread (sym i)) x.root_ctx x.root_func x.root_thread_eq e d.running_eq
        thread (thread_waits self size tid r t end_of (p ∷ fibers js) s w' x d) in
    let root =
      stop_root_lem self size tid r us (record s { sched = told })
        (stopping_busy (tickle told) x.tasks_eq) gone in
    (
      record (gone_through self r t w' s) { sched = record w'.sched { threads = [] } },
      stop_eq self size tid us s x.tasks_eq
          ∙ stop_rest_lem self size tid r us
              (record s { sched = record s.sched { auto_stop = true } }) x.here_eq x.root_thread_eq
              x.no_threads x.root_eq root
          ∙ ap
              (λ q. ok (
                record (gone_through self r t w' s) { sched = record w'.sched { threads = [] } },
                q,
              ))
              (d.threads_eq ∙ x.threads_eq),
      gone_through-IsDone self size tid r t end_of (p ∷ fibers js) s w' x d thread,
    )
