-- ===== src/Thread.antt =====
-- atpdxy/thread.h and atpdxy/thread.cpp. A thread that is made and the one that makes it take steps
-- in any order; the semaphore between them is its count. The ids of the kernel and of pthread are
-- given, and so is what the calls of pthread return, with 0 for success.
pub mod Handshake
pub mod Release
use atpdxy.Common.{
  ℕ, zero, suc, ◌+◌, ◌-◌, ◌%◌, ◌≡◌, Bool, true, false, Option, none, some, List, [], ◌∷◌, ◌==◌,
  if◌then◌else◌,
}
use atpdxy.Common.Bytes.{Bytes, codes, is_empty}
use atpdxy.Common.Result.{Result, ok, fail, logic_error}

-- `m_id` is `none` for -1 and `m_thread` for 0; a callback is a value of which only the identity
-- matters here; `semaphore` is the count of `m_semaphore`.
pub record Thread : Type 0 where
  pub id : Option ℕ
  pub handle : Option ℕ
  pub cb : Option ℕ
  pub name : Bytes
  pub semaphore : ℕ

-- The variables of a thread of its own: whether `t_thread` is this Thread, and `t_thread_name`.
pub record Locals : Type 0 where
  pub is_this : Bool
  pub thread_name : Bytes

abbrev pub unknow_name : Bytes
unknow_name = codes "UNKNOW"

abbrev pub first_locals : Locals
first_locals = record { is_this = false; thread_name = unknow_name }

-- The constructor up to the call of pthread_create.
unfoldable pub new_thread : ℕ → Bytes → Thread
new_thread cb name = record {
  id = none;
  handle = none;
  cb = some cb;
  name = if is_empty name then unknow_name else name;
  semaphore = 0;
}

-- `wait` and `notify` of Semaphore: sem_wait blocks while the count is 0.
pub wait : Thread → Option Thread
wait t = if t.semaphore == 0 then none else some (record t { semaphore = t.semaphore - 1 })

pub notify : Thread → Thread
notify t = record t { semaphore = t.semaphore + 1 }

-- Where the constructor is: in front of pthread_create, in front of `wait`, or over.
pub data Maker : Type 0 where
  creating waiting returned threw : Maker

-- Where `run` is, by the statement that comes next; `swap` has left the callback in `cb`.
pub data Runner : Type 0 where
  absent sets_this sets_name sets_id swaps notifies calls finished : Runner

-- `called` are the callbacks that were called.
pub record System : Type 0 where
  pub thread : Thread
  pub maker : Maker
  pub runner : Runner
  pub locals : Locals
  pub taken : Option ℕ
  pub called : List (Option ℕ)

-- The constructor, given the pthread id and what pthread_create returns. The new thread is there
-- when the call has succeeded.
pub create : ℕ → ℕ → System → System
create rt handle s =
    if rt == 0
    then record s {
      thread = record s.thread { handle = some handle };
      maker = waiting;
      runner = sets_this;
    }
    else record s { maker = threw }

pub maker_step : ℕ → ℕ → Maker → System → System
unfolding create wait
maker_step rt handle creating s = create rt handle s
maker_step rt handle waiting s = elim (wait s.thread) [
  | none ↦ s
  | some t ↦ record s { thread = t; maker = returned }
]
maker_step rt handle _ s = s

-- `run`, statement by statement, given the kernel's id of the new thread. pthread_setname_np only
-- tells the kernel the name.
pub runner_step : ℕ → Runner → System → System
unfolding notify
runner_step tid sets_this s = record s {
  locals = record s.locals { is_this = true };
  runner = sets_name;
}
runner_step tid sets_name s = record s {
  locals = record s.locals { thread_name = s.thread.name };
  runner = sets_id;
}
runner_step tid sets_id s = record s { thread = record s.thread { id = some tid }; runner = swaps }
runner_step tid swaps s = record s {
  thread = record s.thread { cb = s.taken };
  taken = s.thread.cb;
  runner = notifies;
}
runner_step tid notifies s = record s { thread = notify s.thread; runner = calls }
runner_step tid calls s = record s { called = s.taken ∷ s.called; runner = finished }
runner_step tid _ s = s

-- In front of the constructor's call of pthread_create.
abbrev pub begin : ℕ → Bytes → System
begin cb name = record {
  thread = new_thread cb name;
  maker = creating;
  runner = absent;
  locals = first_locals;
  taken = none;
  called = [];
}

-- The calls of pthread on the handle.
pub data Call : Type 0 where
  joins detaches : ℕ → Call

-- `join`, given what pthread_join returns; the destructor.
join_of : ℕ → Option ℕ → Thread → Result (Thread × List Call)
join_of rt none t = ok (t, [])
join_of rt (some h) t =
    if rt == 0 then ok (record t { handle = none }, joins h ∷ []) else fail logic_error

pub join : ℕ → Thread → Result (Thread × List Call)
unfolding join_of
join rt t = join_of rt t.handle t

destroy_of : Option ℕ → List Call
destroy_of none = []
destroy_of (some h) = detaches h ∷ []

pub destroy : Thread → List Call
unfolding destroy_of
destroy t = destroy_of t.handle

-- `SetName`, in a thread whose Thread is given, if it has one.
unfoldable pub set_name : Bytes → Option Thread → Locals → Option Thread × Locals
set_name name none l = (none, record l { thread_name = name })
set_name name (some t) l = (some (record t { name = name }), record l { thread_name = name })
