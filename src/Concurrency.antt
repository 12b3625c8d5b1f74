-- ===== src/Concurrency.antt =====
-- nameko/utils/concurrency/__init__.py: fail_fast_imap and SpawningProxy. The threads and the
-- consumer of the generator are greenlets: a thread's end runs `handle_result`, and the consumer
-- gives way only in `result_queue.get()` and where it hands a result on.
pub mod Accounts
pub mod Prompt
pub mod Lost
use nameko_zh_cn.Base.{
  ℕ, Bool, true, false, List, [], ◌∷◌, ◌++◌, contains, discard, nat_eq, if◌then◌else◌,
}
use nameko_zh_cn.Values.{Value}
use nameko_zh_cn.Exceptions.{Exc}

-- What a thread puts into the queue: (thread_result, None) or (None, exc_info).
pub data Outcome : Type 0 where
  returned : Value → Outcome
  raised : Exc → Outcome

-- Where the consumer is: at the test of the loop, in `get`, at the end, or out by an exception.
pub data Consumer : Type 0 where
  testing getting finished : Consumer
  threw : Exc → Consumer

pub record Imap : Type 0 where
  pub spawned_threads : List ℕ
  pub result_queue : List Outcome
  pub consumer : Consumer
  pub yielded : List Value
  pub killed : List ℕ

-- for item in items: gt = pool.spawn(call, item); ...
unfoldable pub spawn_all : List ℕ → Imap
spawn_all threads = record {
  spawned_threads = threads;
  result_queue = [];
  consumer = testing;
  yielded = [];
  killed = [];
}

-- handle_result, of a thread that still is among the spawned ones
unfoldable pub handle_result : ℕ → Outcome → Imap → Imap
handle_result gt outcome s =
    if contains gt s.spawned_threads
    then record s {
      spawned_threads = discard gt s.spawned_threads;
      result_queue = s.result_queue ++ outcome ∷ [];
    }
    else s

-- while spawned_threads: ...
unfoldable pub test_loop : List ℕ → Imap → Imap
test_loop [] s = record s { consumer = finished }
test_loop (t ∷ ts) s = record s { consumer = getting }

-- result_queue.get(): on an empty queue it waits.
unfoldable pub take_result : List Outcome → Imap → Imap
take_result [] s = s
take_result (returned v ∷ queue) s = record s {
  result_queue = queue;
  yielded = s.yielded ++ v ∷ [];
  consumer = testing;
}
take_result (raised e ∷ queue) s = record s {
  result_queue = queue;
  killed = s.spawned_threads;
  consumer = threw e;
}

consume : Consumer → Imap → Imap
unfolding test_loop take_result
consume testing s = test_loop s.spawned_threads s
consume getting s = take_result s.result_queue s
consume finished s = s
consume (threw e) s = s

pub data Action : Type 0 where
  ends : ℕ → Outcome → Action
  resumes : Action

unfoldable pub step : Action → Imap → Imap
unfolding handle_result consume
step (ends gt outcome) s = handle_result gt outcome s
step resumes s = consume s.consumer s

unfoldable pub run : List Action → Imap → Imap
unfolding step
run [] s = s
run (a ∷ as_) s = run as_ (step a s)

-- SpawningProxy's method on no item at all: an empty list, with no thread.
unfoldable pub call_all : List ℕ → List Action → Imap
unfolding spawn_all run
call_all [] schedule = record (spawn_all []) { consumer = finished }
call_all (t ∷ ts) schedule = run schedule (spawn_all (t ∷ ts))
