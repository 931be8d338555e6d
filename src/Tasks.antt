-- ===== src/Tasks.antt =====
-- server/core/RequestTasks.cpp and .hpp: what one request has to do next, and which socket events
-- it waits for. The mutex makes each operation one step. `now` is the wall clock in milliseconds,
-- `input` and `output` are the wrappers that the request's getInputModule and getOutputModule give.
pub mod Work
pub mod Registration
pub mod Buffers
use zhttpd.Base.{
  ℕ, ◌+◌, ◌-◌, ◌%◌, ◌^◌, Bool, true, false, not, ◌&&◌, ◌||◌, Option, none, some, List, [], ◌∷◌,
  ◌++◌, ◌==◌, if◌then◌else◌,
}
use zhttpd.Api.{
  Event, on_can_read, on_can_write, on_idle, on_end, SocketEventType, Buffer, carries_data,
}
use zhttpd.Api

-- `ModuleTask`: the wrapper is named by a number.
pub record ModuleTask : Type 0 where
  pub event : Event
  pub wrapper : ℕ
  pub buffer : Option Buffer

-- What the request asks of the socket pool: `monitorSocketEvent`, `ignoreSocketEvent`.
pub data PoolCall : Type 0 where
  monitor ignore : PoolCall

-- The fields of the class, then what it did to the outside: calls of the socket pool, newest
-- first, and buffers given back to the request's buffer manager, in order.
pub record RequestTasks : Type 0 where
  pub can_read : Bool
  pub can_write : Bool
  pub has_error : Bool
  pub call_later_task : Option ModuleTask
  pub call_later_time : ℕ
  pub call_later_start : ℕ
  pub wait_read : Bool
  pub wait_write : Bool
  pub registered : Bool
  pub end_task : Option ModuleTask
  pub write_buffers : List Buffer
  pub tasks : List ModuleTask
  pub timer_start : ℕ
  pub pool_calls : List PoolCall
  pub released : List Buffer

-- `RequestTasks::RequestTasks`.
unfoldable pub init : ℕ → RequestTasks
init now = record {
  can_read = false;
  can_write = false;
  has_error = false;
  call_later_task = none;
  call_later_time = 0;
  call_later_start = now;
  wait_read = false;
  wait_write = false;
  registered = false;
  end_task = none;
  write_buffers = [];
  tasks = [];
  timer_start = now;
  pool_calls = [];
  released = [];
}

-- `Timer::getElapsedTime`: a difference of 64-bit clocks, cut to 32 bits.
unfoldable pub elapsed : ℕ → ℕ → ℕ
elapsed now start = (now + 2 ^ 64 - start) % 2 ^ 64 % 2 ^ 32

-- `_register`.
unfoldable pub register : RequestTasks → RequestTasks
register t =
    if not t.registered
    then (if ((t.wait_read && not t.can_read) || (t.wait_write && not t.can_write))
          && not t.has_error
        then record t { registered = true; pool_calls = monitor ∷ t.pool_calls }
        else t)
    else t

-- `_unregister`.
unfoldable pub unregister : RequestTasks → RequestTasks
unregister t =
    if t.registered
    then (if ((t.can_read || not t.wait_read) && (t.can_write || not t.wait_write)) || t.has_error
        then record t { registered = false; pool_calls = ignore ∷ t.pool_calls }
        else t)
    else t

abbrev pub idle_task : ℕ → ModuleTask
idle_task wrapper = record { event = on_idle; wrapper = wrapper; buffer = none }

abbrev pub finish_task : ℕ → ModuleTask
finish_task wrapper = record { event = on_end; wrapper = wrapper; buffer = none }

-- The task of a pointer that may be null, as a list.
unfoldable pub as_list : Option ModuleTask → List ModuleTask
as_list none = []
as_list (some task) = task ∷ []

-- The buffers of the tasks, which a task that never ran gives back when it is destroyed.
unfoldable pub task_buffers : List ModuleTask → List Buffer
task_buffers [] = []
task_buffers (task ∷ rest) = elim task.buffer [
  | none ↦ task_buffers rest
  | some buf ↦ buf ∷ task_buffers rest
]

-- `addEndTask`: the last one wins.
unfoldable pub add_end_task : ℕ → RequestTasks → RequestTasks
unfolding as_list task_buffers
add_end_task wrapper t = record t {
  end_task = some (finish_task wrapper);
  released = t.released ++ task_buffers (as_list t.end_task);
}

-- `addCallLaterTask`.
unfoldable pub add_call_later_task : ℕ → ℕ → ℕ → RequestTasks → RequestTasks
unfolding as_list
add_call_later_task now wrapper delay t =
    if delay == 0 then record t { tasks = t.tasks ++ idle_task wrapper ∷ [] } else record t {
      tasks = t.tasks ++ as_list t.call_later_task;
      call_later_start = now;
      call_later_time = delay;
      call_later_task = some (idle_task wrapper);
    }

-- `_addTask` and `addTask`: data goes to the front of the queue, all else to its back.
unfoldable pub add_task : Event → ℕ → Option Buffer → RequestTasks → RequestTasks
add_task event wrapper buffer t =
    let task : ModuleTask = record { event = event; wrapper = wrapper; buffer = buffer } in
    if carries_data event
    then record t { tasks = task ∷ t.tasks }
    else record t { tasks = t.tasks ++ task ∷ [] }

-- `getNextTask`; `none` where the code reads the front of an empty list.
unfoldable pub get_next_task : RequestTasks → Option (ModuleTask × RequestTasks)
get_next_task t = elim t.tasks [ [] ↦ none | task ∷ rest ↦ some (task, record t { tasks = rest }) ]
