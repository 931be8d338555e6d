-- ===== src/Tasks/Work.antt =====
-- server/core/RequestTasks.cpp: the operations that look at the socket flags.
use mathlib.Core.Option
use zhttpd.Base.{
  ℕ, Bool, true, false, not, ◌&&◌, ◌||◌, Option, none, some, List, [], ◌∷◌, ◌++◌, ltb,
  if◌then◌else◌, length, is_empty,
}
use zhttpd.Api.{
  Event, on_can_read, on_can_write, SocketEventType, can_read, can_write, has_error, Buffer,
}
use zhttpd.Tasks.{
  RequestTasks, ModuleTask, task_buffers, as_list, elapsed, register, unregister, add_end_task,
  add_call_later_task, add_task, get_next_task,
}

-- The first test of `hasWork` after the error flag: something is awaited, nothing of it has come,
-- and the last socket event is more than five seconds old.
unfoldable pub timed_out : ℕ → RequestTasks → Bool
timed_out now t =
    (t.wait_read || t.wait_write)
    && (not t.wait_read || (t.wait_read && not t.can_read))
    && (not t.wait_write || (t.wait_write && not t.can_write))
    && ltb 5000 (elapsed now t.timer_start)

unfoldable pub expire : RequestTasks → RequestTasks
expire t = unregister (record t { wait_read = false; wait_write = false; has_error = true })

unfoldable pub schedule_read : ℕ → RequestTasks → RequestTasks
schedule_read input t =
    if t.wait_read && t.can_read
    then add_task on_can_read input none (record t { wait_read = false; can_read = false })
    else t

-- The front of `_write_buffers` goes to the output module; `none` where there is no front, which
-- the code asserts not to happen.
unfoldable pub flush : ℕ → RequestTasks → List Buffer → Option RequestTasks
flush output t [] = none
flush output t (buf ∷ rest) =
    let cleared = record t { can_write = false; wait_write = false; write_buffers = rest } in
    let added = add_task on_can_write output (some buf) cleared in
    some (register (record added { wait_write = not (is_empty rest) }))

unfoldable pub schedule_write : ℕ → RequestTasks → Option RequestTasks
schedule_write output t =
    if t.wait_write && (t.can_write || ltb 10 (length t.write_buffers))
    then flush output t t.write_buffers
    else some t

abbrev pub is_some : Option ModuleTask → Bool
is_some none = false
is_some (some _) = true

unfoldable pub schedule_later : ℕ → RequestTasks → RequestTasks
schedule_later now t =
    if is_some t.call_later_task && ltb t.call_later_time (elapsed now t.call_later_start)
    then record t { tasks = t.tasks ++ as_list t.call_later_task; call_later_task = none }
    else t

unfoldable pub schedule_end : RequestTasks → RequestTasks
schedule_end t =
    if is_some t.end_task && is_empty t.tasks && is_empty t.write_buffers
    then record t { tasks = t.tasks ++ as_list t.end_task; end_task = none }
    else t

-- `hasWork`: its answer and the state behind it.
unfoldable pub has_work : ℕ → ℕ → ℕ → RequestTasks → Option (Bool × RequestTasks)
has_work input output now t =
    if t.has_error
    then some (false, t)
    else if timed_out now t
    then some (false, expire t)
    else elim (schedule_write output (schedule_read input t)) [
      | none ↦ none
      | some u ↦ let v = schedule_end (schedule_later now u) in some (not (is_empty v.tasks), v)
    ]

-- `hasPendingEvent`.
unfoldable pub has_pending_event : RequestTasks → Bool
has_pending_event t =
    not t.has_error && (is_some t.call_later_task || t.registered || t.wait_read || t.wait_write)

-- `needRead`.
unfoldable pub need_read : RequestTasks → RequestTasks
need_read t = if not t.wait_read then register (record t { wait_read = true }) else t

-- `needWrite`.
unfoldable pub need_write : Buffer → RequestTasks → RequestTasks
need_write buf t =
    let u = record t { write_buffers = t.write_buffers ++ buf ∷ [] } in
    if not t.wait_write then register (record u { wait_write = true }) else u

-- `notifyHasError`.
unfoldable pub notify_has_error : RequestTasks → RequestTasks
notify_has_error t = unregister (record t { has_error = true })

-- The `switch` of `handleSocketEvent`.
unfoldable pub on_socket_event : ℕ → SocketEventType → RequestTasks → RequestTasks
on_socket_event now can_read t =
    if t.can_read
    then t
    else (let u = unregister (record t { can_read = true }) in record u { timer_start = now })
on_socket_event now can_write t =
    if t.can_write
    then t
    else (let u = unregister (record t { can_write = true }) in record u { timer_start = now })
on_socket_event now has_error t =
    unregister (record t { can_read = false; can_write = false; has_error = true })

-- `handleSocketEvent`.
unfoldable pub handle_socket_event : ℕ → SocketEventType → RequestTasks → RequestTasks
unfolding on_socket_event
handle_socket_event now event t = if t.has_error then t else on_socket_event now event t

-- `reset`, which is the destructor too. It gives the pending output back, and leaves it listed.
unfoldable pub reset : RequestTasks → RequestTasks
reset t =
    let u = unregister (record t { wait_read = false; wait_write = false }) in
    record u {
      call_later_task = none;
      end_task = none;
      released =
          u.released
          ++ (task_buffers (u.tasks ++ (as_list u.call_later_task ++ as_list u.end_task))
              ++ u.write_buffers);
      tasks = [];
    }

-- One call of the class's interface.
pub data Call : Type 0 where
  adds_end_task : ℕ → Call
  adds_call_later_task : ℕ → ℕ → ℕ → Call
  adds_task : Event → ℕ → Option Buffer → Call
  gets_next_task : Call
  has_works : ℕ → ℕ → ℕ → Call
  needs_read : Call
  needs_write : Buffer → Call
  notifies_has_error : Call
  handles_socket_event : ℕ → SocketEventType → Call
  resets : Call

-- `none` where the code would take the front of an empty list.
unfoldable pub step : Call → RequestTasks → Option RequestTasks
step (adds_end_task wrapper) t = some (add_end_task wrapper t)
step (adds_call_later_task now wrapper delay) t = some (add_call_later_task now wrapper delay t)
step (adds_task event wrapper buffer) t = some (add_task event wrapper buffer t)
step gets_next_task t = Option.map (λ r. r.1) (get_next_task t)
step (has_works input output now) t = Option.map (λ r. r.1) (has_work input output now t)
step needs_read t = some (need_read t)
step (needs_write buf) t = some (need_write buf t)
step notifies_has_error t = some (notify_has_error t)
step (handles_socket_event now event) t = some (handle_socket_event now event t)
step resets t = some (reset t)

unfoldable pub run : List Call → RequestTasks → Option RequestTasks
run [] t = some t
run (c ∷ cs) t = elim (step c t) [ none ↦ none | some u ↦ run cs u ]
