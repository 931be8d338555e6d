-- ===== src/Request/Run.antt =====
-- server/core/Request.cpp, `processTask`, and server/core/ModuleTask.hpp, `run`: one module handles
-- one event.
use zhttpd.Base.{Bool, true, false, Option, none, some, ◌>>=◌}
use zhttpd.Api.{Event, on_can_read, on_can_write, on_idle, on_end, on_error, Buffer}
use zhttpd.Tasks.{ModuleTask, add_end_task}
use zhttpd.Tasks.Work.{notify_has_error}
use zhttpd.Chain.{head}
use zhttpd.Request.{Request, release, raise_end}

-- How a call ends: with a value, with an exception, or in undefined behaviour.
pub data Outcome : Type 0 where
  returns : Bool → Request → Outcome
  throws : Request → Outcome
  breaks : Outcome

-- A module's `processRequest`: what its answer is and what it does to the request.
abbrev pub Behaviour : Type 0
Behaviour = Event → Option Buffer → Request → Outcome

unfoldable pub release_any : Option Buffer → Request → Request
release_any none r = r
release_any (some buf) r = release buf r

abbrev done : Option Request → Outcome
done none = breaks
done (some r) = returns true (record r { current = none })

-- What `processTask` does after a module that did not handle the event. Reading and writing leave
-- `_current_module` set.
unfoldable pub unhandled : Event → Option Buffer → Request → Outcome
unfolding release_any
unhandled on_can_read buf r = returns true (release_any buf r)
unhandled on_can_write buf r = returns true (release_any buf r)
unhandled on_end buf r = done (raise_end r)
unhandled on_idle buf r = done (some r)
unhandled on_error buf r = done (some r)
unhandled _ none r = breaks
unhandled _ (some buf) r = done (do
  first ← head r.modules
  let s = release buf r
  some (record s { tasks = add_end_task first.id s.tasks }))

-- `processTask`.
unfoldable pub process_task : Behaviour → ModuleTask → Request → Outcome
unfolding unhandled
process_task process task r = elim r.current [
  | some _ ↦ throws (release_any task.buffer r)
  | none ↦ elim (process task.event task.buffer (record r { current = some task.wrapper })) [
    | returns true s ↦ done (some s)
    | returns false s ↦ unhandled task.event task.buffer s
    | throws s ↦ throws s
    | breaks ↦ breaks
  ]
]

-- `ModuleTask::run` and the destructor behind it. A task that ended in an exception has not been
-- marked as triggered, and gives its buffer back.
unfoldable pub run_task : Behaviour → ModuleTask → Request → Option Request
unfolding process_task
run_task process task r = elim (process_task process task r) [
  | breaks ↦ none
  | returns _ s ↦ some (record s { queued = false })
  | throws s ↦
      let failed = record s { tasks = notify_has_error s.tasks; queued = false } in
      some (release_any task.buffer failed)
]
