-- ===== src/Request/Errors.antt =====
-- server/core/Request.cpp and ModuleTask.hpp: how a request ends in an error.
use zhttpd.Base.{
  ℕ, true, false, Bytes, [], ◌∷◌, ◌++◌, none, some, ◌≡◌, refl, arith, is_empty, ◌∙◌, append_assoc,
  bind-eq-some,
}
use zhttpd.Api.{Buffer}
use zhttpd.Tasks.{RequestTasks, ModuleTask, finish_task, as_list, unregister, add_end_task}
use zhttpd.Tasks.Work.{
  has_work, has_pending_event, reset, notify_has_error, timed_out, schedule_read, schedule_write,
  schedule_later, schedule_end,
}
use zhttpd.Chain.{set_processing_module, head}
use zhttpd.Request.{Request, release, raise_error}
use zhttpd.Request.Run.{Behaviour, release_any, run_task}

-- Nothing is awaited, queued or put off: only the end task and the output list may hold something.
record IsQuiet (t : RequestTasks) : Type 0 where
  no_read : t.wait_read ≡ false
  no_write : t.wait_write ≡ false
  not_registered : t.registered ≡ false
  no_later : t.call_later_task ≡ none
  no_tasks : t.tasks ≡ []

reset-IsQuiet : (t : RequestTasks) → IsQuiet (reset t)
unfolding reset unregister
reset-IsQuiet t = ground arith

reset_end : (t : RequestTasks) → (reset t).end_task ≡ none
unfolding reset
reset_end t = refl

reset_frame :
    (t : RequestTasks)
    → ((reset t).write_buffers ≡ t.write_buffers) × ((reset t).has_error ≡ t.has_error)
unfolding reset unregister
reset_frame t = ground arith

add_end_task_frame :
    (id : ℕ) (t : RequestTasks)
    → ((add_end_task id t).write_buffers ≡ t.write_buffers)
      × ((add_end_task id t).has_error ≡ t.has_error)
      × ((add_end_task id t).end_task ≡ some (finish_task id))
unfolding add_end_task
add_end_task_frame id t = (refl, refl, refl)

add_end_task-IsQuiet : (id : ℕ) (t : RequestTasks) → IsQuiet t → IsQuiet (add_end_task id t)
unfolding add_end_task
add_end_task-IsQuiet id t q = ground arith

has_work-IsQuiet :
    (input output now : ℕ) (t : RequestTasks)
    → IsQuiet t
    → t.end_task ≡ none
    → has_work input output now t ≡ some (false, t)
unfolding has_work timed_out schedule_read schedule_write schedule_later schedule_end
has_work-IsQuiet input output now t q e = ground arith

-- With output left the end task stays where it is.
has_work_blocked :
    (input output now : ℕ) (t : RequestTasks)
    → IsQuiet t
    → is_empty t.write_buffers ≡ false
    → has_work input output now t ≡ some (false, t)
unfolding has_work timed_out schedule_read schedule_write schedule_later schedule_end
has_work_blocked input output now t q e = ground arith

has_work_ends :
    (input output now : ℕ) (t : RequestTasks) (task : ModuleTask)
    → IsQuiet t
    → is_empty t.write_buffers ≡ true
    → t.has_error ≡ false
    → t.end_task ≡ some task
    → has_work input output now t ≡ some (true, record t { tasks = task ∷ []; end_task = none })
unfolding has_work timed_out schedule_read schedule_write schedule_later schedule_end as_list
has_work_ends input output now t task q e f g = ground arith

has_pending_event-IsQuiet : (t : RequestTasks) → IsQuiet t → has_pending_event t ≡ false
unfolding has_pending_event
has_pending_event-IsQuiet t q = ground arith

-- A task that comes to a request whose chain is broken gives its buffer back twice: once in
-- `processTask`, and once more when the task is destroyed.
pub run_task_broken :
    (process : Behaviour) (task : ModuleTask) (buf : Buffer) (r : Request) {id : ℕ}
    → r.current ≡ some id
    → task.buffer ≡ some buf
    → (s : Request) × (run_task process task r ≡ some s)
      × (s.tasks.has_error ≡ true)
      × (s.tasks.released ≡ r.tasks.released ++ buf ∷ buf ∷ [])
unfolding run_task release_any release notify_has_error unregister
run_task_broken process task buf r e f =
    let thrown = release buf r in
    let failed = record thrown { tasks = notify_has_error thrown.tasks; queued = false } in
    (
      release buf failed,
      ground arith,
      ground arith,
      ground (arith, append_assoc r.tasks.released (buf ∷ []) (buf ∷ [])),
    )

-- The end of a request that has raised an error: what `hasWork` says next.
module _ (mod_now : ℕ) (code : ℕ) (reason : Bytes) (r s : Request) where
  raise_error_tasks :
      raise_error mod_now code reason r ≡ some s → s.tasks ≡ add_end_task r.fresh (reset r.tasks)
  unfolding raise_error
  raise_error_tasks e =
      let (_, _, e₁) = bind-eq-some r.current _ e in
      let (l, _, e₂) = bind-eq-some (set_processing_module _ r.modules) _ e₁ in
      let (first, _, e₃) = bind-eq-some (head l) _ e₂ in
      let (last, _, e₄) = bind-eq-some l.tail _ e₃ in
      let quiet =
        has_work-IsQuiet first.id last.id mod_now (reset r.tasks) (reset-IsQuiet r.tasks)
          (reset_end r.tasks) in
      ground (arith, rw quiet at e₄)

  -- If output was pending when the error was raised, the error page is never made: there is no
  -- further work, no event is pending, and the end task of the error module stays where it is.
  pub raise_error_stuck :
      (input output now : ℕ)
      → is_empty r.tasks.write_buffers ≡ false
      → raise_error mod_now code reason r ≡ some s
      → (has_work input output now s.tasks ≡ some (false, s.tasks))
        × (has_pending_event s.tasks ≡ false)
        × (s.tasks.end_task ≡ some (finish_task r.fresh))
  raise_error_stuck input output now h e =
      let t = add_end_task r.fresh (reset r.tasks) in
      let q = add_end_task-IsQuiet r.fresh (reset r.tasks) (reset-IsQuiet r.tasks) in
      let fr = add_end_task_frame r.fresh (reset r.tasks) in
      rw (raise_error_tasks e) (
        has_work_blocked input output now t q (rw (fr.0, (reset_frame r.tasks).0) h),
        has_pending_event-IsQuiet t q,
        fr.2,
      )

  -- If none was pending and the request is not in error already, the next work is the end of the
  -- error module, and there is no other.
  pub raise_error_ends :
      (input output now : ℕ)
      → is_empty r.tasks.write_buffers ≡ true
      → r.tasks.has_error ≡ false
      → raise_error mod_now code reason r ≡ some s
      → (v : RequestTasks) × (has_work input output now s.tasks ≡ some (true, v))
        × (v.tasks ≡ finish_task r.fresh ∷ [])
        × (v.end_task ≡ none)
  raise_error_ends input output now h err e =
      let t = add_end_task r.fresh (reset r.tasks) in
      let q = add_end_task-IsQuiet r.fresh (reset r.tasks) (reset-IsQuiet r.tasks) in
      let fr = add_end_task_frame r.fresh (reset r.tasks) in
      rw (raise_error_tasks e) (
        record t { tasks = finish_task r.fresh ∷ []; end_task = none },
        has_work_ends input output now t (finish_task r.fresh) q
            (rw (fr.0, (reset_frame r.tasks).0) h) (fr.1 ∙ (reset_frame r.tasks).1 ∙ err) fr.2,
        refl,
        refl,
      )
