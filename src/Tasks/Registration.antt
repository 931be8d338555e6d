-- ===== src/Tasks/Registration.antt =====
-- server/core/RequestTasks.cpp: the socket pool watches the request exactly while it waits for an
-- event that has not come.
use zhttpd.Base.{
  ℕ, Bool, true, false, not, ◌&&◌, ◌||◌, Option, none, some, List, [], ◌∷◌, ◌++◌, ◌≡◌, refl, arith,
  is_empty, Bool-cases, ◌⊎◌, inl, inr, length, ltb,
}
use zhttpd.Api.{Event, SocketEventType, can_read, can_write, has_error, Buffer}
use zhttpd.Tasks.{
  RequestTasks, PoolCall, monitor, ignore, init, register, unregister, add_end_task,
  add_call_later_task, add_task, get_next_task,
}
use zhttpd.Tasks.Work.{
  expire, schedule_read, flush, schedule_write, schedule_later, schedule_end, has_work, need_read,
  need_write, notify_has_error, on_socket_event, handle_socket_event, reset, Call, adds_end_task,
  adds_call_later_task, adds_task, gets_next_task, has_works, needs_read, needs_write,
  notifies_has_error, handles_socket_event, resets, step, run, timed_out,
}

-- The request waits for a socket event that has not come, and is not in error.
abbrev pub awaits : RequestTasks → Bool
awaits t = ((t.wait_read && not t.can_read) || (t.wait_write && not t.can_write)) && not t.has_error

-- Registrations and their ends follow one another, newest first, and the last one is in force.
abbrev pub Alternates : Bool → List PoolCall → Type 0
Alternates registered [] = registered ≡ false
Alternates true (monitor ∷ cs) = Alternates false cs
Alternates false (ignore ∷ cs) = Alternates true cs
Alternates _ _ = ⊥

pub record Inv (t : RequestTasks) : Type 0 where
  pub registered_iff : t.registered ≡ awaits t
  pub alternating : Alternates t.registered t.pool_calls
  pub output_pending : t.wait_write ≡ true → is_empty t.write_buffers ≡ false

init-Inv : (now : ℕ) → Inv (init now)
unfolding init
init-Inv now = ground arith

register_lem :
    (t : RequestTasks)
    → Alternates t.registered t.pool_calls
    → (t.registered ≡ true → awaits t ≡ true)
    → (t.wait_write ≡ true → is_empty t.write_buffers ≡ false)
    → Inv (register t)
unfolding register
register_lem t a r o = ground arith

unregister_lem :
    (t : RequestTasks)
    → Alternates t.registered t.pool_calls
    → (awaits t ≡ true → t.registered ≡ true)
    → (t.wait_write ≡ true → is_empty t.write_buffers ≡ false)
    → Inv (unregister t)
unfolding unregister
unregister_lem t a r o = ground arith

add_task-Inv :
    (event : Event) (wrapper : ℕ) (buffer : Option Buffer) (t : RequestTasks)
    → Inv t
    → Inv (add_task event wrapper buffer t)
unfolding add_task
add_task-Inv event wrapper buffer t v = ground arith

need_read-Inv : (t : RequestTasks) → Inv t → Inv (need_read t)
unfolding need_read
need_read-Inv t v = ground (arith, register_lem (record t { wait_read = true }))

is_empty-concat {ℓ} : {A : Type ℓ} (xs : List A) (x : A) → is_empty (xs ++ x ∷ []) ≡ false
is_empty-concat [] x = refl
is_empty-concat (_ ∷ xs) x = refl

need_write-Inv : (buf : Buffer) (t : RequestTasks) → Inv t → Inv (need_write buf t)
unfolding need_write
need_write-Inv buf t v = ground (
  arith,
  is_empty-concat t.write_buffers buf,
  register_lem (record t { write_buffers = t.write_buffers ++ buf ∷ []; wait_write = true }),
)

notify_has_error-Inv : (t : RequestTasks) → Inv t → Inv (notify_has_error t)
unfolding notify_has_error
notify_has_error-Inv t v = ground (arith, unregister_lem (record t { has_error = true }))

on_socket_event-Inv :
    (now : ℕ) (event : SocketEventType) (t : RequestTasks)
    → t.has_error ≡ false
    → Inv t
    → Inv (on_socket_event now event t)
unfolding on_socket_event
on_socket_event-Inv now can_read t e v =
    ground (arith, unregister_lem (record t { can_read = true }))
on_socket_event-Inv now can_write t e v =
    ground (arith, unregister_lem (record t { can_write = true }))
on_socket_event-Inv now has_error t e v =
    ground
      (arith, unregister_lem (record t { can_read = false; can_write = false; has_error = true }))

handle_socket_event-Inv :
    (now : ℕ) (event : SocketEventType) (t : RequestTasks)
    → Inv t
    → Inv (handle_socket_event now event t)
unfolding handle_socket_event
handle_socket_event-Inv now event t v = elim (Bool-cases t.has_error) [
  | inl e ↦ simp e v
  | inr e ↦ simp e (on_socket_event-Inv now event t e v)
]

reset-Inv : (t : RequestTasks) → Inv t → Inv (reset t)
unfolding reset
reset-Inv t v = ground (arith, unregister_lem (record t { wait_read = false; wait_write = false }))

expire-Inv : (t : RequestTasks) → Inv t → Inv (expire t)
unfolding expire
expire-Inv t v =
    ground
      (arith, unregister_lem (record t { wait_read = false; wait_write = false; has_error = true }))

schedule_read-Inv : (input : ℕ) (t : RequestTasks) → Inv t → Inv (schedule_read input t)
unfolding schedule_read add_task
schedule_read-Inv input t v = ground arith

is_empty-tail_of_long :
    (buf : Buffer) (rest : List Buffer)
    → ltb 10 (length (buf ∷ rest)) ≡ true
    → is_empty rest ≡ false
is_empty-tail_of_long buf [] h = ground arith
is_empty-tail_of_long buf (_ ∷ _) h = refl

-- With output left to write `hasWork` finds a buffer to send.
flush-Inv :
    (output : ℕ) (t : RequestTasks) (bufs : List Buffer)
    → is_empty bufs ≡ false
    → t.wait_write ≡ true
    → (t.can_write || ltb 10 (length bufs)) ≡ true
    → Inv t
    → (u : RequestTasks) × (flush output t bufs ≡ some u) × Inv u
unfolding flush add_task
flush-Inv output t [] e w c v = cc
flush-Inv output t (buf ∷ rest) e w c v =
    let long = is_empty-tail_of_long buf rest in
    (_, refl, register_lem _ v.alternating (ground (arith, long)) (ground arith))

schedule_write-Inv :
    (output : ℕ) (t : RequestTasks)
    → Inv t
    → (u : RequestTasks) × (schedule_write output t ≡ some u) × Inv u
unfolding schedule_write
schedule_write-Inv output t v =
    elim (Bool-cases (t.wait_write && (t.can_write || ltb 10 (length t.write_buffers)))) [
      | inl e ↦
          simp e (flush-Inv output t t.write_buffers (ground arith) (ground arith) (ground arith) v)
      | inr e ↦ simp e (t, refl, v)
    ]

schedule_later-Inv : (now : ℕ) (t : RequestTasks) → Inv t → Inv (schedule_later now t)
unfolding schedule_later
schedule_later-Inv now t v = ground arith

schedule_end-Inv : (t : RequestTasks) → Inv t → Inv (schedule_end t)
unfolding schedule_end
schedule_end-Inv t v = ground arith

-- `hasWork` finds every front that it takes.
pub has_work-Inv :
    (input output now : ℕ) (t : RequestTasks)
    → Inv t
    → (r : Bool × RequestTasks) × (has_work input output now t ≡ some r) × Inv r.1
unfolding has_work
has_work-Inv input output now t v = elim (Bool-cases t.has_error) [
  | inl e ↦ ((false, t), simp e, v)
  | inr e ↦ elim (Bool-cases (timed_out now t)) [
    | inl late ↦ ((false, expire t), simp (e, late), expire-Inv t v)
    | inr early ↦
        let (u, written, w) =
          schedule_write-Inv output (schedule_read input t) (schedule_read-Inv input t v) in
        let z = schedule_end (schedule_later now u) in
        (
          (not (is_empty z.tasks), z),
          simp (e, early, written),
          schedule_end-Inv _ (schedule_later-Inv now u w),
        )
  ]
]

add_call_later_task-Inv :
    (now wrapper delay : ℕ) (t : RequestTasks)
    → Inv t
    → Inv (add_call_later_task now wrapper delay t)
unfolding add_call_later_task
add_call_later_task-Inv now wrapper delay t v = ground arith

add_end_task-Inv : (wrapper : ℕ) (t : RequestTasks) → Inv t → Inv (add_end_task wrapper t)
unfolding add_end_task
add_end_task-Inv wrapper t v = ground arith

-- A call that is not `getNextTask` never faults.
step_total :
    (c : Call) (t : RequestTasks)
    → Inv t
    → ((c ≡ gets_next_task) ⊎ ((u : RequestTasks) × (step c t ≡ some u) × Inv u))
unfolding step
step_total (adds_end_task wrapper) t v = inr (_, refl, add_end_task-Inv wrapper t v)
step_total (adds_call_later_task now wrapper delay) t v =
    inr (_, refl, add_call_later_task-Inv now wrapper delay t v)
step_total (adds_task event wrapper buffer) t v =
    inr (_, refl, add_task-Inv event wrapper buffer t v)
step_total gets_next_task t v = inl refl
step_total (has_works input output now) t v =
    let (r, e, w) = has_work-Inv input output now t v in inr (r.1, simp e, w)
step_total needs_read t v = inr (_, refl, need_read-Inv t v)
step_total (needs_write buf) t v = inr (_, refl, need_write-Inv buf t v)
step_total notifies_has_error t v = inr (_, refl, notify_has_error-Inv t v)
step_total (handles_socket_event now event) t v =
    inr (_, refl, handle_socket_event-Inv now event t v)
step_total resets t v = inr (_, refl, reset-Inv t v)

List-cases {ℓ} : {A : Type ℓ} (xs : List A) → (xs ≡ []) ⊎ ((x : A) × (r : List A) × (xs ≡ x ∷ r))
List-cases [] = inl refl
List-cases (x ∷ r) = inr (x, r, refl)

gets_next_task_cases :
    (t : RequestTasks)
    → Inv t
    → ((t.tasks ≡ []) × (step gets_next_task t ≡ none))
      ⊎ ((u : RequestTasks) × (step gets_next_task t ≡ some u) × Inv u)
unfolding step get_next_task
gets_next_task_cases t v = elim (List-cases t.tasks) [
  | inl e ↦ inl (e, rw (e, step, get_next_task))
  | inr (x, r, e) ↦ inr (record t { tasks = r }, ground arith, ground arith)
]

step_cases :
    (c : Call) (t : RequestTasks)
    → Inv t
    → ((c ≡ gets_next_task) × (t.tasks ≡ []) × (step c t ≡ none))
      ⊎ ((u : RequestTasks) × (step c t ≡ some u) × Inv u)
step_cases c t v = elim (step_total c t v) [
  | inr r ↦ inr r
  | inl e ↦ elim (gets_next_task_cases t v) [
    | inl (f, g) ↦ inl (e, f, rw e g)
    | inr (u, g, w) ↦ inr (u, rw e g, w)
  ]
]

run_from-Inv : (cs : List Call) (t u : RequestTasks) → Inv t → run cs t ≡ some u → Inv u
unfolding run
run_from-Inv [] t u v e = ground arith
run_from-Inv (c ∷ cs) t u v e = elim (step_cases c t v) [
  | inl (_, _, f) ↦ cc (rw (f, run) at e)
  | inr (w, f, v') ↦ run_from-Inv cs w u v' (rw (f, run) at e)
]

-- After any sequence of calls on a new request: the socket pool watches the request exactly if it
-- awaits an event and has no error; it was asked to start and to stop watching in turns; and
-- whenever output is awaited there is a buffer to write.
pub run-Inv : (now : ℕ) (cs : List Call) (u : RequestTasks) → run cs (init now) ≡ some u → Inv u
run-Inv now cs u e = run_from-Inv cs (init now) u (init-Inv now) e

-- In no state that calls on a new request lead to does a further call take the front of an empty
-- list, but for `getNextTask` with no task queued. So the assertion in `hasWork` holds.
pub step-run_fault :
    (now : ℕ) (cs : List Call) (u : RequestTasks) (c : Call)
    → run cs (init now) ≡ some u
    → step c u ≡ none
    → (c ≡ gets_next_task) × (u.tasks ≡ [])
step-run_fault now cs u c e f = elim (step_cases c u (run-Inv now cs u e)) [
  | inl (g, h, _) ↦ (g, h)
  | inr (w, g, _) ↦ cc
]
