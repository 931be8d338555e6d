-- ===== src/Tasks/Buffers.antt =====
-- server/core/RequestTasks.cpp: where the buffers of a request are, and when its end comes.
use zhttpd.Base.{
  ℕ, ◌+◌, Bool, true, false, not, ◌&&◌, ◌||◌, none, some, List, [], ◌∷◌, ◌++◌, ◌≡◌, refl, arith,
  is_empty, if◌then◌else◌, Bool-cases, Option-cases, ◌⊎◌, inl, inr, ◌∙◌, sym, ap, length, ltb, ◌==◌,
}
use zhttpd.Api.{on_can_read, on_can_write, Buffer}
use zhttpd.Tasks.{
  RequestTasks, ModuleTask, register, unregister, as_list, task_buffers, add_task, get_next_task,
  elapsed,
}
use zhttpd.Tasks.Work.{
  expire, schedule_read, flush, schedule_write, schedule_later, schedule_end, has_work, reset,
  timed_out, is_some,
}

-- How often the buffer `id` occurs.
abbrev pub count_id : ℕ → List Buffer → ℕ
count_id id [] = 0
count_id id (b ∷ bs) = (if b.id == id then 1 else 0) + count_id id bs

count_id-append :
    (id : ℕ) (xs ys : List Buffer) → count_id id (xs ++ ys) ≡ count_id id xs + count_id id ys
count_id-append id [] ys = omega arith
count_id-append id (x ∷ xs) ys = omega (arith, count_id-append id xs ys)

abbrev pub count_tasks : ℕ → List ModuleTask → ℕ
count_tasks id ts = count_id id (task_buffers ts)

count_tasks-append :
    (id : ℕ) (xs ys : List ModuleTask)
    → count_tasks id (xs ++ ys) ≡ count_tasks id xs + count_tasks id ys
unfolding task_buffers
count_tasks-append id [] ys = omega arith
count_tasks-append id (x ∷ xs) ys = ground (arith, count_tasks-append id xs ys)

-- How often the request holds the buffer `id`: to be written, or in a task.
abbrev pub held : ℕ → RequestTasks → ℕ
held id t =
    count_id id t.write_buffers
    + (count_tasks id t.tasks
        + (count_tasks id (as_list t.call_later_task) + count_tasks id (as_list t.end_task)))

-- The state holds what it held, and gave nothing back.
record Same (id : ℕ) (t u : RequestTasks) : Type 0 where
  same_held : held id u ≡ held id t
  same_released : u.released ≡ t.released

count_tasks-concat :
    (id : ℕ) (ts : List ModuleTask) (task : ModuleTask)
    → count_tasks id (ts ++ task ∷ []) ≡ count_tasks id ts + count_tasks id (task ∷ [])
count_tasks-concat id ts task = count_tasks-append id ts (task ∷ [])

module _ (id : ℕ) (t : RequestTasks) where
  schedule_read-Same : (input : ℕ) → Same id t (schedule_read input t)
  unfolding schedule_read add_task task_buffers
  schedule_read-Same input = elim (Bool-cases (t.wait_read && t.can_read)) [
    | inl e ↦ simp e (record {
      same_held = omega (
        arith,
        count_tasks-concat id t.tasks
            (record { event = on_can_read; wrapper = input; buffer = none }),
      );
      same_released = refl;
    })
    | inr e ↦ simp e (record { same_held = refl; same_released = refl })
  ]

  schedule_later-Same : (now : ℕ) → Same id t (schedule_later now t)
  unfolding schedule_later as_list task_buffers
  schedule_later-Same now =
      elim (Bool-cases
        (is_some t.call_later_task && ltb t.call_later_time (elapsed now t.call_later_start))) [
          | inl e ↦
              let moved = count_tasks-append id t.tasks (as_list t.call_later_task) in
              simp e (record { same_held = omega (arith, moved); same_released = refl })
          | inr e ↦ simp e (record { same_held = refl; same_released = refl })
        ]

  schedule_end-Same : Same id t (schedule_end t)
  unfolding schedule_end as_list
  schedule_end-Same = ground (arith, count_tasks-append id t.tasks (as_list t.end_task))

  register-Same : Same id t (register t)
  unfolding register
  register-Same = ground arith

  unregister-Same : Same id t (unregister t)
  unfolding unregister
  unregister-Same = ground arith

module _ (id output : ℕ) where
  flush-Same :
      (t : RequestTasks) (bufs : List Buffer) {u : RequestTasks}
      → bufs ≡ t.write_buffers
      → flush output t bufs ≡ some u
      → Same id t u
  unfolding flush add_task task_buffers
  flush-Same t [] e f = cc
  flush-Same t (buf ∷ rest) {u} e f =
      let cleared = record t { can_write = false; wait_write = false; write_buffers = rest } in
      let added = add_task on_can_write output (some buf) cleared in
      let r = register-Same id (record added { wait_write = not (is_empty rest) }) in
      record {
        same_held = ground (arith, r.same_held);
        same_released = ground (arith, r.same_released);
      }

  schedule_write-Same :
      (t : RequestTasks) {u : RequestTasks} → schedule_write output t ≡ some u → Same id t u
  unfolding schedule_write
  schedule_write-Same t e =
      elim (Bool-cases (t.wait_write && (t.can_write || ltb 10 (length t.write_buffers)))) [
        | inl f ↦ flush-Same t t.write_buffers refl (simp f at e)
        | inr f ↦ ground arith
      ]

expire-held :
    (id : ℕ) (t : RequestTasks)
    → (held id (expire t) ≡ held id t) × ((expire t).released ≡ t.released)
unfolding expire
expire-held id t =
    let s =
      unregister-Same id (record t { wait_read = false; wait_write = false; has_error = true }) in
    (s.same_held, s.same_released)

schedule_read_end_task :
    (input : ℕ) (t : RequestTasks) → (schedule_read input t).end_task ≡ t.end_task
unfolding schedule_read add_task
schedule_read_end_task input t = ground arith

flush_end_task :
    (output : ℕ) (t : RequestTasks) (bufs : List Buffer) {u : RequestTasks}
    → flush output t bufs ≡ some u
    → u.end_task ≡ t.end_task
unfolding flush add_task register
flush_end_task output t [] e = cc
flush_end_task output t (buf ∷ rest) e = ground arith

schedule_write_end_task :
    (output : ℕ) (t : RequestTasks) {u : RequestTasks}
    → schedule_write output t ≡ some u
    → u.end_task ≡ t.end_task
unfolding schedule_write
schedule_write_end_task output t {u} e =
    ground (arith, flush_end_task output t t.write_buffers {u = u})

schedule_later_end_task :
    (now : ℕ) (t : RequestTasks) → (schedule_later now t).end_task ≡ t.end_task
unfolding schedule_later
schedule_later_end_task now t = ground arith

expire_end_task : (t : RequestTasks) → (expire t).end_task ≡ t.end_task
unfolding expire unregister
expire_end_task t = ground arith

expire_has_error : (t : RequestTasks) → (expire t).has_error ≡ true
unfolding expire unregister
expire_has_error t = ground arith

schedule_end_cases :
    (t : RequestTasks) (task : ModuleTask)
    → t.end_task ≡ some task
    → let v = schedule_end t in
      ((v.end_task ≡ some task) × (is_empty v.tasks && is_empty v.write_buffers ≡ false))
      ⊎ ((v.end_task ≡ none) × (v.tasks ≡ task ∷ []) × (v.write_buffers ≡ []))
unfolding schedule_end as_list
schedule_end_cases t task e = ground arith

-- What `hasWork` may have done.
pub data Worked (input output now : ℕ) (t : RequestTasks) (worked : Bool) (v : RequestTasks)
    : Type 0 where
  failed : t.has_error ≡ true → worked ≡ false → v ≡ t → Worked input output now t worked v
  expired :
      timed_out now t ≡ true → worked ≡ false → v ≡ expire t → Worked input output now t worked v
  scheduled :
      (u : RequestTasks)
      → schedule_write output (schedule_read input t) ≡ some u
      → v ≡ schedule_end (schedule_later now u)
      → worked ≡ not (is_empty v.tasks)
      → Worked input output now t worked v

module _ (input output now : ℕ) (t : RequestTasks) {worked : Bool} {v : RequestTasks} where
  pub has_work-Worked :
      has_work input output now t ≡ some (worked, v) → Worked input output now t worked v
  unfolding has_work
  has_work-Worked e = elim (Bool-cases t.has_error) [
    | inl f ↦ let r = simp f at e in failed f (ground (arith, r)) (ground (arith, r))
    | inr f ↦ elim (Bool-cases (timed_out now t)) [
      | inl late ↦
          let r = simp (f, late) at e in expired late (ground (arith, r)) (ground (arith, r))
      | inr early ↦ elim (Option-cases (schedule_write output (schedule_read input t))) [
        | inl g ↦ let r = simp (f, early, g) at e in absurd (cc r)
        | inr (u, g) ↦
            let r = simp (f, early, g) at e in scheduled u g (ground (arith, r)) (ground (arith, r))
      ]
    ]
  ]

  -- `hasWork` keeps every buffer that the request holds, in the output list or in a task, as often
  -- as it was there, and gives none back.
  pub has_work-held :
      (id : ℕ)
      → has_work input output now t ≡ some (worked, v)
      → (held id v ≡ held id t) × (v.released ≡ t.released)
  has_work-held id e = elim (has_work-Worked e) [
    | failed _ _ q ↦ rw q (refl, refl)
    | expired _ _ q ↦ rw q (expire-held id t)
    | scheduled u g q _ ↦
        let a = schedule_read-Same id t input in
        let b = schedule_write-Same id output (schedule_read input t) g in
        let c = schedule_later-Same id u now in
        let d = schedule_end-Same id (schedule_later now u) in
        rw q (
          omega (arith, a.same_held, b.same_held, c.same_held, d.same_held),
          d.same_released ∙ c.same_released ∙ b.same_released ∙ a.same_released,
        )
  ]

  -- `hasWork` hands the end task out last: a pending end task stays pending while another task or
  -- output is left or the request is in error, and is otherwise the only task there is, with no
  -- output left.
  pub has_work-end_task :
      {task : ModuleTask}
      → t.end_task ≡ some task
      → has_work input output now t ≡ some (worked, v)
      → ((v.end_task ≡ some task)
          × ((v.has_error ≡ true) ⊎ (is_empty v.tasks && is_empty v.write_buffers ≡ false)))
        ⊎ ((v.end_task ≡ none) × (v.tasks ≡ task ∷ []) × (v.write_buffers ≡ []) × (worked ≡ true))
  has_work-end_task {task} f e = elim (has_work-Worked e) [
    | failed g _ q ↦ rw q (inl (f, inl g))
    | expired _ _ q ↦ rw q (inl (expire_end_task t ∙ f, inl (expire_has_error t)))
    | scheduled u g q w ↦
        let pending =
          schedule_later_end_task now u
          ∙ schedule_write_end_task output (schedule_read input t) g
          ∙ schedule_read_end_task input t
          ∙ f in
        ground (arith, schedule_end_cases (schedule_later now u) task pending)
  ]

front_of_nonempty :
    (v : RequestTasks) (ts : List ModuleTask)
    → v.tasks ≡ ts
    → not (is_empty ts) ≡ true
    → (r : ModuleTask × RequestTasks) × (get_next_task v ≡ some r)
unfolding get_next_task
front_of_nonempty v [] e h = cc
front_of_nonempty v (task ∷ rest) e h = ((task, record v { tasks = rest }), ground arith)

-- `getNextTask` succeeds whenever `hasWork` said that there is work.
pub get_next_task-has_work :
    (input output now : ℕ) (t : RequestTasks) {v : RequestTasks}
    → has_work input output now t ≡ some (true, v)
    → (r : ModuleTask × RequestTasks) × (get_next_task v ≡ some r)
get_next_task-has_work input output now t {v} e = elim (has_work-Worked input output now t e) [
  | failed _ f _ ↦ cc
  | expired _ f _ ↦ cc
  | scheduled _ _ _ w ↦ front_of_nonempty v v.tasks refl (sym w)
]

reset_lem :
    (t : RequestTasks)
    → ((reset t).released
        ≡ t.released
          ++ (task_buffers (t.tasks ++ (as_list t.call_later_task ++ as_list t.end_task))
              ++ t.write_buffers))
      × ((reset t).write_buffers ≡ t.write_buffers)
unfolding reset unregister
reset_lem t = ground arith

-- The destructor runs `reset`. When `reset` ran before, as `raiseError` makes it, the output that
-- was pending then is given back again.
pub released-reset_twice :
    (t : RequestTasks) → (reset (reset t)).released ≡ (reset t).released ++ t.write_buffers
released-reset_twice t =
    (reset_lem (reset t)).0
    ∙ ap (λ bs. (reset t).released ++ bs) (unfold reset task_buffers as_list in (reset_lem t).1)
