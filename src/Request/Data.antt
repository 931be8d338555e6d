-- ===== src/Request/Data.antt =====
-- server/core/Request.cpp: in which order the next module gets what a module gives.
use zhttpd.Base.{
  ℕ, Bool, true, false, [], ◌∷◌, ◌++◌, Option, none, some, ◌≡◌, ◌≢◌, refl, arith, ◌⊎◌, inl, inr,
  append_assoc,
}
use zhttpd.Api.{Buffer}
use zhttpd.Tasks.{RequestTasks, register, add_task}
use zhttpd.Tasks.Work.{need_write}
use zhttpd.Chain.{ModuleWrapper, next_in, is_in_response_part}
use zhttpd.Request.{Request, data_event, next_module, give_data}

need_write_frame :
    (buf : Buffer) (t : RequestTasks)
    → ((need_write buf t).write_buffers ≡ t.write_buffers ++ buf ∷ [])
      × ((need_write buf t).tasks ≡ t.tasks)
unfolding need_write register
need_write_frame buf t = ground arith

module _ (a b : Buffer) (r : Request) {id : ℕ} {w : ModuleWrapper} {s u : Request} where
  give_twice_output :
      r.current ≡ some id
      → next_in id r.modules.nodes ≡ some (some w)
      → next_in w.id r.modules.nodes ≡ some none
      → give_data a r ≡ some s
      → give_data b s ≡ some u
      → (u.tasks.write_buffers ≡ r.tasks.write_buffers ++ a ∷ b ∷ [])
        × (u.tasks.tasks ≡ r.tasks.tasks)
  unfolding give_data next_module
  give_twice_output c n e f g = ground (
    arith,
    need_write_frame a r.tasks,
    need_write_frame b (need_write a r.tasks),
    append_assoc r.tasks.write_buffers (a ∷ []) (b ∷ []),
  )

  give_twice_next :
      (x : ModuleWrapper) (response : Bool)
      → r.current ≡ some id
      → next_in id r.modules.nodes ≡ some (some w)
      → next_in w.id r.modules.nodes ≡ some (some x)
      → is_in_response_part id r.modules ≡ some response
      → give_data a r ≡ some s
      → give_data b s ≡ some u
      → (u.tasks.write_buffers ≡ r.tasks.write_buffers)
        × (u.tasks.tasks
            ≡ record { event = data_event response; wrapper = w.id; buffer = some b }
              ∷ record { event = data_event response; wrapper = w.id; buffer = some a }
              ∷ r.tasks.tasks)
  unfolding give_data next_module add_task
  give_twice_next x true c n e p f g = ground arith
  give_twice_next x false c n e p f g = ground arith

  -- Two calls of `giveData` in one handler. In front of the output module the buffers are to be
  -- written in the order in which they were given. Anywhere else the next module is to get the
  -- second buffer first: a data task goes to the front of the queue.
  pub give_data_twice :
      (after : Option ModuleWrapper) (response : Bool)
      → r.current ≡ some id
      → next_in id r.modules.nodes ≡ some (some w)
      → next_in w.id r.modules.nodes ≡ some after
      → is_in_response_part id r.modules ≡ some response
      → give_data a r ≡ some s
      → give_data b s ≡ some u
      → ((after ≡ none)
          × (u.tasks.write_buffers ≡ r.tasks.write_buffers ++ a ∷ b ∷ [])
          × (u.tasks.tasks ≡ r.tasks.tasks))
        ⊎ ((after ≢ none)
            × (u.tasks.write_buffers ≡ r.tasks.write_buffers)
            × (u.tasks.tasks
                ≡ record { event = data_event response; wrapper = w.id; buffer = some b }
                  ∷ record { event = data_event response; wrapper = w.id; buffer = some a }
                  ∷ r.tasks.tasks))
  give_data_twice none response c n e p f g =
      let (bufs, ts) = give_twice_output c n e f g in inl (refl, bufs, ts)
  give_data_twice (some x) response c n e p f g =
      let (bufs, ts) = give_twice_next x response c n e p f g in inr ((λ h. cc), bufs, ts)
