-- ===== src/Tests/Requests.antt =====
-- The chain of modules and the request, server/core/ModuleList.cpp and Request.cpp.
use zhttpd.Base.{
  ℕ, true, false, codes, List, [], ◌∷◌, ◌++◌, none, some, ◌≡◌, ◌≢◌, refl, inl, inr, ◌⊎◌, arith,
}
use zhttpd.Api.{Buffer, Category, HttpMethod, on_request_data, on_response_data}
use zhttpd.Api.HttpCode.{not_found}
use zhttpd.Tasks.{
  RequestTasks, ModuleTask, add_task, add_end_task, finish_task, unregister, elapsed, as_list,
  task_buffers,
}
use zhttpd.Tasks.Work.{
  has_work, reset, has_pending_event, timed_out, schedule_read, schedule_write, schedule_later,
  schedule_end,
}
use zhttpd.Chain.{
  ModuleWrapper, ModuleList, place, set_processing_module, in_response, is_in_response_part,
  next_in, head,
}
use zhttpd.Chain.Processing.{Replaces, set_processing_module-Replaces, is_in_response_part_lem}
use zhttpd.Request.{Request, next_module, give_data, raise_error, set_response_code, message_of}
use zhttpd.Request.Data.{give_data_twice}
use zhttpd.Request.Errors.{raise_error_stuck, raise_error_ends, run_task_broken}
use zhttpd.Request.Run.{Behaviour, returns, run_task}

abbrev pub wrapper : ℕ → Category → ModuleWrapper
wrapper id category = record { id = id; category = category }

-- The chain of a request for a file.
abbrev pub file_chain : List ModuleWrapper
file_chain =
    wrapper 0 Category.input_output
    ∷ wrapper 1 Category.post_input
    ∷ wrapper 2 Category.undefined
    ∷ wrapper 5 Category.processing
    ∷ wrapper 3 Category.pre_output
    ∷ wrapper 4 Category.input_output
    ∷ []

abbrev pub file_list : ModuleList
file_list = record { nodes = file_chain; tail = some (wrapper 4 Category.input_output) }

set_processing_module-Replaces_example :
    (k : ModuleList) × (set_processing_module (wrapper 6 Category.processing) file_list ≡ some k)
    × Replaces (wrapper 6 Category.processing) file_list.nodes k.nodes
    × (k.tail ≡ file_list.tail)
set_processing_module-Replaces_example =
    set_processing_module-Replaces (wrapper 6 Category.processing) (wrapper 0 Category.input_output)
      _ file_list refl (inr (inr (inl (inl refl))))

is_in_response_part_lem_test : is_in_response_part 3 file_list ≡ some true
is_in_response_part_lem_test =
    is_in_response_part_lem file_list
      (wrapper 0 Category.input_output
        ∷ wrapper 1 Category.post_input
        ∷ wrapper 2 Category.undefined
        ∷ wrapper 5 Category.processing
        ∷ [])
      (wrapper 4 Category.input_output ∷ []) (wrapper 3 Category.pre_output) refl (omega arith)

abbrev first : Buffer
first = record { id = 1; bytes = codes "first" }

abbrev second : Buffer
second = record { id = 2; bytes = codes "second" }

abbrev pub idle_tasks : RequestTasks
idle_tasks = record {
  can_read = false;
  can_write = false;
  has_error = false;
  call_later_task = none;
  call_later_time = 0;
  call_later_start = 0;
  wait_read = false;
  wait_write = false;
  registered = false;
  end_task = none;
  write_buffers = [];
  tasks = [];
  timer_start = 0;
  pool_calls = [];
  released = [];
}

-- The file reader is at work.
abbrev pub reading : Request
reading = record {
  file_path = [];
  method = HttpMethod.get;
  query = [];
  request_headers = [];
  response_code = 0;
  response_msg = [];
  response_headers = [];
  modules = file_list;
  current = some 5;
  tasks = idle_tasks;
  queued = true;
  fresh = 6;
  fresh_buffer = 3;
}

abbrev pub data_tasks : List Buffer → List ModuleTask
data_tasks [] = []
data_tasks (b ∷ bs) =
    record { event = on_response_data; wrapper = 3; buffer = some b } ∷ data_tasks bs

abbrev given : List Buffer → Request
given bs = record reading { tasks = record idle_tasks { tasks = data_tasks bs } }

give_data_twice_example :
    let r = given [] in
    let u = given (second ∷ first ∷ []) in
    ((some (wrapper 4 Category.input_output) ≡ none)
      × (u.tasks.write_buffers ≡ r.tasks.write_buffers ++ first ∷ second ∷ [])
      × (u.tasks.tasks ≡ r.tasks.tasks))
    ⊎ ((some (wrapper 4 Category.input_output) ≢ none)
        × (u.tasks.write_buffers ≡ r.tasks.write_buffers)
        × (u.tasks.tasks ≡ data_tasks (second ∷ first ∷ [])))
unfolding give_data next_module next_in is_in_response_part in_response add_task
give_data_twice_example =
    give_data_twice first second (given []) {s = given (first ∷ [])}
      (some (wrapper 4 Category.input_output)) true refl refl refl refl refl refl

-- A request with output pending, whose file reader raises an error.
abbrev pending : Request
pending = record reading {
  tasks = record idle_tasks { wait_write = true; write_buffers = first ∷ [] };
}

abbrev with_error : Request → List Buffer → Request
with_error r bs = record r {
  response_code = 404;
  response_msg = codes "Not Found";
  modules = record {
    nodes =
        wrapper 0 Category.input_output
        ∷ wrapper 1 Category.post_input
        ∷ wrapper 2 Category.undefined
        ∷ wrapper 6 Category.processing
        ∷ wrapper 3 Category.pre_output
        ∷ wrapper 4 Category.input_output
        ∷ [];
    tail = some (wrapper 4 Category.input_output);
  };
  fresh = 7;
  tasks = record idle_tasks { end_task = some (finish_task 6); write_buffers = bs; released = bs };
}

raise_error_stuck_example :
    let s = with_error pending (first ∷ []) in
    (has_work 0 4 30 s.tasks ≡ some (false, s.tasks))
    × (has_pending_event s.tasks ≡ false)
    × (s.tasks.end_task ≡ some (finish_task 6))
unfolding raise_error set_processing_module place head has_work timed_out elapsed reset unregister
    as_list task_buffers schedule_read schedule_write schedule_later schedule_end set_response_code
    message_of add_end_task
raise_error_stuck_example =
    raise_error_stuck 20 not_found [] pending (with_error pending (first ∷ [])) 0 4 30 refl refl

raise_error_ends_example :
    let s = with_error reading [] in
    (v : RequestTasks) × (has_work 0 4 30 s.tasks ≡ some (true, v))
    × (v.tasks ≡ finish_task 6 ∷ [])
    × (v.end_task ≡ none)
unfolding raise_error set_processing_module place head has_work timed_out elapsed reset unregister
    as_list task_buffers schedule_read schedule_write schedule_later schedule_end set_response_code
    message_of add_end_task
raise_error_ends_example =
    raise_error_ends 20 not_found [] reading (with_error reading []) 0 4 30 refl refl refl

abbrev refuses : Behaviour
refuses event buf r = returns false r

run_task_broken_test :
    let task : ModuleTask = record { event = on_request_data; wrapper = 1; buffer = some first } in
    (s : Request) × (run_task refuses task reading ≡ some s)
    × (s.tasks.has_error ≡ true)
    × (s.tasks.released ≡ reading.tasks.released ++ first ∷ first ∷ [])
run_task_broken_test =
    run_task_broken refuses (record { event = on_request_data; wrapper = 1; buffer = some first })
      first reading refl refl
