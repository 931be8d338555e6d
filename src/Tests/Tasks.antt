-- ===== src/Tests/Tasks.antt =====
-- The tasks of a request, server/core/RequestTasks.cpp.
use zhttpd.Base.{true, false, codes, List, [], ◌∷◌, none, some, ◌≡◌, refl, ◌⊎◌, ◌&&◌, is_empty}
use zhttpd.Api.{Buffer, SocketEventType, carries_data}
use zhttpd.Api
use zhttpd.Tasks.{
  RequestTasks, monitor, ignore, init, elapsed, register, unregister, add_end_task, add_task,
  get_next_task, finish_task,
}
use zhttpd.Tasks.Work.{
  timed_out, schedule_read, flush, schedule_write, schedule_later, schedule_end, has_work,
  need_read, need_write, handle_socket_event, Call, needs_read, needs_write, has_works,
  handles_socket_event, gets_next_task, adds_end_task, step, run,
}
use zhttpd.Tasks.Registration.{Inv, run-Inv, step-run_fault}
use zhttpd.Tasks.Buffers.{held, has_work-end_task, has_work-held}

abbrev page : Buffer
page = record { id = 7; bytes = codes "hello" }

-- A request that has read, and has a page to write and an end to come.
abbrev pub history : List Call
history =
    needs_read
    ∷ handles_socket_event 10 SocketEventType.can_read
    ∷ has_works 0 4 20
    ∷ gets_next_task
    ∷ adds_end_task 4
    ∷ needs_write page
    ∷ []

abbrev pub waiting : RequestTasks
waiting = record {
  can_read = false;
  can_write = false;
  has_error = false;
  call_later_task = none;
  call_later_time = 0;
  call_later_start = 5;
  wait_read = false;
  wait_write = true;
  registered = true;
  end_task = some (finish_task 4);
  write_buffers = page ∷ [];
  tasks = [];
  timer_start = 10;
  pool_calls = monitor ∷ ignore ∷ monitor ∷ [];
  released = [];
}

pub run-history : run history (init 5) ≡ some waiting
unfolding run step init has_work timed_out elapsed need_read register handle_socket_event unregister
    schedule_read add_task schedule_write schedule_later schedule_end get_next_task add_end_task
    need_write
run-history = refl

run-Inv_example : Inv waiting
run-Inv_example = run-Inv 5 history waiting run-history

step-run_fault_example : (gets_next_task ≡ gets_next_task) × (waiting.tasks ≡ [])
unfolding step get_next_task
step-run_fault_example = step-run_fault 5 history waiting gets_next_task run-history refl

abbrev writable : RequestTasks
writable = record waiting { can_write = true; registered = false }

abbrev writing : RequestTasks
writing = record waiting {
  registered = false;
  wait_write = false;
  write_buffers = [];
  tasks = record { event = Api.on_can_write; wrapper = 4; buffer = some page } ∷ [];
}

has_work-writable : has_work 0 4 20 writable ≡ some (true, writing)
unfolding has_work timed_out elapsed register schedule_read flush add_task schedule_write
    schedule_later schedule_end
has_work-writable = refl

has_work-end_task_example :
    ((writing.end_task ≡ some (finish_task 4))
      × ((writing.has_error ≡ true)
          ⊎ (is_empty writing.tasks && is_empty writing.write_buffers ≡ false)))
    ⊎ ((writing.end_task ≡ none)
        × (writing.tasks ≡ finish_task 4 ∷ [])
        × (writing.write_buffers ≡ [])
        × (true ≡ true))
has_work-end_task_example = has_work-end_task 0 4 20 writable refl has_work-writable

has_work-held_test : (held 7 writing ≡ held 7 writable) × (writing.released ≡ writable.released)
has_work-held_test = has_work-held 0 4 20 writable 7 has_work-writable
