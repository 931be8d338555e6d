-- ===== src/Tests/Scheduling.antt =====
-- The task manager, server/core/TaskManager.cpp.
use zhttpd.Base.{
  insert, insert_all, member, eq_bytes, lt_bytes, ◌+◌, true, false, [], ◌∷◌, Option, none, some,
  ◌≡◌, refl, ◌⊎◌,
}
use zhttpd.Tasks.{get_next_task, finish_task}
use zhttpd.Tasks.Work.{
  has_work, timed_out, schedule_read, schedule_write, schedule_later, schedule_end,
  has_pending_event,
}
use zhttpd.Chain.{head}
use zhttpd.Request.{Request, get_request_header, get_response_header}
use zhttpd.Headers
use zhttpd.Headers.{get_header, lookup}
use zhttpd.TaskManager.{
  TaskManager, start_request, visit, next_task, hand_over, dispatch, queue_task, retire,
  keeps_connection, advance, giving, advance_from, del_pending_requests, end_all,
  add_pending_requests,
}
use zhttpd.TaskManager.Steps.{Reach, begins, later, starts, advances, idle_server, admit}
use zhttpd.TaskManager.Counts.{count}
use zhttpd.TaskManager.Visits.{Progress, visit-Progress}
use zhttpd.TaskManager.Reachable.{Reach-one_task, Reach-del_pending_requests}
use zhttpd.Tests.Requests.{reading, idle_tasks}

-- A request whose end is queued.
abbrev ending : Request
ending = record reading { queued = false; tasks = record idle_tasks { tasks = finish_task 5 ∷ [] } }

-- A request that has come to its end.
abbrev ended : Request
ended = record reading { queued = false; tasks = idle_tasks }

abbrev empty_server : TaskManager
empty_server = idle_server (λ i. record reading { queued = false })

abbrev started : TaskManager
started = start_request 7 (admit 7 ending empty_server)

abbrev after : Option TaskManager → TaskManager
after none = empty_server
after (some m) = m

abbrev second : TaskManager
second = after (advance 0 started)

abbrev third : TaskManager
third = after (advance 0 second)

abbrev held : TaskManager
held = after (advance 0 third)

abbrev given : TaskManager
given = after (advance 0 held)

started-Reach : Reach started
started-Reach = later (begins (λ i. refl)) (starts 7 ending refl refl refl refl)

given-Reach : Reach given
unfolding start_request insert insert_all advance advance_from visit next_task hand_over dispatch
    queue_task del_pending_requests end_all add_pending_requests has_work timed_out schedule_read
    schedule_write schedule_later schedule_end head get_next_task
given-Reach =
    later
      (later (later (later started-Reach (advances 0 refl)) (advances 0 refl)) (advances 0 refl))
      (advances 0 refl)

Reach-one_task_example :
    (count 7 given.pending + count 7 given.running ≡ 0)
    ⊎ ((count 7 given.pending + count 7 given.running ≡ 1) × (member 7 given.requests ≡ true))
Reach-one_task_example = Reach-one_task 7 given-Reach

abbrev marked : TaskManager
marked = after (
    advance 0 (
      after (
        advance 0
          (after (advance 0 (after (advance 0 (start_request 7 (admit 7 ended empty_server)))))))))

marked-Reach : Reach marked
unfolding start_request insert insert_all advance advance_from visit next_task hand_over dispatch
    queue_task retire keeps_connection get_request_header get_response_header get_header
    Headers.insert lookup eq_bytes lt_bytes has_pending_event del_pending_requests end_all
    add_pending_requests has_work timed_out schedule_read schedule_write schedule_later schedule_end
    head get_next_task
marked-Reach =
    later
      (later
        (later
          (later (later (begins (λ i. refl)) (starts 7 ended refl refl refl refl))
            (advances 0 refl))
          (advances 0 refl))
        (advances 0 refl))
      (advances 0 refl)

Reach-del_pending_requests_example :
    (n : TaskManager) × (del_pending_requests marked ≡ some n)
    × (count 7 marked.pending + count 7 marked.running ≡ 0)
unfolding start_request insert insert_all advance advance_from visit next_task hand_over dispatch
    queue_task retire keeps_connection get_request_header get_response_header get_header
    Headers.insert lookup eq_bytes lt_bytes has_pending_event del_pending_requests end_all
    add_pending_requests has_work timed_out schedule_read schedule_write schedule_later schedule_end
    head get_next_task
Reach-del_pending_requests_example = Reach-del_pending_requests 7 marked-Reach refl

visit-Progress_example : Progress 7 given
unfolding start_request insert insert_all advance advance_from visit next_task hand_over dispatch
    queue_task del_pending_requests end_all add_pending_requests has_work timed_out schedule_read
    schedule_write schedule_later schedule_end head get_next_task
visit-Progress_example = visit-Progress 0 7 (record held { phase = giving [] }) given refl
