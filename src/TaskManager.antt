-- ===== src/TaskManager.antt =====
-- server/core/TaskManager.cpp, the queue of server/thread/ThreadPool.cpp and `endRequest` of
-- server/core/RequestManager.hpp: who runs the tasks of the requests, and when a request ends.
pub mod Steps
pub mod Visits
pub mod Counts
pub mod Invariant
pub mod Reachable
use zhttpd.Base.{
  insert, erase, insert_all, update, ℕ, Bool, true, false, not, ◌&&◌, Bytes, codes, eq_bytes, List,
  [], ◌∷◌, ◌++◌, Option, none, some, ◌==◌, if◌then◌else◌, ◌>>=◌,
}
use zhttpd.Tasks.{RequestTasks, ModuleTask, get_next_task}
use zhttpd.Tasks.Work.{has_work, has_pending_event}
use zhttpd.Chain.{head}
use zhttpd.Request.{Request, get_request_header, get_response_header}

-- Where the loop of `run` stands: in `_giveWork`, with the requests that it has not visited yet, or
-- before one of the two other calls.
pub data Phase : Type 0 where
  giving : List ℕ → Phase
  deleting adding : Phase

-- Requests are named by numbers, which stand for their addresses, and a set of them is a list
-- without repetitions. `request` and `has_socket` are the requests' own state and whether the
-- session still owns its socket. `pending` is the queue of the thread pool, and `running` holds the
-- tasks that its threads have taken.
pub record TaskManager : Type 0 where
  pub requests : List ℕ
  pub pending_add : List ℕ
  pub pending_del : List ℕ
  pub phase : Phase
  pub request : ℕ → Request
  pub has_socket : ℕ → Bool
  pub pending : List (ℕ × ModuleTask)
  pub running : List (ℕ × ModuleTask)

-- `startRequest`.
unfoldable pub start_request : ℕ → TaskManager → TaskManager
unfolding insert
start_request i m = record m { pending_add = insert i m.pending_add }

-- `ThreadPool::queueTask`.
unfoldable pub queue_task : ℕ → ModuleTask → TaskManager → TaskManager
queue_task i task m = record m { pending = m.pending ++ (i, task) ∷ [] }

-- What `hasWork` answered, and then `getNextTask`.
unfoldable pub hand_over : Request → Bool × RequestTasks → Option (Option ModuleTask × Request)
hand_over r (true, t) =
    get_next_task t >>= λ g. some (some g.0, record r { tasks = g.1; queued = true })
hand_over r (false, t) = some (none, record r { tasks = t })

-- `hasWork` of a request: the task, if there is work; `none` where the code reads through a null
-- pointer or the front of an empty list.
unfoldable pub next_task : ℕ → Request → Option (Option ModuleTask × Request)
unfolding hand_over
next_task now r = do
  first ← head r.modules
  last ← r.modules.tail
  answer ← has_work first.id last.id now r.tasks
  hand_over r answer

-- Whether the connection is kept for another request.
unfoldable pub keeps_connection : Request → Bool × Request
keeps_connection r =
    let (asked, s) = get_request_header (codes "Connection") r in
    let (said, t) = get_response_header (codes "Connection") s in
    if r.tasks.has_error
    then (false, r)
    else if eq_bytes asked (codes "close")
    then (false, s)
    else (not (eq_bytes said (codes "close")), t)

-- A request with no work and no event to come: its socket may go on to a new session, and it is to
-- be deleted.
unfoldable pub retire : ℕ → TaskManager → Option TaskManager
unfolding keeps_connection insert
retire i m =
    let (keeps, r) = keeps_connection (m.request i) in
    let kept = record m { request = update m.request i r; pending_del = insert i m.pending_del } in
    if keeps
    then (if m.has_socket i
        then some (record kept { has_socket = update m.has_socket i false })
        else none)
    else some kept

-- The branches behind `hasWork`.
unfoldable pub dispatch : ℕ → Option ModuleTask → TaskManager → Option TaskManager
unfolding retire queue_task
dispatch i (some task) m = some (queue_task i task m)
dispatch i none m = if has_pending_event (m.request i).tasks then some m else retire i m

-- The body of the loop of `_giveWork`.
unfoldable pub visit : ℕ → ℕ → TaskManager → Option TaskManager
unfolding next_task dispatch
visit now i m =
    if (m.request i).queued
    then some m
    else (next_task now (m.request i) >>= λ g.
        dispatch i g.0 (record m { request = update m.request i g.1 }))

-- `endRequest`, which asserts that the request is not queued.
unfoldable pub end_request : ℕ → TaskManager → Option TaskManager
unfolding erase
end_request i m =
    if (m.request i).queued
    then none
    else some (record m { requests = erase i m.requests; has_socket = update m.has_socket i false })

-- The loop of `_delPendingRequests`.
unfoldable pub end_all : List ℕ → TaskManager → Option TaskManager
unfolding end_request
end_all [] m = some m
end_all (i ∷ is) m = end_request i m >>= λ n. end_all is n

-- `_delPendingRequests` and `_addPendingRequests`.
unfoldable pub del_pending_requests : TaskManager → Option TaskManager
unfolding end_all
del_pending_requests m = end_all m.pending_del m >>= λ n. some (record n { pending_del = [] })

unfoldable pub add_pending_requests : TaskManager → TaskManager
unfolding insert_all
add_pending_requests m = record m {
  requests = insert_all m.pending_add m.requests;
  pending_add = [];
}

-- The loop of `run`, one request or one call at a time.
unfoldable pub advance_from : ℕ → Phase → TaskManager → Option TaskManager
unfolding visit del_pending_requests add_pending_requests
advance_from now (giving []) m = some (record m { phase = deleting })
advance_from now (giving (i ∷ is)) m = visit now i (record m { phase = giving is })
advance_from now deleting m = del_pending_requests m >>= λ n. some (record n { phase = adding })
advance_from now adding m =
    let n = add_pending_requests m in some (record n { phase = giving n.requests })

unfoldable pub advance : ℕ → TaskManager → Option TaskManager
unfolding advance_from
advance now m = advance_from now m.phase m

-- A thread of the pool takes the first task.
unfoldable pub take_from : List (ℕ × ModuleTask) → TaskManager → Option TaskManager
take_from [] m = none
take_from (work ∷ rest) m = some (record m { pending = rest; running = m.running ++ work ∷ [] })

unfoldable pub take_task : TaskManager → Option TaskManager
unfolding take_from
take_task m = take_from m.pending m

-- A thread has run a task, which left its request as `r`: `notifyEndTask`. `others` are the tasks
-- that still run.
unfoldable pub notify_end_task : ℕ → Request → List (ℕ × ModuleTask) → TaskManager → TaskManager
notify_end_task i r others m = record m {
  request = update m.request i (record r { queued = false });
  running = others;
}
