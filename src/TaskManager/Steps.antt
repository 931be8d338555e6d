-- ===== src/TaskManager/Steps.antt =====
-- server/core/TaskManager.cpp: the threads of the server as steps, in any order.
use zhttpd.Base.{member, update, ℕ, true, false, List, [], ◌∷◌, ◌++◌, some, ◌≡◌}
use zhttpd.Tasks.{RequestTasks, ModuleTask}
use zhttpd.Request.{Request}
use zhttpd.TaskManager.{TaskManager, giving, start_request, advance, take_task, notify_end_task}

-- A new request: an object that the server does not hold yet.
abbrev pub admit : ℕ → Request → TaskManager → TaskManager
admit i r m = record m { request = update m.request i r; has_socket = update m.has_socket i true }

-- One step of the thread of the task manager, of a thread that starts a request, of a thread of the
-- pool, or of any thread that changes the tasks of a request: a socket event, or the module that runs.
pub data Step : TaskManager → TaskManager → Type 0 where
  advances : (now : ℕ) {m n : TaskManager} → advance now m ≡ some n → Step m n
  starts :
      (i : ℕ) (r : Request) {m : TaskManager}
      → member i m.requests ≡ false
      → member i m.pending_add ≡ false
      → (m.request i).queued ≡ false
      → r.queued ≡ false
      → Step m (start_request i (admit i r m))
  takes : {m n : TaskManager} → take_task m ≡ some n → Step m n
  finishes :
      (i : ℕ) (task : ModuleTask) (r : Request) (before after : List (ℕ × ModuleTask))
      {m : TaskManager}
      → m.running ≡ before ++ (i, task) ∷ after
      → Step m (notify_end_task i r (before ++ after) m)
  touches :
      (i : ℕ) (t : RequestTasks) {m : TaskManager}
      → Step m (record m {
        request = update m.request i (let r = m.request i in record r { tasks = t });
      })

-- The server before its first request.
abbrev pub idle_server : (ℕ → Request) → TaskManager
idle_server f = record {
  requests = [];
  pending_add = [];
  pending_del = [];
  phase = giving [];
  request = f;
  has_socket = λ i. false;
  pending = [];
  running = [];
}

-- The states that the server comes to.
pub data Reach : TaskManager → Type 0 where
  begins : {f : ℕ → Request} → ((i : ℕ) → (f i).queued ≡ false) → Reach (idle_server f)
  later : {m n : TaskManager} → Reach m → Step m n → Reach n
