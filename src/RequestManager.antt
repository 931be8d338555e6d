-- ===== src/RequestManager.antt =====
-- server/core/RequestManager.hpp: the requests of a new session or connection.

pub mod Built
use zhttpd.Base.{ℕ, Option}
use zhttpd.Api.{Category}
use zhttpd.Request.{Request, init, append_module}
use zhttpd.Tasks.Work.{need_read}
use zhttpd.TaskManager.{TaskManager, start_request}
use zhttpd.TaskManager.Steps.{admit}

-- The chain of `handleNewRequest`; the module of the input and the output is that of the port, whose
-- manager tells its category; that of the builder tells none.
unfoldable pub append_modules : Category → Request → Request
unfolding append_module
append_modules io r = append_module io (
    append_module Category.pre_output
      (append_module Category.undefined (append_module Category.post_input (append_module io r))))

-- The request that `handleNewRequest` makes.
unfoldable pub new_request : Category → ℕ → Request
unfolding append_modules init need_read
new_request io now = let r = append_modules io (init now) in record r { tasks = need_read r.tasks }

-- `handleNewRequest`, for an object that the server does not hold yet.
unfoldable pub handle_new_request : ℕ → Category → ℕ → TaskManager → TaskManager
unfolding new_request start_request
handle_new_request i io now m = start_request i (admit i (new_request io now) m)
