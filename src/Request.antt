-- ===== src/Request.antt =====
-- server/core/Request.cpp and .hpp: the request as its modules and the task manager see it. A result
-- `none` stands for a failed assertion or a read through a null or a dangling pointer.
pub mod Run
pub mod Errors
pub mod Data
use Prim.{tt}
use mathlib.Core.Path.{subst}
use zhttpd.Base.{
  ℕ, suc, ◌+◌, Bool, true, false, Bytes, codes, List, [], ◌∷◌, ◌++◌, Option, none, some, ◌==◌,
  if◌then◌else◌, is_empty, ◌≡◌, refl, ◌>>=◌, bind-eq-some, OnSome, OnSome-bind, OnSome-if,
  OnSome-map, OnSome-always, OnSome-eq, Gives, Gives-bind, Gives-map, Gives-at,
}
use zhttpd.Api.{Event, on_request_data, on_response_data, HttpMethod, Category, Buffer}
use zhttpd.Api.HttpCode.{HttpResponse, responses, undefined}
use zhttpd.Headers.{HeaderMap, insert, get_header, keys}
use zhttpd.Tasks.{RequestTasks, add_end_task, add_call_later_task, add_task}
use zhttpd.Tasks.Work.{need_write, has_work, reset}
use zhttpd.Tasks
use zhttpd.Chain.{
  ModuleWrapper, ModuleList, append, set_processing_module, head, is_in_response_part, next_in,
  insert_after,
}
use zhttpd.Chain

-- The fields of the class. `current` names `_current_module`, and `fresh` is the number of the next
-- wrapper to be made, `fresh_buffer` that of the
-- next buffer that its buffer manager makes. The log of released buffers is `tasks.released`.
pub record Request : Type 0 where
  pub file_path : Bytes
  pub method : HttpMethod
  pub query : Bytes
  pub request_headers : HeaderMap
  pub response_code : ℕ
  pub response_msg : Bytes
  pub response_headers : HeaderMap
  pub modules : ModuleList
  pub current : Option ℕ
  pub tasks : RequestTasks
  pub queued : Bool
  pub fresh : ℕ
  pub fresh_buffer : ℕ

-- `Request::Request`.
unfoldable pub init : ℕ → Request
init now = record {
  file_path = [];
  method = HttpMethod.undefined;
  query = [];
  request_headers = [];
  response_code = undefined;
  response_msg = [];
  response_headers = [];
  modules = Chain.empty;
  current = none;
  tasks = Tasks.init now;
  queued = false;
  fresh = 0;
  fresh_buffer = 0;
}

-- Gives a buffer back to the request's buffer manager.
unfoldable pub release : Buffer → Request → Request
release buf r =
    let t = r.tasks in record r { tasks = record t { released = t.released ++ buf ∷ [] } }

-- `getBufferManager().allocate`: a buffer that no one holds, with the given contents.
unfoldable pub allocate : Bytes → Request → Buffer × Request
allocate bytes r =
    (record { id = r.fresh_buffer; bytes = bytes }, record r { fresh_buffer = suc r.fresh_buffer })

-- `append`.
unfoldable pub append_module : Category → Request → Request
append_module category r = record r {
  modules = append (record { id = r.fresh; category = category }) r.modules;
  fresh = suc r.fresh;
}

-- `insertAfter`: behind the current module.
unfoldable pub insert_module : Category → Request → Option Request
insert_module category r = do
  id ← r.current
  ws ← insert_after id (record { id = r.fresh; category = category }) r.modules.nodes
  let l = r.modules
  some (record r { modules = record l { nodes = ws }; fresh = suc r.fresh })

-- `_current_module->getNext()`.
unfoldable pub next_module : Request → Option (Option ModuleWrapper)
next_module r = do id ← r.current; next_in id r.modules.nodes

-- `getOutputModule`: the tail pointer.
unfoldable pub output_module : Request → Option ModuleWrapper
output_module r = r.modules.tail

-- `callLater`.
unfoldable pub call_later : ℕ → ℕ → Request → Option Request
call_later now delay r = do
  id ← r.current
  some (record r { tasks = add_call_later_task now id delay r.tasks })

abbrev pub data_event : Bool → Event
data_event true = on_response_data
data_event false = on_request_data

-- `giveData`: the module in front of the output module writes; any other hands the buffer on.
unfoldable pub give_data : Buffer → Request → Option Request
give_data buf r = do
  id ← r.current
  next ← next_module r
  w ← next
  after ← next_in w.id r.modules.nodes
  elim after [
    | none ↦ some (record r { tasks = need_write buf r.tasks })
    | some _ ↦ do
      response ← is_in_response_part id r.modules
      some (record r { tasks = add_task (data_event response) w.id (some buf) r.tasks })
  ]

-- `needWrite`: for the output module only.
unfoldable pub need_write_data : Buffer → Request → Option Request
need_write_data buf r = do
  id ← r.current
  out ← output_module r
  if out.id == id then some (record r { tasks = need_write buf r.tasks }) else none

-- `raiseEnd`.
unfoldable pub raise_end : Request → Option Request
raise_end r = do
  next ← next_module r
  elim next [ none ↦ some r | some w ↦ some (record r { tasks = add_end_task w.id r.tasks }) ]

-- The loop of `setResponseCode`: the first entry with the code, up to the entry that ends the table.
unfoldable pub message_of : ℕ → List HttpResponse → Bytes
message_of code [] = codes "Undefined HTTP code"
message_of code (e ∷ es) =
    if e.code == undefined
    then codes "Undefined HTTP code"
    else if e.code == code
    then e.message
    else message_of code es

-- `setResponseCode`.
unfoldable pub set_response_code : ℕ → Bytes → Request → Request
set_response_code code reason r = record r {
  response_code = code;
  response_msg = if is_empty reason then message_of code responses else reason;
}

-- `raiseError`: the error module, a processing module, takes its place in the chain and is given
-- the end. `hasWork` is called for its answer, and changes the tasks too.
unfoldable pub raise_error : ℕ → ℕ → Bytes → Request → Option Request
raise_error now code reason r = do
  _ ← r.current
  let w : ModuleWrapper = record { id = r.fresh; category = Category.processing }
  l ← set_processing_module w r.modules
  first ← head l
  last ← l.tail
  (worked, u) ← has_work first.id last.id now (reset r.tasks)
  let s = set_response_code code reason r
  some (record s {
    modules = l;
    fresh = suc r.fresh;
    tasks = add_end_task w.id (if worked then reset u else u);
  })

-- `setRequestHeader`, `getRequestHeader` and their counterparts for the response.
unfoldable pub set_request_header : Bytes → Bytes → Request → Request
set_request_header key val r = record r { request_headers = insert key val r.request_headers }

unfoldable pub get_request_header : Bytes → Request → Bytes × Request
get_request_header key r =
    let (v, m) = get_header key r.request_headers in (v, record r { request_headers = m })

unfoldable pub set_response_header : Bytes → Bytes → Request → Request
set_response_header key val r = record r { response_headers = insert key val r.response_headers }

unfoldable pub get_response_header : Bytes → Request → Bytes × Request
get_response_header key r =
    let (v, m) = get_header key r.response_headers in (v, record r { response_headers = m })
