-- ===== src/ModError/Page.antt =====
-- server/modules/ModError/ModError.hpp: how much the client gets of a page for an error.
use zhttpd.Base.{
  ◌==◌, ==_iff, ℕ, zero, suc, ◌+◌, ◌≤◌, ltb, Bool, true, Bytes, codes, List, [], ◌∷◌, Option, none,
  some, if◌then◌else◌, length, ◌>>=◌, ◌≡◌, refl, ap, ◌∙◌, arith, Gives, Bool-cases, inl, inr,
}
use zhttpd.Api.{on_end, on_response_data, Buffer}
use zhttpd.Tasks.{ModuleTask, add_task, finish_task, add_end_task}
use zhttpd.Chain.{ModuleWrapper, next_in, is_in_response_part}
use zhttpd.Request.{
  Request, release, allocate, give_data, raise_end, set_response_header, next_module,
}
use zhttpd.ModError.{blanks, filler, message, page, give_filler, answer, process}

-- How many bytes wait for a module.
abbrev buffer_size : Option Buffer → ℕ
buffer_size none = 0
buffer_size (some b) = length b.bytes

abbrev pub queued : ℕ → List ModuleTask → ℕ
queued id [] = 0
queued id (task ∷ tasks) =
    if task.wrapper == id then buffer_size task.buffer + queued id tasks else queued id tasks

-- The module `id` runs in the response part, in front of `w`, which is not the output.
abbrev pub IsInFront : ℕ → ModuleWrapper → Request → Type 0
IsInFront id w r =
    (r.current ≡ some id)
    × (next_in id r.modules.nodes ≡ some (some w))
    × ((x : ModuleWrapper) × (next_in w.id r.modules.nodes ≡ some (some x)))
    × (is_in_response_part id r.modules ≡ some true)

abbrev data_task : ModuleWrapper → Buffer → ModuleTask
data_task w b = record { event = on_response_data; wrapper = w.id; buffer = some b }

queued-data_task :
    (w : ModuleWrapper) (b : Buffer) (tasks : List ModuleTask)
    → queued w.id (data_task w b ∷ tasks) ≡ length b.bytes + queued w.id tasks
queued-data_task w b tasks = ground (arith, ==_iff w.id w.id)

with_data : ModuleWrapper → Buffer → Request → Request
with_data w b r = record r {
  tasks = let t = r.tasks in record t { tasks = data_task w b ∷ t.tasks };
}

-- `giveData` to a module that is not the output, and `raiseEnd`.
give_data-queued :
    {id : ℕ} {w : ModuleWrapper} (b : Buffer) (r : Request)
    → IsInFront id w r
    → give_data b r ≡ some (with_data w b r)
unfolding give_data next_module add_task with_data
give_data-queued b r (c, n, (x, o), p) = ground (arith, c, n, o, p)

raise_end-queued :
    {id : ℕ} {w : ModuleWrapper} (r : Request)
    → IsInFront id w r
    → raise_end r ≡ some (record r { tasks = add_end_task w.id r.tasks })
unfolding raise_end next_module
raise_end-queued r (c, n, o, p) = ground (arith, c, n)

-- The end of an answer: a buffer is given and the end raised.
give_last :
    {id : ℕ} {w : ModuleWrapper} (b : Buffer) (r : Request)
    → IsInFront id w r
    → give_data b r >>= raise_end
      ≡ some (record (with_data w b r) { tasks = add_end_task w.id (with_data w b r).tasks })
unfolding with_data
give_last {w = w} b r h =
    ap (λ (o : Option Request). o >>= raise_end) (give_data-queued b r h)
    ∙ raise_end-queued (with_data w b r) h

-- What the client is to get: the bytes of a page and of its filler.
abbrev Answered : ModuleWrapper → Request → Request → Type 0
Answered w r u =
    (512 + queued w.id r.tasks.tasks ≤ queued w.id u.tasks.tasks)
    × (u.tasks.end_task ≡ some (finish_task w.id))

length-blanks : (n : ℕ) → length (blanks n) ≡ n
length-blanks zero = refl
length-blanks (suc n) = ap suc (length-blanks n)

filled : Request → Buffer
filled r = record { id = r.fresh_buffer; bytes = filler }

with_filler : ModuleWrapper → Request → Request
unfolding with_data filled
with_filler w r = with_data w (filled r) (record r { fresh_buffer = suc r.fresh_buffer })

give_filler_lem :
    {id : ℕ} {w : ModuleWrapper} (b : Buffer) (r : Request)
    → IsInFront id w r
    → give_filler b r ≡ (if ltb (length b.bytes) 512 then some (with_filler w r) else some r)
unfolding give_filler allocate with_filler filled
give_filler_lem b r h =
    ap (λ (o : Option Request). if ltb (length b.bytes) 512 then o else some r)
      (give_data-queued (filled r) (record r { fresh_buffer = suc r.fresh_buffer }) h)

-- The page behind what was given before it.
give_behind :
    {id : ℕ} {w : ModuleWrapper} (b : Buffer) (r t : Request)
    → give_filler b r ≡ some t
    → IsInFront id w t
    → 512 + queued w.id r.tasks.tasks ≤ length b.bytes + queued w.id t.tasks.tasks
    → Gives (Answered w r) (give_filler b r >>= (λ (v : Request). give_data b v >>= raise_end))
unfolding with_data add_end_task
give_behind {w = w} b r t e h l = (
  record (with_data w b t) { tasks = add_end_task w.id (with_data w b t).tasks },
  (
    ap (λ (o : Option Request). o >>= (λ (v : Request). give_data b v >>= raise_end)) e
        ∙ give_last b t h,
    (omega (arith, l, queued-data_task w b t.tasks.tasks), refl),
  ),
)

give_page :
    {id : ℕ} {w : ModuleWrapper} (b : Buffer) (r : Request)
    → IsInFront id w r
    → Gives (Answered w r) (give_filler b r >>= (λ (t : Request). give_data b t >>= raise_end))
unfolding with_filler with_data filled
give_page {w = w} b r h = elim (Bool-cases (ltb (length b.bytes) 512)) [
  | inl e ↦
      give_behind b r (with_filler w r)
        (give_filler_lem b r h ∙ ap (λ t. if t then some (with_filler w r) else some r) e) h
        (omega (arith, length-blanks 590, queued-data_task w (filled r) r.tasks.tasks))
  | inr e ↦
      give_behind b r r
        (give_filler_lem b r h ∙ ap (λ t. if t then some (with_filler w r) else some r) e) h
        (ground (arith, e))
]

answer-padded :
    {id : ℕ} {w : ModuleWrapper} (code : Bytes) (r : Request)
    → IsInFront id w r
    → Gives (Answered w r) (answer code r)
unfolding answer allocate set_response_header
answer-padded code r h =
    let s =
      set_response_header (codes "Content-Type") (codes "text/html")
        (set_response_header (codes "Connection") (codes "close") r) in
    give_page (allocate (page (message code s)) s).0 (allocate (page (message code s)) s).1 h

process_behind :
    (w : ModuleWrapper) (r : Request) (o : Option Request)
    → Gives (Answered w r) o
    → Gives
        (λ (d : Bool × Request). (d.0 ≡ true) × Answered w r d.1)
        (o >>= (λ (s : Request). some (true, s)))
process_behind w r o (u, (e, a)) =
    ((true, u), (ap (λ (o : Option Request). o >>= (λ (s : Request). some (true, s))) e, (refl, a)))

-- The answer to the end of a request with an error, in front of a module that is not the output: there
-- come at least 512 bytes more to wait for the next module, and it is to be told the end.
pub process-padded :
    {id : ℕ} {w : ModuleWrapper} (to_string : ℕ → Bytes) (buf : Option Buffer) (r : Request)
    → IsInFront id w r
    → Gives
        (λ (d : Bool × Request). (d.0 ≡ true) × Answered w r d.1)
        (process to_string on_end buf r)
unfolding process release
process-padded {w = w} to_string none r h =
    process_behind w r (answer (to_string r.response_code) r)
      (answer-padded (to_string r.response_code) r h)
process-padded {w = w} to_string (some buf) r h =
    process_behind w r (answer (to_string r.response_code) (release buf r))
      (answer-padded (to_string r.response_code) (release buf r) h)
