-- ===== src/Parser/Overflow.antt =====
-- server/modules/Parser/Parser.cpp: a head that is longer than the parser allows.
use zhttpd.Base.{
  ℕ, ◌+◌, ◌%◌, ◌^◌, ◌<◌, false, Bytes, List, [], ◌∷◌, ◌++◌, none, some, ◌≡◌, refl, sym, ap, ◌∙◌,
  arith, lt→ltb, append-nil, append_assoc, bind-eq-some,
}
use zhttpd.Api.{Buffer, size}
use zhttpd.Tasks.{add_end_task, as_list, task_buffers, register}
use zhttpd.Tasks.Work.{need_read}
use zhttpd.Request.{
  Request, release, raise_end, set_request_header, set_response_header, get_request_header,
  next_module,
}
use zhttpd.Parser.Head.{LineState, at_start, parse_byte, parse_bytes, parse_line}
use zhttpd.Api.{contents}
use zhttpd.Parser.Buffers.{parse_buffers-contents}
use zhttpd.Parser.{
  Parser, unfinished, scan, release_all, destroy, parse_request, continue_head, process_data,
  max_header_size,
}

release_all_released :
    (bs : List Buffer) (r : Request) → (release_all bs r).tasks.released ≡ r.tasks.released ++ bs
unfolding release_all release
release_all_released [] r = sym (append-nil _)
release_all_released (b ∷ bs) r =
    release_all_released bs (release b r) ∙ append_assoc r.tasks.released (b ∷ []) bs

release_all_end :
    (bs : List Buffer) (r : Request) → (release_all bs r).tasks.end_task ≡ r.tasks.end_task
unfolding release_all release
release_all_end [] r = refl
release_all_end (b ∷ bs) r = release_all_end bs (release b r)

parse_line_tasks : (l : Bytes) (r : Request) → (parse_line l r).tasks ≡ r.tasks
unfolding parse_line set_request_header
parse_line_tasks [] r = refl
parse_line_tasks (c ∷ l) r = refl

parse_byte_tasks : (c : ℕ) (st : LineState) (r : Request) → (parse_byte c (st, r)).1.tasks ≡ r.tasks
unfolding parse_byte
parse_byte_tasks c st r = ground (arith, parse_line_tasks st.line r)

parse_bytes_tasks : (xs : Bytes) (s : LineState × Request) → (parse_bytes xs s).1.tasks ≡ s.1.tasks
unfolding parse_bytes
parse_bytes_tasks [] s = refl
parse_bytes_tasks (c ∷ xs) s = parse_bytes_tasks xs (parse_byte c s) ∙ parse_byte_tasks c s.0 s.1

parse_request_tasks :
    (full_name : Bytes) (bs : List Buffer) (r : Request)
    → ((parse_request full_name bs r).1.tasks.released ≡ r.tasks.released ++ bs)
      × ((parse_request full_name bs r).1.tasks.end_task ≡ r.tasks.end_task)
unfolding parse_request set_response_header get_request_header
parse_request_tasks full_name bs r =
    let parsed = parse_bytes (contents bs) (at_start, r) in
    let kept = parse_bytes_tasks (contents bs) (at_start, r) in
    (
      ap (λ (q : Request). q.tasks.released) (parse_buffers-contents at_start bs r)
          ∙ release_all_released bs parsed.1
          ∙ rw kept,
      ap (λ (q : Request). q.tasks.end_task) (parse_buffers-contents at_start bs r)
          ∙ release_all_end bs parsed.1
          ∙ rw kept,
    )

raise_end_released :
    (r : Request) {s : Request}
    → r.tasks.end_task ≡ none
    → raise_end r ≡ some s
    → s.tasks.released ≡ r.tasks.released
unfolding raise_end add_end_task as_list task_buffers
raise_end_released r e f =
    let (next, g, h) = bind-eq-some (next_module r) _ f in
    ground (arith, append-nil r.tasks.released)

need_read_frame :
    (r : Request)
    → ((need_read r.tasks).released ≡ r.tasks.released)
      × ((need_read r.tasks).end_task ≡ r.tasks.end_task)
unfolding need_read register
need_read_frame r = ground arith

continue_head_overflow :
    (full_name : Bytes) (p q : Parser) (buf : Buffer) (sep : ℕ) (r s : Request)
    → max_header_size < (p.header_length + size buf) % 2 ^ 64
    → continue_head full_name p buf sep r ≡ some (q, s)
    → (q.completed ≡ p.completed)
      × (q.buffers ≡ p.buffers ++ buf ∷ [])
      × (raise_end
            (parse_request full_name
              (p.buffers ++ buf ∷ [])
              (record r { tasks = need_read r.tasks })).1
          ≡ some s)
unfolding continue_head
continue_head_overflow full_name p q buf sep r s h f =
    let f' = simp (lt→ltb _ _ h) at f in
    let (t, g, e) =
      bind-eq-some
        (raise_end
          (parse_request full_name (p.buffers ++ buf ∷ [])
            (record r { tasks = need_read r.tasks })).1)
        _ f' in
    (ground arith, ground arith, g ∙ ground arith)

-- When a head without end passes the limit, the parser gives all its buffers back, and keeps them
-- listed in a state that is not completed. So its destructor gives each of them back again.
pub destroy-process_data_overflow :
    (full_name : Bytes) (p q : Parser) (buf : Buffer) (sep : ℕ) (r s : Request)
    → p.completed ≡ false
    → scan p.separator buf.bytes ≡ unfinished sep
    → max_header_size < (p.header_length + size buf) % 2 ^ 64
    → r.tasks.end_task ≡ none
    → process_data full_name p buf r ≡ some (q, s)
    → (s.tasks.released ≡ r.tasks.released ++ (p.buffers ++ buf ∷ []))
      × ((destroy q s).tasks.released ≡ s.tasks.released ++ (p.buffers ++ buf ∷ []))
unfolding process_data destroy
destroy-process_data_overflow full_name p q buf sep r s c e h n f =
    let bs = p.buffers ++ buf ∷ [] in
    let waiting = record r { tasks = need_read r.tasks } in
    let (same, listed, ending) =
      continue_head_overflow full_name p q buf sep r s h (simp (c, e) at f) in
    let parsed = parse_request_tasks full_name bs waiting in
    let frame = need_read_frame r in
    (
      raise_end_released _ (parsed.1 ∙ frame.1 ∙ n) ending ∙ parsed.0 ∙ ap (λ t. t ++ bs) frame.0,
      simp (same ∙ c, listed) (release_all_released bs s),
    )
