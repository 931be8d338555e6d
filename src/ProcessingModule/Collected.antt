-- ===== src/ProcessingModule/Collected.antt =====
-- server/modules/common/AbstractProcessingModule.hpp: what a module with post data is told at the end.
use zhttpd.Base.{
  ℕ, ◌≤◌, length, All, Bool, Bytes, List, [], ◌∷◌, ◌++◌, map, Option, none, some, ◌>>=◌, ◌≡◌, ap,
  ◌∙◌, append-nil, append_assoc, arith,
}
use zhttpd.Api.{
  Event, on_can_read, on_can_write, on_request_data, on_response_data, on_idle, on_end, on_error,
  Buffer,
}
use zhttpd.Request.{Request}
use zhttpd.Parser.{release_all}
use mathlib.Core.List.{flatten}
use zhttpd.PostData.Forms.{
  Sent, form, IsField, fields_of, prepare-form, values, sent_values, values-fields_of,
}
use zhttpd.PostData.{Fields, prepare, at_start}
use zhttpd.ProcessingModule.{process, PostData, prepare_and_clear, with_post_data}

-- Events before the end, those that carry a buffer with it.
pub data Before : Type 0 where
  data_comes : Buffer → Before
  response_comes : Buffer → Before
  can_write : Buffer → Before
  can_read idle fails : Before

abbrev pub event_of : Before → Event × Option Buffer
event_of (data_comes b) = (on_request_data, some b)
event_of (response_comes b) = (on_response_data, some b)
event_of (can_write b) = (on_can_write, some b)
event_of can_read = (on_can_read, none)
event_of idle = (on_idle, none)
event_of fails = (on_error, none)

-- The buffers of the data of the request.
abbrev pub data_of : List Before → List Buffer
data_of [] = []
data_of (data_comes b ∷ es) = b ∷ data_of es
data_of (_ ∷ es) = data_of es

no_data : (turns : ℕ) (fields : Fields) → prepare turns at_start [] ≡ some fields → [] ≡ fields
unfolding prepare
no_data turns fields e = ground (arith, e)

module _ (turns : ℕ) (ready : Fields → Request → Option (Bool × Request)) where
  -- The events one after the other, and then the end.
  abbrev pub run_to_end :
      List Before → Option PostData → Request → Option (Bool × Option PostData × Request)
  run_to_end [] s r = process (with_post_data turns ready) on_end none s r
  run_to_end (e ∷ es) s r =
      process (with_post_data turns ready) (event_of e).0 (event_of e).1 s r
      >>= (λ (d : Bool × Option PostData × Request). run_to_end es d.1 d.2)

  abbrev pub bytes_of : List Buffer → List Bytes
  bytes_of = map (λ (b : Buffer). b.bytes)

  -- The end, behind buffers that were given.
  end_behind :
      (bufs : List Buffer) (r u : Request) (fields : Fields) (answer : Bool)
      → prepare turns at_start (bytes_of bufs) ≡ some fields
      → ready fields (release_all bufs r) ≡ some (answer, u)
      → process
          (with_post_data turns ready)
          on_end
          none
          (some (record { fields = []; post_data = bufs }))
          r
        ≡ some (answer, some (record { fields = fields; post_data = [] }), u)
  unfolding process with_post_data prepare_and_clear
  end_behind bufs r u fields answer e f =
      ap
        (λ (o : Option Fields).
          o
          >>= (λ (fs : Fields). some (record { fields = fs; post_data = [] }, release_all bufs r))
          >>= (λ (d : PostData × Request).
              ready d.0.fields d.1 >>= (λ (a : Bool × Request). some (a.0, some d.0, a.1))))
        e
      ∙ ap
          (λ (o : Option (Bool × Request)). o >>= (λ (a : Bool × Request).
            some (a.0, some (record { fields = fields; post_data = [] }), a.1)))
          f

  run-behind :
      (es : List Before) (bufs : List Buffer) (r u : Request) (fields : Fields) (answer : Bool)
      → prepare turns at_start (bytes_of (bufs ++ data_of es)) ≡ some fields
      → ready fields (release_all (bufs ++ data_of es) r) ≡ some (answer, u)
      → run_to_end es (some (record { fields = []; post_data = bufs })) r
        ≡ some (answer, some (record { fields = fields; post_data = [] }), u)
  unfolding process with_post_data
  run-behind [] bufs r u fields answer e f =
      end_behind bufs r u fields answer (rw append-nil at e) (rw append-nil at f)
  run-behind (data_comes b ∷ es) bufs r u fields answer e f =
      run-behind es (bufs ++ b ∷ []) r u fields answer
        (ap (λ bs. prepare turns at_start (bytes_of bs)) (append_assoc bufs (b ∷ []) (data_of es))
          ∙ e)
        (ap (λ bs. ready fields (release_all bs r)) (append_assoc bufs (b ∷ []) (data_of es)) ∙ f)
  run-behind (response_comes b ∷ es) bufs r u fields answer e f =
      run-behind es bufs r u fields answer e f
  run-behind (can_write b ∷ es) bufs r u fields answer e f =
      run-behind es bufs r u fields answer e f
  run-behind (can_read ∷ es) bufs r u fields answer e f = run-behind es bufs r u fields answer e f
  run-behind (idle ∷ es) bufs r u fields answer e f = run-behind es bufs r u fields answer e f
  run-behind (fails ∷ es) bufs r u fields answer e f = run-behind es bufs r u fields answer e f

  -- From the start of the module, whatever `prepare` gives.
  run_to_end-ready :
      (es : List Before) (r u : Request) (fields : Fields) (answer : Bool)
      → prepare turns at_start (bytes_of (data_of es)) ≡ some fields
      → ready fields (release_all (data_of es) r) ≡ some (answer, u)
      → run_to_end es none r ≡ some (answer, some (record { fields = fields; post_data = [] }), u)
  unfolding process with_post_data
  run_to_end-ready [] r u fields answer e f =
      ap
        (λ (fs : Fields). ready fs r >>= (λ (a : Bool × Request).
          some (a.0, some (record { fields = fs; post_data = [] }), a.1)))
        (no_data turns fields e)
      ∙ ap
          (λ (o : Option (Bool × Request)). o >>= (λ (a : Bool × Request).
            some (a.0, some (record { fields = fields; post_data = [] }), a.1)))
          f
  run_to_end-ready (data_comes b ∷ es) r u fields answer e f =
      run-behind es (b ∷ []) r u fields answer e f
  run_to_end-ready (response_comes b ∷ es) r u fields answer e f =
      run_to_end-ready es r u fields answer e f
  run_to_end-ready (can_write b ∷ es) r u fields answer e f =
      run_to_end-ready es r u fields answer e f
  run_to_end-ready (can_read ∷ es) r u fields answer e f = run_to_end-ready es r u fields answer e f
  run_to_end-ready (idle ∷ es) r u fields answer e f = run_to_end-ready es r u fields answer e f
  run_to_end-ready (fails ∷ es) r u fields answer e f = run_to_end-ready es r u fields answer e f

  -- A module that gathers the data of its request, from its start: whatever events come before the end, if
  -- each buffer of data holds whole fields of a form, with keys, and the loops may take as many turns as
  -- there are fields in a buffer, what the module does at the end is done with fields that give each key the
  -- values that were sent under it, in order, escapes read, on a request to which each buffer of data was
  -- given back, once and in order. Its answer is that of the module, and nothing is left to be given back.
  pub run_to_end-form :
      (keeps : ℕ → Bool) (sent : List Sent) (es : List Before) (r u : Request) (answer : Bool)
      → bytes_of (data_of es) ≡ map (form keeps) sent
      → All (λ (fs : Sent). All (IsField keeps) fs × (length fs ≤ turns)) sent
      → ready (fields_of [] (flatten sent)) (release_all (data_of es) r) ≡ some (answer, u)
      → (run_to_end es none r
          ≡ some
              (answer, some (record { fields = fields_of [] (flatten sent); post_data = [] }), u))
        × ((key : Bytes)
            → values key (fields_of [] (flatten sent)) ≡ sent_values key (flatten sent))
  run_to_end-form keeps sent es r u answer e all f = (
    run_to_end-ready es r u (fields_of [] (flatten sent)) answer
        (ap (prepare turns at_start) e ∙ prepare-form keeps turns sent [] all) f,
    λ key. values-fields_of key (flatten sent) [],
  )
