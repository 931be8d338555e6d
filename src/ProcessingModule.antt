-- ===== src/ProcessingModule.antt =====
-- server/modules/common/AbstractModule.hpp and AbstractProcessingModule.hpp: the bases of modules that
-- answer a request once it is whole.
pub mod Collected
use zhttpd.Base.{ℕ, Bool, true, false, Bytes, List, [], ◌∷◌, ◌++◌, map, Option, none, some, ◌>>=◌}
use zhttpd.Api.{
  Event, on_can_read, on_can_write, on_request_data, on_response_data, on_idle, on_end, on_error,
  Buffer,
}
use zhttpd.Request.{Request}
use zhttpd.Parser.{release_all}
use zhttpd.PostData.{Fields, Reading, prepare}

-- The handlers of an `AbstractModule`, with the state of the module.
pub record Handlers (S : Type 0) : Type 0 where
  pub process_request_data : Buffer → S → Request → Option (Bool × S × Request)
  pub process_response_data : Buffer → S → Request → Option (Bool × S × Request)
  pub process_end : S → Request → Option (Bool × S × Request)
  pub process_idle : S → Request → Option (Bool × S × Request)
  pub process_can_read : S → Request → Option (Bool × S × Request)
  pub process_can_write : Buffer → S → Request → Option (Bool × S × Request)
  pub process_error : S → Request → Option (Bool × S × Request)

-- Those that are not overridden.
abbrev pub ignoring : {S : Type 0} → Handlers S
ignoring = record {
  process_request_data = λ buf s r. some (false, s, r);
  process_response_data = λ buf s r. some (false, s, r);
  process_end = λ s r. some (false, s, r);
  process_idle = λ s r. some (false, s, r);
  process_can_read = λ s r. some (false, s, r);
  process_can_write = λ buf s r. some (false, s, r);
  process_error = λ s r. some (false, s, r);
}

-- `AbstractModule::processRequest`; `none` where an assertion fails or a handler throws.
unfoldable pub process :
    {S : Type 0} → Handlers S → Event → Option Buffer → S → Request → Option (Bool × S × Request)
process h on_end buf s r = h.process_end s r
process h on_request_data (some buf) s r = h.process_request_data buf s r
process h on_request_data none s r = none
process h on_can_read buf s r = h.process_can_read s r
process h on_can_write (some buf) s r = h.process_can_write buf s r
process h on_can_write none s r = none
process h on_response_data (some buf) s r = h.process_response_data buf s r
process h on_response_data none s r = none
process h on_idle buf s r = h.process_idle s r
process h on_error buf s r = h.process_error s r

-- `fields` and `_post_data` of a `PostData`. Its request is that of the module.
pub record PostData : Type 0 where
  pub fields : Fields
  pub post_data : List Buffer

abbrev pub new_post_data : PostData
new_post_data = record { fields = []; post_data = [] }

-- `_post_data` of an `AbstractProcessingModule<true>`.
abbrev pub post_data_of : Option PostData → PostData
post_data_of none = new_post_data
post_data_of (some d) = d

-- `append`.
abbrev pub append : Buffer → PostData → PostData
append buf d = record d { post_data = d.post_data ++ buf ∷ [] }

-- `prepare`, which ends in `clear`, with a bound for the turns of its loops.
unfoldable pub prepare_and_clear : ℕ → PostData → Request → Option (PostData × Request)
unfolding prepare release_all
prepare_and_clear turns d r =
    prepare turns (record { key = []; value = []; read_key = true; fields = d.fields })
      (map (λ (b : Buffer). b.bytes) d.post_data)
    >>= (λ (fields : Fields).
        some (record { fields = fields; post_data = [] }, release_all d.post_data r))

abbrev pub prepare_some : ℕ → Option PostData → Request → Option (PostData × Request)
prepare_some turns none r = some (new_post_data, r)
prepare_some turns (some d) r = prepare_and_clear turns d r

-- The handlers of `AbstractProcessingModule<true>`, for what a module does in `processOnRequestReady`.
unfoldable pub with_post_data :
    (turns : ℕ) → (Fields → Request → Option (Bool × Request)) → Handlers (Option PostData)
unfolding prepare_and_clear
with_post_data turns ready = record ignoring {
  process_request_data = λ buf s r. some (true, some (append buf (post_data_of s)), r);
  process_end = λ s r. prepare_some turns s r >>= (λ (d : PostData × Request).
      ready d.0.fields d.1 >>= (λ (a : Bool × Request). some (a.0, some d.0, a.1)));
}

-- Those of `AbstractProcessingModule<false>`, which throws on data.
abbrev pub without_post_data : (Request → Option (Bool × Request)) → Handlers Unit
without_post_data ready = record ignoring {
  process_request_data = λ buf s r. none;
  process_end = λ s r. ready r >>= (λ (a : Bool × Request). some (a.0, s, a.1));
}

-- The destructor, which clears what was not prepared.
unfoldable pub destroy : Option PostData → Request → Request
unfolding release_all
destroy none r = r
destroy (some d) r = release_all d.post_data r
