-- ===== src/Api.antt =====
-- api/constants.hpp (events, categories, methods), api/IBuffer.hpp and socket/ISocketEventHandler:
-- the vocabulary that the server's core and its modules share.
pub mod HttpCode
use zhttpd.Base.{ℕ, Bytes, Bool, true, false, length, List, [], ◌∷◌, ◌++◌}

-- `api::event::Type`.
pub data Event : Type 0 where
  on_can_read on_can_write on_request_data on_response_data on_idle on_end on_error : Event

-- `socket_event::Type`.
pub data SocketEventType : Type 0 where
  can_read can_write has_error : SocketEventType

-- `api::http_method::Type`.
pub data HttpMethod : Type 0 where
  undefined get post put delete trace options connect head : HttpMethod

-- `api::category::Type`.
pub data Category : Type 0 where
  undefined input_output post_input pre_build : Category
  pre_request_filter uncompress post_request_filter : Category
  pre_processing processing post_processing : Category
  pre_response_filter compress post_response_filter pre_output : Category

-- A buffer as its users see it: which object it is, and its `getRawData()[0 .. getSize())`.
pub record Buffer : Type 0 where
  pub id : ℕ
  pub bytes : Bytes

-- `getSize()`.
abbrev pub size : Buffer → ℕ
size b = length b.bytes

-- The bytes of some buffers, one after the other.
abbrev pub contents : List Buffer → Bytes
contents [] = []
contents (b ∷ bs) = b.bytes ++ contents bs

-- `evt == ON_CAN_WRITE || evt == ON_RESPONSE_DATA || evt == ON_REQUEST_DATA`.
abbrev pub carries_data : Event → Bool
carries_data on_can_write = true
carries_data on_response_data = true
carries_data on_request_data = true
carries_data _ = false
