-- ===== src/SocketEvents.antt =====
-- server/socket/SocketEvent.hpp: the events of a socket, between the selector that notes them and the
-- request that handles them.
use zhttpd.Base.{
  ℕ, Bool, true, false, not, ◌&&◌, ◌||◌, List, [], ◌∷◌, ◌++◌, Option, none, some, if◌then◌else◌,
  ◌≡◌, refl, arith, Bool-cases, inl, inr, append_assoc, append-nil, ap, sym, ◌∙◌,
}
use zhttpd.Api.{SocketEventType, can_read, can_write, has_error}

-- The fields of the class. `object` names the handler.
pub record SocketEvent : Type 0 where
  pub object : Option ℕ
  pub enabled : Bool
  pub read_event : Bool
  pub write_event : Bool
  pub error_event : Bool

-- `SocketEvent::SocketEvent`.
unfoldable pub init : ℕ → SocketEvent
init object = record {
  object = some object;
  enabled = true;
  read_event = false;
  write_event = false;
  error_event = false;
}

-- `isEnabled`.
abbrev pub is_enabled : SocketEvent → Bool
is_enabled e = e.enabled

-- `notify`.
unfoldable pub notify : SocketEventType → SocketEvent → SocketEvent
notify can_read e = record e { read_event = true }
notify can_write e = record e { write_event = true }
notify has_error e = record e { error_event = true }

-- `setHandler`.
unfoldable pub set_handler : ℕ → SocketEvent → SocketEvent
set_handler object e = record e { object = some object; enabled = true }

-- `disable`, and `destroy`, which waits for a `trigger` that runs.
unfoldable pub disable : SocketEvent → SocketEvent
disable e = record e { object = none; enabled = false }

-- What the handlers do with an event: they may disable the event or set another handler.
module _ {S : Type 0} (handle : ℕ → SocketEventType → SocketEvent × S → SocketEvent × S) where
  -- The call of `handleSocketEvent`; `none` where there is no object.
  unfoldable pub call : SocketEventType → SocketEvent × S → Option (SocketEvent × S)
  call evt (e, s) = elim e.object [ none ↦ none | some object ↦ some (handle object evt (e, s)) ]

  -- The branch of `trigger` for an error.
  unfoldable pub trigger_error : SocketEvent → S → Option (SocketEvent × S)
  unfolding call
  trigger_error e s =
      let cleared = record e { read_event = false; write_event = false; error_event = false } in
      let called = call has_error (cleared, s) in
      if cleared.enabled then called else some (cleared, s)

  -- The body of the loop of `trigger`, for each of the two other events.
  unfoldable pub trigger_read : SocketEvent × S → SocketEvent × S
  trigger_read (e, s) =
      let cleared = record e { read_event = false } in
      if e.read_event
      then (if e.enabled
          then elim e.object [
            | none ↦ (cleared, s)
            | some object ↦ handle object can_read (cleared, s)
          ]
          else (cleared, s))
      else (e, s)

  unfoldable pub trigger_write : SocketEvent × S → SocketEvent × S
  trigger_write (e, s) =
      let cleared = record e { write_event = false } in
      if e.write_event
      then (if e.enabled
          then elim e.object [
            | none ↦ (cleared, s)
            | some object ↦ handle object can_write (cleared, s)
          ]
          else (cleared, s))
      else (e, s)

  -- `trigger`.
  unfoldable pub trigger : SocketEvent × S → Option (SocketEvent × S)
  unfolding trigger_error trigger_read trigger_write
  trigger (e, s) =
      if not e.enabled
      then some (e, s)
      else if e.error_event
      then trigger_error e s
      else some (trigger_write (trigger_read (e, s)))

-- A handler that notes what it is told, and disables the event where it is told to.
abbrev pub noting :
    (SocketEventType → Bool)
    → ℕ
    → SocketEventType
    → SocketEvent × List (ℕ × SocketEventType)
    → SocketEvent × List (ℕ × SocketEventType)
noting stops object evt (e, log) = (if stops evt then disable e else e, log ++ (object, evt) ∷ [])

-- What is due to the handler of an event, in order.
abbrev pub due : (SocketEventType → Bool) → ℕ → SocketEvent → List (ℕ × SocketEventType)
due stops object e =
    if not e.enabled
    then []
    else if e.error_event
    then (object, has_error) ∷ []
    else (if e.read_event then (object, can_read) ∷ [] else [])
      ++ (if e.write_event && not (e.read_event && stops can_read)
          then (object, can_write) ∷ []
          else [])

abbrev flags : ℕ → Bool → Bool → Bool → Bool → SocketEvent
flags object enabled r w x = record {
  object = some object;
  enabled = enabled;
  read_event = r;
  write_event = w;
  error_event = x;
}

-- A disabled event with nothing left to tell.
abbrev told : SocketEvent
told = record {
  object = none;
  enabled = false;
  read_event = false;
  write_event = false;
  error_event = false;
}

trigger-flags :
    (stops : SocketEventType → Bool) (object : ℕ) (log : List (ℕ × SocketEventType))
    (enabled r w x : Bool)
    → (after : SocketEvent) × (trigger (noting stops) (flags object enabled r w x, log)
        ≡ some (after, log ++ due stops object (flags object enabled r w x)))
      × ((enabled && (after.read_event || after.write_event || after.error_event)) ≡ false)
unfolding trigger trigger_error trigger_read trigger_write call disable
trigger-flags stops object log false r w x =
    (flags object false r w x, ap (λ l. some (_, l)) (sym (append-nil log)), refl)
trigger-flags stops object log true r w true = (_, refl, ground arith)
trigger-flags stops object log true false false false =
    (flags object true false false false, ap (λ l. some (_, l)) (sym (append-nil log)), refl)
trigger-flags stops object log true false true false = (_, refl, ground arith)
trigger-flags stops object log true true false false = elim (Bool-cases (stops can_read)) [
  | inl s ↦ (told, ground arith, refl)
  | inr s ↦ (flags object true false false false, ground arith, refl)
]
trigger-flags stops object log true true true false = elim (Bool-cases (stops can_read)) [
  | inl s ↦ (told, ground arith, refl)
  | inr s ↦ elim (Bool-cases (stops can_write)) [
    | inl t ↦ (
      told,
      ground (arith, append_assoc log ((object, can_read) ∷ []) ((object, can_write) ∷ [])),
      refl,
    )
    | inr t ↦ (
      flags object true false false false,
      ground (arith, append_assoc log ((object, can_read) ∷ []) ((object, can_write) ∷ [])),
      refl,
    )
  ]
]

-- `trigger` on an event with an object, for a handler that notes what it is told and may disable the
-- event: it tells the error alone if there is one, else that the socket can be read and then that
-- it can be written, the latter not after the event was disabled; a disabled event tells nothing.
-- Of an enabled event nothing is left to tell.
pub trigger-due :
    (stops : SocketEventType → Bool) (object : ℕ) (e : SocketEvent)
    (log : List (ℕ × SocketEventType))
    → e.object ≡ some object
    → (after : SocketEvent) × (trigger (noting stops) (e, log)
        ≡ some (after, log ++ due stops object e))
      × ((e.enabled && (after.read_event || after.write_event || after.error_event)) ≡ false)
unfolding trigger trigger_error trigger_read trigger_write call disable
trigger-due stops object e log h =
    let (after, run, left) =
      trigger-flags stops object log e.enabled e.read_event e.write_event e.error_event in
    (after, ap (λ o. trigger (noting stops) (record e { object = o }, log)) h ∙ run, left)
