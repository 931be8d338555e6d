-- ===== src/SocketPool.antt =====
-- server/socket/SocketPool.hpp: the events of the sockets by their descriptors, over any selector.

pub mod Watch
pub mod Reused
use zhttpd.Base.{
  ℕ, ltb, update, Bool, false, Option, none, some, if◌then◌else◌, List, [], ◌∷◌, ◌>>=◌,
}
use zhttpd.Api.{SocketEventType}
use zhttpd.SocketEvents
use zhttpd.SocketEvents.{SocketEvent}
use zhttpd.Selector.{Selector}
use zhttpd.Tasks.{PoolCall, monitor, ignore}

-- `_events` and the base class.
pub record SocketPool (S : Type 0) : Type 0 where
  pub events : ℕ → Option SocketEvent
  pub selector : S

-- `EVENTS_SIZE`: the array has no place for larger descriptors.
abbrev pub events_size : ℕ
events_size = 65536

-- `new SocketEvent`, or `setHandler`.
abbrev pub handled_by : ℕ → Option SocketEvent → SocketEvent
handled_by object none = SocketEvents.init object
handled_by object (some e) = SocketEvents.set_handler object e

abbrev pub enabled_at : Option SocketEvent → Bool
enabled_at none = false
enabled_at (some e) = e.enabled

module _ {S : Type 0} (sel : Selector S) where
  -- `registerHandler`.
  unfoldable pub register_handler : ℕ → ℕ → SocketPool S → Option (SocketPool S)
  unfolding SocketEvents.init SocketEvents.set_handler
  register_handler fd object p =
      if ltb fd events_size
      then some (record {
        events = update p.events fd (some (handled_by object (p.events fd)));
        selector = sel.add fd p.selector;
      })
      else none

  -- The end of `unregisterHandler`, and of `destroyHandler`, with the event at the descriptor, which
  -- must not be null.
  unfoldable pub put_out : ℕ → Option SocketEvent → SocketPool S → Option (SocketPool S)
  unfolding SocketEvents.disable
  put_out fd none p = none
  put_out fd (some e) p = some (record {
    events = update p.events fd (some (SocketEvents.disable e));
    selector = if e.enabled then sel.remove fd p.selector else p.selector;
  })

  -- `unregisterHandler`, and `destroyHandler`, which waits for a `trigger` that runs.
  unfoldable pub unregister_handler : ℕ → SocketPool S → Option (SocketPool S)
  unfolding put_out
  unregister_handler fd p = if ltb fd events_size then put_out fd (p.events fd) p else none

  -- What a request asks of the pool, the newest call first.
  unfoldable pub replay : ℕ → ℕ → List PoolCall → SocketPool S → Option (SocketPool S)
  unfolding register_handler unregister_handler
  replay fd object [] p = some p
  replay fd object (monitor ∷ cs) p = replay fd object cs p >>= register_handler fd object
  replay fd object (ignore ∷ cs) p = replay fd object cs p >>= unregister_handler fd

-- What a handler does with an event of a socket: here it may only note it.
module _ {L : Type 0} (handle : ℕ → SocketEventType → SocketEvent × L → SocketEvent × L) where
  -- `notify` with the event at the descriptor: what the handlers do to this event, and what they note.
  unfoldable pub notify : SocketEventType → Option SocketEvent → L → Option (SocketEvent × L)
  unfolding SocketEvents.notify SocketEvents.trigger
  notify evt none log = none
  notify evt (some e) log = SocketEvents.trigger handle (SocketEvents.notify evt e, log)
