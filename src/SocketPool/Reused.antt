-- ===== src/SocketPool/Reused.antt =====
-- server/socket/SocketPool.hpp: an event that was noted for one handler and told to the next.
use zhttpd.Base.{ℕ, Bool, false, List, [], ◌∷◌, ◌++◌, some, ◌≡◌, refl, Gives}
use zhttpd.Api.{SocketEventType, can_read, has_error}
use zhttpd.SocketEvents
use zhttpd.SocketEvents.{SocketEvent, noting}
use zhttpd.SocketPool.{handled_by, notify}

-- An error that is notified of a descriptor with a disabled event tells nobody, but stays noted: the
-- next handler at that descriptor is told the error when its socket can first be read, and not that it
-- can be read.
pub notify-reused :
    (stops : SocketEventType → Bool) (object : ℕ) (e : SocketEvent)
    (log : List (ℕ × SocketEventType))
    → e.enabled ≡ false
    → Gives
        (λ r.
          (r.1 ≡ log)
          × Gives
              (λ s. s.1 ≡ log ++ (object, has_error) ∷ [])
              (notify (noting stops) can_read (some (handled_by object (some r.0))) log))
        (notify (noting stops) has_error (some e) log)
unfolding notify SocketEvents.notify SocketEvents.trigger SocketEvents.trigger_error
    SocketEvents.call SocketEvents.set_handler
notify-reused stops object e log h = rw h (_, (refl, (refl, (_, (refl, refl)))))
