-- ===== src/Tests/Pools.antt =====
-- The socket pool and its selectors at concrete inputs.
use Prim.{tt}
use zhttpd.Base.{Bool, true, false, [], ◌∷◌, ◌++◌, none, some, Gives, ◌≡◌, refl, arith}
use zhttpd.Api.{SocketEventType, can_read, has_error}
use zhttpd.SocketEvents.{SocketEvent, noting}
use zhttpd.Selector.Basic.{Prepared, prepare_sockets, sorted_out}
use zhttpd.Selector.Prepare.{IsPrepared, prepare_sockets-IsPrepared}
use zhttpd.Selector.Epoll.{EpollSelector, epoll, notify_all, notified, grow}
use zhttpd.SocketPool.{SocketPool, handled_by, notify, replay}
use zhttpd.SocketPool.Watch.{Watches, replay-run}
use zhttpd.SocketPool.Reused.{notify-reused}
use zhttpd.Tasks.Registration.{awaits}
use zhttpd.Tests.Tasks.{history, waiting, run-history}

abbrev new_pool : SocketPool EpollSelector
new_pool = record {
  events = λ fd. none;
  selector = record { watched = []; nfds = 1; max_events = 1024 };
}

new_pool-Watches : Watches epoll 7 8 new_pool false new_pool
unfolding epoll
new_pool-Watches = record {
  enabled = refl;
  watched = refl;
  fit = record { distinct = tt; counted = refl };
  other_event = λ e. refl;
  other_watched = λ e. refl;
}

replay-run_example :
    Gives
      (Watches epoll 7 8 new_pool (awaits waiting))
      (replay epoll 7 3 waiting.pool_calls new_pool)
replay-run_example =
    replay-run epoll 7 8 5 3 history waiting new_pool (omega arith) new_pool-Watches run-history

grow_test :
    grow (record { watched = []; nfds = 3000; max_events = 1024 })
    ≡ some (record { watched = []; nfds = 3000; max_events = 5000 })
unfolding grow
grow_test = refl

notify_all_test :
    notify_all 4 (
      record { fd = 4; error = false; hung_up = false; readable = true; writable = false }
      ∷ record { fd = 7; error = false; hung_up = true; readable = true; writable = false }
      ∷ record { fd = 8; error = false; hung_up = false; readable = true; writable = false }
      ∷ [])
    ≡ (7, has_error) ∷ (8, can_read) ∷ []
unfolding notify_all notified
notify_all_test = refl

abbrev interrupting : Prepared
interrupting = record { max_fd = 4; set = 4 ∷ []; failed = [] }

prepare_sockets-IsPrepared_example :
    IsPrepared 1023 (prepare_sockets 1023 (7 ∷ 1030 ∷ []) interrupting)
    × ((prepare_sockets 1023 (7 ∷ 1030 ∷ []) interrupting).set
        ≡ (4 ∷ []) ++ sorted_out 1023 true (7 ∷ 1030 ∷ []))
    × ((prepare_sockets 1023 (7 ∷ 1030 ∷ []) interrupting).failed
        ≡ [] ++ sorted_out 1023 false (7 ∷ 1030 ∷ []))
prepare_sockets-IsPrepared_example =
    prepare_sockets-IsPrepared 1023 (7 ∷ 1030 ∷ []) interrupting
      (record { limited = omega arith; covered = (omega arith, tt) })

abbrev disabled_event : SocketEvent
disabled_event = record {
  object = none;
  enabled = false;
  read_event = false;
  write_event = false;
  error_event = false;
}

abbrev never : SocketEventType → Bool
never e = false

notify-reused_example :
    Gives
      (λ r.
        (r.1 ≡ [])
        × Gives
            (λ s. s.1 ≡ [] ++ (9, has_error) ∷ [])
            (notify (noting never) can_read (some (handled_by 9 (some r.0))) []))
      (notify (noting never) has_error (some disabled_event) [])
notify-reused_example = notify-reused never 9 disabled_event [] refl
