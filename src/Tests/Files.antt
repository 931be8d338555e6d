-- ===== src/Tests/Files.antt =====
-- Paths, server/utils/Path.cpp, and the events of sockets, server/socket/SocketEvent.hpp.
use Prim.{tt}
use zhttpd.Base.{Bool, Bytes, codes, true, false, ◌&&◌, ◌||◌, [], ◌++◌, some, ◌≡◌, refl}
use zhttpd.Api.{SocketEventType, can_read}
use zhttpd.Paths.{add, base_path, file_name, ends_open, is_absolute, base_path-add}
use zhttpd.SocketEvents.{SocketEvent, noting, due, trigger, trigger-due}

abbrev no_directory : Bytes → Bool
no_directory path = false

base_path-add_test :
    (base_path no_directory (codes "/root") (add (codes "/www") (codes "a.txt")) ≡ codes "/www")
    × (file_name no_directory (codes "/root") (add (codes "/www") (codes "a.txt")) ≡ codes "a.txt")
unfolding ends_open is_absolute
base_path-add_test =
    base_path-add no_directory (codes "/root") (codes "/www") (codes "a.txt") refl
      (refl, (refl, (refl, (refl, tt)))) (refl, (refl, (refl, (refl, (refl, tt)))))
      (refl, (refl, (refl, (refl, (refl, tt))))) refl refl

abbrev stop_on_read : SocketEventType → Bool
stop_on_read can_read = true
stop_on_read _ = false

abbrev ready : SocketEvent
ready = record {
  object = some 7;
  enabled = true;
  read_event = true;
  write_event = true;
  error_event = false;
}

trigger-due_test :
    (after : SocketEvent) × (trigger (noting stop_on_read) (ready, [])
      ≡ some (after, [] ++ due stop_on_read 7 ready))
    × ((ready.enabled && (after.read_event || after.write_event || after.error_event)) ≡ false)
trigger-due_test = trigger-due stop_on_read 7 ready [] refl
