-- ===== src/Tests/Sockets.antt =====
-- What server/modules/Network does with a socket.
use zhttpd.Base.{codes, true, [], ◌∷◌, ◌++◌, some, ◌≡◌, ◌≤◌, ◌<◌, ◌⊎◌, refl, drop}
use zhttpd.Api.{Buffer, size, on_can_write, Category}
use zhttpd.Request.{Request, output_module}
use zhttpd.Network.{SocketCall, process, process_can_write_lem}
use zhttpd.Tests.Requests.{reading, wrapper}

abbrev busy : SocketCall
busy = record { received = []; sent = 2; behind = codes "??" }

abbrev page : Buffer
page = record { id = 9; bytes = codes "abcde" }

abbrev writing : Request
writing = record reading { current = some 4 }

process_can_write_lem_test :
    (s : Request) × (process busy on_can_write (some page) writing ≡ some (true, s))
    × (((size page ≤ 2)
          × (s.tasks.released ≡ writing.tasks.released ++ page ∷ [])
          × (s.tasks.write_buffers ≡ writing.tasks.write_buffers))
        ⊎ ((rest : Buffer) × (2 < size page)
            × (rest.bytes ≡ drop 2 page.bytes ++ codes "??")
            × (size rest ≡ size page)
            × (s.tasks.write_buffers ≡ writing.tasks.write_buffers ++ rest ∷ [])))
unfolding output_module
process_can_write_lem_test =
    process_can_write_lem busy page writing (wrapper 4 Category.input_output) refl refl refl refl
