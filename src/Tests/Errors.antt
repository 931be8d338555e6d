-- ===== src/Tests/Errors.antt =====
-- The page for an error, server/modules/ModError/ModError.hpp.
use zhttpd.Base.{◌+◌, ◌≤◌, true, Bool, codes, none, some, ◌≡◌, refl, Gives}
use zhttpd.Api.{Category, on_end}
use zhttpd.Chain.{next_in, is_in_response_part, in_response}
use zhttpd.Tasks.{finish_task}
use zhttpd.Request.{Request}
use zhttpd.ModError.{process}
use zhttpd.ModError.Page.{queued, process-padded}
use zhttpd.Tests.Requests.{reading, wrapper}

process-padded_example :
    Gives
      (λ (d : Bool × Request).
        (d.0 ≡ true)
        × ((512 + queued 3 reading.tasks.tasks ≤ queued 3 d.1.tasks.tasks)
            × (d.1.tasks.end_task ≡ some (finish_task 3))))
      (process (λ n. codes "404") on_end none reading)
unfolding next_in is_in_response_part in_response
process-padded_example =
    process-padded {id = 5} {w = wrapper 3 Category.pre_output} (λ n. codes "404") none reading
      (refl, refl, (wrapper 4 Category.input_output, refl), refl)
