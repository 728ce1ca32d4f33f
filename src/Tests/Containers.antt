-- ===== src/Tests/Containers.antt =====
-- The theorems on the removal of containers, with a runtime that holds one container.
use leftovers.Runner.Containers.Expired.{is_removable, reap-IsJustified}
use leftovers.Policy.Numstat.{number_from}
use leftovers.Base.Result.{ok}
use leftovers.Base.Int.{pos}
use leftovers.Base.{◌==◌, if◌then◌else◌, ℕ, String, ◌≡◌, refl, true, Option, some, List, [], ◌∷◌}
use leftovers.Models.Payload.{Json, text, arr, obj, nil, cons, end, field}
use leftovers.Runner.Containers.{Runtime, pure, call, owns}
use leftovers.Runner.Containers.Sweep.{cleanup_job, reap_expired_containers}
use leftovers.Runner.Containers.Laws.{IsJustified}
use leftovers.Runner.Containers.Owned.{cleanup_job-IsJustified}

abbrev shown : Json
shown = arr (
    cons
      (obj (
        field "Config"
          (obj (
            field "Labels"
              (obj (
                field "io.leftovers.managed" (text "true") (
                  field "io.leftovers.job" (text "run") (
                    field "io.leftovers.stage" (text "review")
                      (field "io.leftovers.lease_expires" (text "50") end)))))
              end))
          end))
      nil)

-- The world is the number of containers left.
abbrev listing : ℕ → Option (List String)
listing left = if left == 0 then some [] else some ("c1" ∷ [])

abbrev runtime : Runtime ℕ
runtime = record {
  available = true;
  list_job = λ run_id w. (listing w, w);
  list_all = λ w. (listing w, w);
  inspect = λ id w. (some shown, w);
  remove = λ id w. (true, 0);
}

cleanup_job-IsJustified_example :
    IsJustified (owns "run") (cleanup_job runtime "run" (record { world = 1; trace = [] })).1.trace
cleanup_job-IsJustified_example = cleanup_job-IsJustified runtime "run" 1

reap-IsJustified_example :
    IsJustified
      (is_removable (pos 100))
      (reap_expired_containers runtime (pos 100) (record { world = 1; trace = [] })).1.trace
reap-IsJustified_example = reap-IsJustified runtime (pos 100) 1

-- The container is removed after it was inspected.
swept :
    (reap_expired_containers runtime (pos 100) (record { world = 1; trace = [] })).0
    ≡ ok ("c1" ∷ [])
unfolding reap_expired_containers leftovers.Runner.Containers.◌>>=◌ call pure number_from
swept = refl
