-- ===== src/Runner/Containers/Owned.antt =====
-- What `cleanup_job` of src/leftovers/runner.py may remove.
use leftovers.Base.{String, true, false, ◌&&◌, Option, none, some, List, [], ◌∷◌}
use leftovers.Runner.Containers.{
  Labels, Event, inspected, Act, Runtime, checked_identifiers, owns, containers_for_job,
  verify_gone, remove_matching, remove_listed, remove_container,
}
use leftovers.Runner.Containers.Sweep.{
  add_stage, stages_of, remove_stages, remove_found, clean_listed, cleanup_job,
}
use leftovers.Runner.Containers.Laws.{
  IsJustified, Keeps, Keeps-bind, Keeps-pure, Keeps-call, Keeps-if, Keeps-from, Read,
  container_labels-Keeps, none_left-Keeps, IsJustified-closed, remove_all-Keeps, IsClean, Chosen,
  matching-Keeps,
}

module _ {W : Type 0} (runtime : Runtime W) (run_id : String) where
  abbrev kept :
      (id : String) (labels : Labels) (t : List Event)
      → IsClean runtime run_id t
      → IsClean runtime run_id (inspected id labels ∷ t)
  kept = IsJustified-closed runtime (owns run_id)

  listing-Keeps :
      Keeps
        (IsClean runtime run_id)
        (containers_for_job runtime run_id)
        (λ _. IsClean runtime run_id)
  unfolding containers_for_job
  listing-Keeps =
      Keeps-bind
        (Keeps-if runtime.available (λ _. Keeps-call (runtime.list_job run_id))
          (λ _. Keeps-pure none (λ t p. p)))
        (λ listed. Keeps-pure (checked_identifiers listed) (λ t p. p))

  verify_gone-Keeps :
      (stage : String) (remaining : Option (List String))
      → Keeps
          (IsClean runtime run_id)
          (verify_gone runtime stage remaining)
          (λ _. IsClean runtime run_id)
  verify_gone-Keeps stage none = Keeps-pure false (λ t p. p)
  verify_gone-Keeps stage (some ids) = none_left-Keeps runtime (owns run_id) kept stage ids

  remove_matching-Keeps :
      (stage : String) (chosen : Option (List String))
      → Keeps
          (λ t. Chosen runtime run_id chosen t × IsClean runtime run_id t)
          (remove_matching runtime run_id stage chosen)
          (λ _. IsClean runtime run_id)
  remove_matching-Keeps stage none = Keeps-pure false (λ t p. p.1)
  remove_matching-Keeps stage (some ids) =
      Keeps-bind (remove_all-Keeps runtime (owns run_id) ids) (λ gone.
        Keeps-if gone (λ _. Keeps-bind listing-Keeps (verify_gone-Keeps stage))
          (λ _. Keeps-pure false (λ t p. p)))

  remove_listed-Keeps :
      (stage : String) (listed : Option (List String))
      → Keeps
          (IsClean runtime run_id)
          (remove_listed runtime run_id stage listed)
          (λ _. IsClean runtime run_id)
  remove_listed-Keeps stage none = Keeps-pure false (λ t p. p)
  remove_listed-Keeps stage (some ids) =
      Keeps-bind (matching-Keeps runtime run_id stage ids kept) (remove_matching-Keeps stage)

  remove_container-Keeps :
      (stage : String)
      → Keeps
          (IsClean runtime run_id)
          (remove_container runtime run_id stage)
          (λ _. IsClean runtime run_id)
  unfolding remove_container
  remove_container-Keeps stage = Keeps-bind listing-Keeps (remove_listed-Keeps stage)

  add_stage-Keeps :
      (id : String) (found : Option Labels) {more : Act W (Option (List String))}
      → Keeps (IsClean runtime run_id) more (λ _. IsClean runtime run_id)
      → Keeps
          (λ t. Read runtime (owns run_id) id found t × IsClean runtime run_id t)
          (add_stage runtime run_id more found)
          (λ _. IsClean runtime run_id)
  add_stage-Keeps id none again = Keeps-pure none (λ t p. p.1)
  add_stage-Keeps id (some labels) again =
      Keeps-if (owns run_id labels && _)
        (λ _. Keeps-from (λ t p. p.1) (Keeps-bind again (λ rest. Keeps-pure _ (λ t p. p))))
        (λ _. Keeps-pure none (λ t p. p.1))

  stages_of-Keeps :
      (ids : List String)
      → Keeps (IsClean runtime run_id) (stages_of runtime run_id ids) (λ _. IsClean runtime run_id)
  unfolding stages_of
  stages_of-Keeps [] = Keeps-pure (some []) (λ t p. p)
  stages_of-Keeps (id ∷ ids) =
      Keeps-bind (container_labels-Keeps runtime (owns run_id) kept id)
        (λ found. add_stage-Keeps id found (stages_of-Keeps ids))

  remove_stages-Keeps :
      (stages : List String)
      → Keeps
          (IsClean runtime run_id)
          (remove_stages runtime run_id stages)
          (λ _. IsClean runtime run_id)
  unfolding remove_stages
  remove_stages-Keeps [] = Keeps-pure true (λ t p. p)
  remove_stages-Keeps (stage ∷ stages) =
      Keeps-bind (remove_container-Keeps stage)
        (λ gone. Keeps-if gone (λ _. remove_stages-Keeps stages) (λ _. Keeps-pure false (λ t p. p)))

  remove_found-Keeps :
      (stages : Option (List String))
      → Keeps
          (IsClean runtime run_id)
          (remove_found runtime run_id stages)
          (λ _. IsClean runtime run_id)
  remove_found-Keeps none = Keeps-pure false (λ t p. p)
  remove_found-Keeps (some stages) = remove_stages-Keeps stages

  clean_listed-Keeps :
      (listed : Option (List String))
      → Keeps
          (IsClean runtime run_id)
          (clean_listed runtime run_id listed)
          (λ _. IsClean runtime run_id)
  clean_listed-Keeps none = Keeps-pure false (λ t p. p)
  clean_listed-Keeps (some ids) = Keeps-bind (stages_of-Keeps ids) remove_found-Keeps

  cleanup_job-Keeps :
      Keeps (IsClean runtime run_id) (cleanup_job runtime run_id) (λ _. IsClean runtime run_id)
  unfolding cleanup_job
  cleanup_job-Keeps = Keeps-bind listing-Keeps clean_listed-Keeps

  -- Whatever the container runtime answers, the clean-up of a run removes no container that it has not
  -- inspected before, with labels that name it as managed and as this run's.
  pub cleanup_job-IsJustified :
      (world : W)
      → IsJustified
          (owns run_id)
          (cleanup_job runtime run_id (record { world = world; trace = [] })).1.trace
  cleanup_job-IsJustified world = cleanup_job-Keeps.holds (record { world = world; trace = [] }) tt
