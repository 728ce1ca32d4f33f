-- ===== src/Runner/Containers/Sweep.antt =====
-- `cleanup_job` and `reap_expired_containers` of src/leftovers/runner.py.
use Prim.Native.String.{compare}
use Prim.Native.Nat.{Ordering}
use leftovers.Base.{
  leb, ◌==◌, if◌then◌else◌, length, any, all, is_empty, ℕ, String, Bool, true, false, not, ◌&&◌,
  ◌||◌, Option, none, some, List, [], ◌∷◌,
}
use leftovers.Base.Int.{ℤ, pos, ltb_ℤ}
use leftovers.Base.Text.{str_eq, one_of, codes, is_blank}
use leftovers.Config.Ref.{is_ascii_alnum}
use leftovers.Policy.Numstat.{is_number, number_from}
use leftovers.Runner.Containers.{
  Labels, Act, Runtime, pure, ◌>>=◌, call, label, is_identifier, owns, containers_for_job,
  container_labels, remove_one, remove_container,
}
use leftovers.Base.Result.{Result, err, ok}

-- A sorted list without doubles, as `sorted` of a set is.
unfoldable pub insert_sorted : String → List String → List String
insert_sorted s [] = s ∷ []
insert_sorted s (t ∷ ts) =
    let rest = insert_sorted s ts in
    elim (compare s t) [ Ordering.lt ↦ s ∷ t ∷ ts | Ordering.eq ↦ t ∷ ts | Ordering.gt ↦ t ∷ rest ]

-- `re.fullmatch(r"[A-Za-z0-9][A-Za-z0-9_.-]{0,127}", s)`.
abbrev pub is_name_char : ℕ → Bool
is_name_char c = is_ascii_alnum c || c == b'_' || c == b'.' || c == b'-'

abbrev pub is_plain_name : List ℕ → Bool
is_plain_name [] = false
is_plain_name (c ∷ s) = is_ascii_alnum c && all is_name_char s && leb (length s) 127

-- The labels of a managed container that the sweep removes at a time: complete, and expired.
abbrev pub is_managed : Labels → Bool
is_managed labels = str_eq (label "io.leftovers.managed" labels) "true"

abbrev pub is_complete : Labels → Bool
is_complete labels =
    is_plain_name (codes (label "io.leftovers.job" labels))
    && is_plain_name (codes (label "io.leftovers.stage" labels))
    && is_number (codes (label "io.leftovers.lease_expires" labels))

abbrev pub lease : Labels → ℕ
lease labels = number_from 0 (codes (label "io.leftovers.lease_expires" labels))

module _ {W : Type 0} (runtime : Runtime W) where
  abbrev pub with_stage : String → Option (List String) → Option (List String)
  with_stage stage none = none
  with_stage stage (some stages) = some (insert_sorted stage stages)

  abbrev pub add_stage :
      String → Act W (Option (List String)) → Option Labels → Act W (Option (List String))
  add_stage run_id more none = pure none
  add_stage run_id more (some labels) =
      if owns run_id labels && not (is_blank (label "io.leftovers.stage" labels))
      then (more >>= λ rest. pure (with_stage (label "io.leftovers.stage" labels) rest))
      else pure none

  -- The stages of the job's containers, nothing if one of them is not proven to be the job's.
  unfoldable pub stages_of : String → List String → Act W (Option (List String))
  unfolding container_labels insert_sorted
  stages_of run_id [] = pure (some [])
  stages_of run_id (id ∷ ids) = do
    found ← container_labels runtime id
    add_stage run_id (stages_of run_id ids) found

  unfoldable pub remove_stages : String → List String → Act W Bool
  unfolding remove_container
  remove_stages run_id [] = pure true
  remove_stages run_id (stage ∷ stages) = do
    gone ← remove_container runtime run_id stage
    let rest = remove_stages run_id stages
    if gone then rest else pure false

  abbrev pub remove_found : String → Option (List String) → Act W Bool
  remove_found run_id none = pure false
  remove_found run_id (some stages) = remove_stages run_id stages

  abbrev pub clean_listed : String → Option (List String) → Act W Bool
  clean_listed run_id none = pure false
  clean_listed run_id (some ids) = do stages ← stages_of run_id ids; remove_found run_id stages

  unfoldable pub cleanup_job : String → Act W Bool
  unfolding containers_for_job stages_of remove_stages
  cleanup_job run_id = do listed ← containers_for_job runtime run_id; clean_listed run_id listed

  abbrev pub Swept : Type 0
  Swept = Result String (List String)

  abbrev pub keep_removed : String → Swept → Swept
  keep_removed id (err message) = err message
  keep_removed id (ok ids) = ok (id ∷ ids)

  abbrev pub sweep_expired : String → Act W Swept → Act W Swept
  sweep_expired id rest = do
    gone ← remove_one runtime id
    if gone
        then (rest >>= λ swept. pure (keep_removed id swept))
        else pure (err "could not remove expired managed container")

  abbrev pub judge : ℤ → String → Act W Swept → Option Labels → Act W Swept
  judge cutoff id rest none = pure (err "managed-container labels could not be verified")
  judge cutoff id rest (some labels) =
      if not (is_managed labels)
      then pure (err "managed-container labels could not be verified")
      else if not (is_complete labels)
      then pure (err "managed-container ownership labels are incomplete")
      else if ltb_ℤ cutoff (pos (lease labels))
      then rest
      else sweep_expired id rest

  unfoldable pub sweep : ℤ → List String → Act W Swept
  unfolding container_labels
  sweep cutoff [] = pure (ok [])
  sweep cutoff (id ∷ ids) = do
    found ← container_labels runtime id
    judge cutoff id (sweep cutoff ids) found

  -- The text does not tell a listing that raised from one that failed.
  abbrev pub confirm : List String → Option (List String) → Swept
  confirm ids none = err "expired-container cleanup could not be proven"
  confirm ids (some remaining) =
      if any (λ id. one_of id remaining) ids
      then err "expired-container cleanup could not be proven"
      else ok ids

  abbrev pub verify_swept : Swept → Act W Swept
  verify_swept (err message) = pure (err message)
  verify_swept (ok ids) =
      let again = (do remaining ← call runtime.list_all; pure (confirm ids remaining)) in
      if is_empty ids then pure (ok ids) else again

  abbrev pub sweep_listed : ℤ → Option (List String) → Act W Swept
  sweep_listed cutoff none = pure (err "could not enumerate managed containers")
  sweep_listed cutoff (some ids) =
      if all is_identifier ids
      then (sweep cutoff ids >>= verify_swept)
      else pure (err "container runtime returned an invalid identifier")

  unfoldable pub reap_expired_containers : ℤ → Act W Swept
  unfolding sweep
  reap_expired_containers cutoff = do
    listed ← if runtime.available then call runtime.list_all else pure (some [])
    sweep_listed cutoff listed
