-- ===== src/Runner/Containers.antt =====
-- The removal of containers by src/leftovers/runner.py: `_containers_for_job`, `_container_labels`,
-- `_remove_container`, `cleanup_job` and `reap_expired_containers`.
pub mod Laws
pub mod Sweep
pub mod Owned
pub mod Expired
use leftovers.Config.Ref.{is_ascii_alnum}
use leftovers.Base.{
  leb, if◌then◌else◌, all, String, Bool, true, false, not, ◌&&◌, Option, none, some, List, [], ◌∷◌,
}
use leftovers.Base.Text.{str_eq, codes, str_len, is_blank}
use leftovers.Base.Result.{◌>>◌}
use leftovers.Models.Payload.{Json, text, arr, obj, cons, Fields, end, field, get}

abbrev pub Labels : Type 0
Labels = List (String × String)

-- What was asked and done: a container's labels were read, a container was removed.
pub data Event : Type 0 where
  inspected : String → Labels → Event
  removed : String → Event

pub record State (W : Type 0) : Type 0 where
  pub world : W
  pub trace : List Event

abbrev pub Act : Type 0 → Type 0 → Type 0
Act W A = State W → A × State W

-- The container runtime: the lines that it lists for a job and for all managed containers, what it
-- shows of one, and whether a removal succeeded. Nothing stands for a call that fails or times out,
-- and for an answer that is too long or no JSON.
pub record Runtime (W : Type 0) : Type 0 where
  pub available : Bool
  pub list_job : String → W → Option (List String) × W
  pub list_all : W → Option (List String) × W
  pub inspect : String → W → Option Json × W
  pub remove : String → W → Bool × W

module _ {W : Type 0} where
  unfoldable pub pure : {A : Type 0} → A → Act W A
  pure a s = (a, s)

  infixl 10 ◌>>=◌
  unfoldable pub ◌>>=◌ : {A B : Type 0} → Act W A → (A → Act W B) → Act W B
  ◌>>=◌ m f s = let (a, t) = m s in f a t

  unfoldable pub call : {A : Type 0} → (W → A × W) → Act W A
  call f s = let (a, w) = f s.world in (a, record s { world = w })

  unfoldable pub note : Event → Act W (Unit {0})
  note event s = (tt, record s { trace = event ∷ s.trace })

-- `labels.get(key, "")`: a missing label reads as "".
abbrev pub label : String → Labels → String
label key [] = ""
label key ((name, v) ∷ rest) = if str_eq name key then v else label key rest

abbrev pub label_texts : Fields → Option Labels
label_texts end = some []
label_texts (field name (text s) rest) = elim (label_texts rest) [
  | none ↦ none
  | some labels ↦ some ((name, s) ∷ labels)
]
label_texts (field name v rest) = none

-- `payload[0]["Config"]["Labels"]`, a dictionary of texts.
abbrev pub object_labels : Option Json → Option Labels
object_labels (some (obj fields)) = label_texts fields
object_labels _ = none

abbrev pub config_labels : Option Json → Option Labels
config_labels (some config) = object_labels (get "Labels" config)
config_labels none = none

abbrev pub shown_labels : Option Json → Option Labels
shown_labels (some (arr (cons first rest))) = config_labels (get "Config" first)
shown_labels _ = none

abbrev pub is_identifier : String → Bool
is_identifier s = not (is_blank s) && all is_ascii_alnum (codes s) && leb (str_len s) 128

-- The identifiers of a listing, nothing if one of them is none.
abbrev pub checked_identifiers : Option (List String) → Option (List String)
checked_identifiers none = none
checked_identifiers (some ids) = if all is_identifier ids then some ids else none

abbrev pub owns : String → Labels → Bool
owns run_id labels =
    str_eq (label "io.leftovers.managed" labels) "true"
    && str_eq (label "io.leftovers.job" labels) run_id

module _ {W : Type 0} (runtime : Runtime W) where
  unfoldable pub containers_for_job : String → Act W (Option (List String))
  containers_for_job run_id = do
    listed ← if runtime.available then call (runtime.list_job run_id) else pure none
    pure (checked_identifiers listed)

  abbrev pub note_labels : String → Option Labels → Act W (Option Labels)
  note_labels id none = pure none
  note_labels id (some labels) = do done ← note (inspected id labels); pure (some labels)

  unfoldable pub container_labels : String → Act W (Option Labels)
  container_labels id = do shown ← call (runtime.inspect id); note_labels id (shown_labels shown)

  abbrev pub add_if : Bool → String → Option (List String) → Option (List String)
  add_if test id none = none
  add_if test id (some ids) = some (if test then id ∷ ids else ids)

  abbrev pub choose :
      String
      → String
      → String
      → Act W (Option (List String))
      → Option Labels
      → Act W (Option (List String))
  choose run_id stage id more none = pure none
  choose run_id stage id more (some labels) =
      if owns run_id labels
      then (more >>= λ rest.
          pure (add_if (str_eq (label "io.leftovers.stage" labels) stage) id rest))
      else pure none

  -- The containers of the stage, nothing if the labels of one of the job's are not what they have to be.
  unfoldable pub matching : String → String → List String → Act W (Option (List String))
  unfolding container_labels
  matching run_id stage [] = pure (some [])
  matching run_id stage (id ∷ ids) = do
    found ← container_labels id
    choose run_id stage id (matching run_id stage ids) found

  abbrev pub remove_one : String → Act W Bool
  remove_one id = do noted ← note (removed id); call (runtime.remove id)

  unfoldable pub remove_all : List String → Act W Bool
  remove_all [] = pure true
  remove_all (id ∷ ids) = do
    gone ← remove_one id
    let rest = remove_all ids
    if gone then rest else pure false

  abbrev pub judge_left : String → Act W Bool → Option Labels → Act W Bool
  judge_left stage rest none = pure false
  judge_left stage rest (some labels) =
      if str_eq (label "io.leftovers.stage" labels) stage then pure false else rest

  -- No container of the stage is left, and the labels of all can be read.
  unfoldable pub none_left : String → List String → Act W Bool
  unfolding container_labels
  none_left stage [] = pure true
  none_left stage (id ∷ ids) = do
    found ← container_labels id
    judge_left stage (none_left stage ids) found

  abbrev pub verify_gone : String → Option (List String) → Act W Bool
  verify_gone stage none = pure false
  verify_gone stage (some ids) = none_left stage ids

  abbrev pub remove_matching : String → String → Option (List String) → Act W Bool
  remove_matching run_id stage none = pure false
  remove_matching run_id stage (some ids) = do
    gone ← remove_all ids
    let rest = (do remaining ← containers_for_job run_id; verify_gone stage remaining)
    if gone then rest else pure false

  abbrev pub remove_listed : String → String → Option (List String) → Act W Bool
  remove_listed run_id stage none = pure false
  remove_listed run_id stage (some ids) = do
    chosen ← matching run_id stage ids
    remove_matching run_id stage chosen

  unfoldable pub remove_container : String → String → Act W Bool
  unfolding containers_for_job matching remove_all none_left
  remove_container run_id stage = do
    listed ← containers_for_job run_id
    remove_listed run_id stage listed
