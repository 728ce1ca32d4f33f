-- ===== src/Publisher.antt =====
-- src/leftovers/publisher.py: the approval of a patch (Approval), the text of a title (Title), the pull
-- requests that are found (Reconcile) and the publication itself (Release).
pub mod Title
pub mod Approval
pub mod Reconcile
pub mod Exec
pub mod Tools
pub mod Checks
pub mod Remote
pub mod Opening
pub mod Release
use leftovers.Base.{String, Bool}
use leftovers.Base.Result.{Result, raise_if}

-- `PublicationError` with its text, and the exceptions of Python's library.
pub data PublishError : Type 0 where
  publication_error : String → PublishError
  library_error : PublishError

abbrev pub Published : Type 0 → Type 0
Published A = Result PublishError A

abbrev pub refuse_when : Bool → String → Published (Unit {0})
refuse_when test message = raise_if test (publication_error message)
