-- ===== src/Publications.antt =====
-- `PublicationLedger` of src/leftovers/state.py: output caps for each window and a cooldown for
-- each repository. The table `publication_slots` is the list of its rows. The columns of times
-- hold `isoformat()` of UTC datetimes, whose texts SQLite orders as the instants are ordered (a
-- text without microseconds has `+` where a longer one has `.`, and `+` is the lesser byte).
pub mod Caps
pub mod Cooldown
use leftovers.Base.{
  ltb, leb, if◌then◌else◌, any, ℕ, suc, ◌+◌, ◌-◌, ◌*◌, String, Bool, not, ◌&&◌, ◌||◌, Option, none,
  some, List, [], ◌∷◌, ◌++◌,
}
use leftovers.Base.Int.{ℤ, pos, pos_part, neg_part, leb_ℤ}
use leftovers.Base.Text.{str_eq}
use leftovers.Base.Result.{Result, ok, err, ◌>>=◌, ◌>>◌, raise_if}
use leftovers.Models.{Instant}
use leftovers.Config.{PublicationConfig}
use leftovers.Budget.Error.{WindowKey}
use leftovers.Budget.Zone.{day_us}
use leftovers.Budget.Ledger.{key_eq}

pub record Slot : Type 0 where
  pub run_id : String
  pub window_key : WindowKey
  pub repository : String
  pub issue_number : ℤ
  pub status : String
  pub created_at : Instant
  pub pr_url : Option String

-- The messages of `StatePolicyError`.
pub data StatePolicyError : Type 0 where
  cap_exhausted : StatePolicyError
  in_cooldown : String → StatePolicyError

abbrev pub is_held : Slot → Bool
is_held slot = not (str_eq slot.status "released")

-- `SELECT COUNT(*) ... WHERE window_key = ? AND status != 'released'`.
unfoldable pub count_held : WindowKey → List Slot → ℕ
count_held key [] = 0
count_held key (slot ∷ slots) =
    let rest = count_held key slots in
    if key_eq slot.window_key key && is_held slot then suc rest else rest

-- `now - timedelta(days=days)`.
abbrev pub days_before : Instant → ℤ → ℕ
days_before now days = now + day_us * neg_part days - day_us * pos_part days

-- `created_at BETWEEN cutoff AND now`, and `created_at > now`.
abbrev pub is_recent : ℕ → Instant → String → Slot → Bool
is_recent cutoff now repository slot =
    str_eq slot.repository repository
    && (leb cutoff slot.created_at && leb slot.created_at now)
    && is_held slot

abbrev pub is_future : Instant → String → Slot → Bool
is_future now repository slot =
    str_eq slot.repository repository && ltb now slot.created_at && is_held slot

unfoldable pub assert_available :
    List Slot
    → WindowKey
    → String
    → PublicationConfig
    → Instant
    → Result StatePolicyError (Unit {0})
assert_available slots window_key repository config now = do
  raise_if (leb_ℤ config.max_prs_per_window (pos (count_held window_key slots))) cap_exhausted
  raise_if
      (any (is_recent (days_before now config.repository_cooldown_days) now repository) slots
        || any (is_future now repository) slots)
      (in_cooldown repository)

-- `utc_now()` is the argument `now`.
unfoldable pub check_available :
    WindowKey
    → String
    → PublicationConfig
    → Instant
    → List Slot
    → Result StatePolicyError (Unit {0}) × List Slot
unfolding assert_available
check_available window_key repository config now slots =
    (assert_available slots window_key repository config now, slots)

abbrev pub has_run : String → List Slot → Bool
has_run run_id = any (λ (slot : Slot). str_eq slot.run_id run_id)

abbrev pub new_slot : String → WindowKey → String → ℤ → Instant → Slot
new_slot run_id key repository issue_number now = record {
  run_id = run_id;
  window_key = key;
  repository = repository;
  issue_number = issue_number;
  status = "reserved";
  created_at = now;
  pr_url = none;
}

-- The rest of `reserve` after the check: the exception rolls back, and otherwise the row is there.
abbrev commit :
    Result StatePolicyError (Unit {0})
    → Slot
    → List Slot
    → Result StatePolicyError (Unit {0}) × List Slot
commit (err e) slot slots = (err e, slots)
commit (ok _) slot slots = (ok tt, slots ++ slot ∷ [])

unfoldable pub reserve :
    String
    → WindowKey
    → String
    → ℤ
    → PublicationConfig
    → Instant
    → List Slot
    → Result StatePolicyError (Unit {0}) × List Slot
unfolding assert_available
reserve run_id window_key repository issue_number config now slots =
    if has_run run_id slots
    then (ok tt, slots)
    else commit (assert_available slots window_key repository config now)
        (new_slot run_id window_key repository issue_number now) slots

-- `UPDATE publication_slots SET status = 'published', pr_url = ? WHERE run_id = ?`.
unfoldable pub finish : String → String → List Slot → List Slot
finish run_id pr_url [] = []
finish run_id pr_url (slot ∷ slots) =
    (if str_eq slot.run_id run_id
      then record slot { status = "published"; pr_url = some pr_url }
      else slot)
    ∷ finish run_id pr_url slots
