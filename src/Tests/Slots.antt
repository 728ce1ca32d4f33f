-- ===== src/Tests/Slots.antt =====
-- The theorems on the publication ledger, on the slot of one pull request.
use leftovers.Base.{◌*◌, List, [], arith}
use leftovers.Base.Int.{pos, ◌≤ℤ◌}
use leftovers.Budget.Error.{daily}
use leftovers.Budget.Zone.{day_us}
use leftovers.Publications.{Slot, count_held, reserve, finish}
use leftovers.Publications.Caps.{Step, Reached, publication_cap}
use leftovers.Publications.Cooldown.{Spaced, publication_cooldown}
use leftovers.Tests.Samples.{publication}

abbrev one_slot : List Slot
one_slot = (reserve "run" (daily 9) "o/r" (pos 3) publication 820800000000 []).1

abbrev one_published : Reached publication (finish "run" "https://o/r/1" one_slot)
one_published =
    Reached.next
      (Reached.next Reached.created (Step.reserved "run" (daily 9) "o/r" (pos 3) 820800000000 []))
      (Step.published "run" "https://o/r/1" one_slot)

publication_cap_example :
    pos (count_held (daily 9) (finish "run" "https://o/r/1" one_slot)) ≤ℤ pos 1
publication_cap_example =
    publication_cap publication (finish "run" "https://o/r/1" one_slot) (daily 9) (omega arith)
      one_published

publication_cooldown_example : Spaced (day_us * 7) (finish "run" "https://o/r/1" one_slot)
publication_cooldown_example =
    publication_cooldown publication (finish "run" "https://o/r/1" one_slot) (omega arith)
      one_published
