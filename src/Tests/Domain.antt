-- ===== src/Tests/Domain.antt =====
-- Domain and Receipt at concrete inputs.
use intern.Prelude.{◌≡◌, ◌↔◌, ◌⊎◌, refl, ◌+◌, ◌≤◌, true, false, some}
use intern.Domain.{
  extracting, analyzing, needs_review, applying, completed, failed, as_db, from_db, from_db_iff,
  is_status, is_active, can_transition_to, can_transition_to_bounds,
}
use intern.Domain.Error.{duplicate, as_str, from_str, from_str_iff}
use intern.Receipt.{
  OperationKind, OperationDirection, OperationStage, kind_as_db, kind_from_db, direction_as_db,
  direction_from_db, stage_as_db, stage_from_db, receipt_spellings, published, complete, rank,
  is_open, can_advance_to, can_advance_to-rank,
}

from_db_iff_example :
    (from_db "needs_review" ≡ some needs_review) ↔ ("needs_review" ≡ as_db needs_review)
from_db_iff_example = from_db_iff "needs_review" needs_review

from_str_iff_example : (from_str "DUPLICATE" ≡ some duplicate) ↔ ("DUPLICATE" ≡ as_str duplicate)
from_str_iff_example = from_str_iff "DUPLICATE" duplicate

can_transition_to_bounds_example :
    (is_active analyzing ≡ true → is_active extracting ≡ true)
    × (is_status extracting applying ≡ false)
    × (is_status extracting failed ≡ false)
    × (is_status analyzing applying ≡ false)
    × (is_status analyzing completed ≡ false)
unfolding can_transition_to
can_transition_to_bounds_example = can_transition_to_bounds extracting analyzing refl

receipt_spellings_example :
    ((k : OperationKind) → (kind_from_db "rename" ≡ some k) ↔ ("rename" ≡ kind_as_db k))
    × ((d : OperationDirection)
        → (direction_from_db "rename" ≡ some d) ↔ ("rename" ≡ direction_as_db d))
    × ((s : OperationStage) → (stage_from_db "rename" ≡ some s) ↔ ("rename" ≡ stage_as_db s))
receipt_spellings_example = receipt_spellings "rename"

can_advance_to-rank_example :
    ((published ≡ complete) ⊎ (rank published + 1 ≤ rank complete))
    × (is_open published ≡ false → published ≡ complete)
    × (complete ≡ complete → (published ≡ published) ⊎ (published ≡ complete))
unfolding can_advance_to
can_advance_to-rank_example = can_advance_to-rank published complete refl
