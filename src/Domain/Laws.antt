-- ===== src/Domain/Laws.antt =====
-- The database spellings lose nothing, and no transition starts work.
use intern.Prelude.{String, ◌≡◌, ◌↔◌, refl, ◌∙◌, true, false, some, arith, eq_iff, ap}
use intern.Domain.Defs.{
  QueueStatus, queued, extracting, analyzing, ready, needs_review, failed, canceled, applying,
  completed, as_db, from_db, is_status, can_transition_to, is_active,
}

from_db-as_db : (s : QueueStatus) → from_db (as_db s) ≡ some s
unfolding from_db as_db
from_db-as_db queued = refl
from_db-as_db extracting = refl
from_db-as_db analyzing = refl
from_db-as_db ready = refl
from_db-as_db needs_review = refl
from_db-as_db failed = refl
from_db-as_db canceled = refl
from_db-as_db applying = refl
from_db-as_db completed = refl

as_db_of_from_db : (t : String) (s : QueueStatus) → from_db t ≡ some s → t ≡ as_db s
unfolding from_db as_db
as_db_of_from_db t s h = ground (
  arith,
  eq_iff t "queued",
  eq_iff t "extracting",
  eq_iff t "analyzing",
  eq_iff t "ready",
  eq_iff t "needs_review",
  eq_iff t "failed",
  eq_iff t "canceled",
  eq_iff t "applying",
  eq_iff t "completed",
)

-- `from_db` reads back exactly what `as_db` wrote: it accepts the nine spellings of the statuses,
-- each as its own status, and no other text.
pub from_db_iff : (t : String) (s : QueueStatus) → (from_db t ≡ some s) ↔ (t ≡ as_db s)
from_db_iff t s = (as_db_of_from_db t s, λ e. ap from_db e ∙ from_db-as_db s)

pub is_status_iff : (a b : QueueStatus) → (is_status a b ≡ true) ↔ (a ≡ b)
is_status_iff a b = ground arith

-- A permitted transition never takes an item that is not being worked on into a status in which
-- it is, never touches an item that is being applied or has failed, and ends in neither `applying`
-- nor `completed`.
pub can_transition_to_bounds :
    (a b : QueueStatus)
    → can_transition_to a b ≡ true
    → (is_active b ≡ true → is_active a ≡ true)
      × (is_status a applying ≡ false)
      × (is_status a failed ≡ false)
      × (is_status b applying ≡ false)
      × (is_status b completed ≡ false)
unfolding can_transition_to
can_transition_to_bounds a b h = ground arith
