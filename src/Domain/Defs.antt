-- ===== src/Domain/Defs.antt =====
-- `QueueStatus` and its table of permitted transitions.
use intern.Prelude.{String, Bool, true, false, Option, none, some, str_eq, if◌then◌else◌}

pub data QueueStatus : Type 0 where
  queued extracting analyzing ready needs_review failed canceled applying completed : QueueStatus

pub QueueStatus-discrete : Discrete QueueStatus
QueueStatus-discrete = hlevel

unfoldable pub as_db : QueueStatus → String
as_db queued = "queued"
as_db extracting = "extracting"
as_db analyzing = "analyzing"
as_db ready = "ready"
as_db needs_review = "needs_review"
as_db failed = "failed"
as_db canceled = "canceled"
as_db applying = "applying"
as_db completed = "completed"

unfoldable pub from_db : String → Option QueueStatus
from_db s =
    if str_eq s "queued"
    then some queued
    else if str_eq s "extracting"
    then some extracting
    else if str_eq s "analyzing"
    then some analyzing
    else if str_eq s "ready"
    then some ready
    else if str_eq s "needs_review"
    then some needs_review
    else if str_eq s "failed"
    then some failed
    else if str_eq s "canceled"
    then some canceled
    else if str_eq s "applying"
    then some applying
    else if str_eq s "completed"
    then some completed
    else none

-- `self == next` on statuses
abbrev pub is_status : QueueStatus → QueueStatus → Bool
is_status queued queued = true
is_status extracting extracting = true
is_status analyzing analyzing = true
is_status ready ready = true
is_status needs_review needs_review = true
is_status failed failed = true
is_status canceled canceled = true
is_status applying applying = true
is_status completed completed = true
is_status _ _ = false

unfoldable pub can_transition_to : QueueStatus → QueueStatus → Bool
can_transition_to queued canceled = true
can_transition_to queued needs_review = true
can_transition_to extracting analyzing = true
can_transition_to extracting needs_review = true
can_transition_to extracting queued = true
can_transition_to extracting failed = true
can_transition_to extracting canceled = true
can_transition_to analyzing ready = true
can_transition_to analyzing needs_review = true
can_transition_to analyzing queued = true
can_transition_to analyzing failed = true
can_transition_to analyzing canceled = true
can_transition_to ready canceled = true
can_transition_to needs_review ready = true
can_transition_to needs_review canceled = true
can_transition_to _ _ = false

-- store.rs: the statuses of which one item at a time may be in
abbrev pub is_active : QueueStatus → Bool
is_active extracting = true
is_active analyzing = true
is_active applying = true
is_active _ = false
