-- ===== src/Receipt/Defs.antt =====
-- `OperationKind`, `OperationDirection`, `OperationStage` and `OperationReceipt`.
use intern.Prelude.{
  ℕ, Text, String, Bool, true, false, ◌||◌, Option, none, some, str_eq, if◌then◌else◌,
}

pub data OperationKind : Type 0 where
  rename verified_copy : OperationKind

pub data OperationDirection : Type 0 where
  apply undo : OperationDirection

pub data OperationStage : Type 0 where
  planned copied verified published rollback_required rolled_back complete : OperationStage

unfoldable pub kind_as_db : OperationKind → String
kind_as_db rename = "rename"
kind_as_db verified_copy = "verified_copy"

unfoldable pub kind_from_db : String → Option OperationKind
kind_from_db s =
    if str_eq s "rename"
    then some rename
    else if str_eq s "verified_copy"
    then some verified_copy
    else none

unfoldable pub direction_as_db : OperationDirection → String
direction_as_db apply = "apply"
direction_as_db undo = "undo"

unfoldable pub direction_from_db : String → Option OperationDirection
direction_from_db s =
    if str_eq s "apply" then some apply else if str_eq s "undo" then some undo else none

unfoldable pub stage_as_db : OperationStage → String
stage_as_db planned = "planned"
stage_as_db copied = "copied"
stage_as_db verified = "verified"
stage_as_db published = "published"
stage_as_db rollback_required = "rollback_required"
stage_as_db rolled_back = "rolled_back"
stage_as_db complete = "complete"

unfoldable pub stage_from_db : String → Option OperationStage
stage_from_db s =
    if str_eq s "planned"
    then some planned
    else if str_eq s "copied"
    then some copied
    else if str_eq s "verified"
    then some verified
    else if str_eq s "published"
    then some published
    else if str_eq s "rollback_required"
    then some rollback_required
    else if str_eq s "rolled_back"
    then some rolled_back
    else if str_eq s "complete"
    then some complete
    else none

-- `self == next` on stages
abbrev pub is_stage : OperationStage → OperationStage → Bool
is_stage planned planned = true
is_stage copied copied = true
is_stage verified verified = true
is_stage published published = true
is_stage rollback_required rollback_required = true
is_stage rolled_back rolled_back = true
is_stage complete complete = true
is_stage _ _ = false

advances : OperationStage → OperationStage → Bool
advances planned copied = true
advances planned published = true
advances planned rollback_required = true
advances planned rolled_back = true
advances copied verified = true
advances copied rollback_required = true
advances verified published = true
advances verified rollback_required = true
advances published complete = true
advances published rollback_required = true
advances rollback_required rolled_back = true
advances _ _ = false

unfoldable pub can_advance_to : OperationStage → OperationStage → Bool
unfolding advances
can_advance_to stage next = is_stage stage next || advances stage next

-- `stage NOT IN ('complete', 'rolled_back')`
abbrev pub is_open : OperationStage → Bool
is_open rolled_back = false
is_open complete = false
is_open _ = true

abbrev pub is_apply : OperationDirection → Bool
is_apply apply = true
is_apply undo = false

abbrev pub is_direction : OperationDirection → OperationDirection → Bool
is_direction apply apply = true
is_direction undo undo = true
is_direction _ _ = false

-- Paths are texts. The row of `operation_receipts` has `updated_at` besides.
pub record OperationReceipt : Type 0 where
  pub id : ℕ
  pub queue_item_id : ℕ
  pub direction : OperationDirection
  pub source : Text
  pub destination : Text
  pub temporary_path : Option Text
  pub pre_operation_hash : String
  pub post_operation_hash : Option String
  pub kind : OperationKind
  pub stage : OperationStage
  pub source_exists : Bool
  pub destination_exists : Bool
  pub temporary_exists : Bool
