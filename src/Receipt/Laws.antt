-- ===== src/Receipt/Laws.antt =====
-- The database spellings lose nothing, and how a journal can advance.
use intern.Prelude.{
  ℕ, ◌+◌, ◌≤◌, String, ◌≡◌, ◌↔◌, refl, ap, ◌∙◌, true, false, some, arith, ◌⊎◌, eq_iff,
}
use intern.Receipt.Defs.{
  OperationKind, rename, OperationDirection, apply, OperationStage, planned, copied, verified,
  published, rollback_required, rolled_back, complete, kind_as_db, kind_from_db, direction_as_db,
  direction_from_db, stage_as_db, stage_from_db, is_stage, can_advance_to, is_open,
}

kind_from_db-as_db : (k : OperationKind) → kind_from_db (kind_as_db k) ≡ some k
unfolding kind_from_db kind_as_db
kind_from_db-as_db rename = refl
kind_from_db-as_db _ = refl

kind_as_db_of_from_db :
    (t : String) (k : OperationKind) → kind_from_db t ≡ some k → t ≡ kind_as_db k
unfolding kind_from_db kind_as_db
kind_as_db_of_from_db t k h = ground (arith, eq_iff t "rename", eq_iff t "verified_copy")

kind_from_db_iff : (t : String) (k : OperationKind) → (kind_from_db t ≡ some k) ↔ (t ≡ kind_as_db k)
kind_from_db_iff t k = (kind_as_db_of_from_db t k, λ p. ap kind_from_db p ∙ kind_from_db-as_db k)

direction_from_db-as_db : (k : OperationDirection) → direction_from_db (direction_as_db k) ≡ some k
unfolding direction_from_db direction_as_db
direction_from_db-as_db apply = refl
direction_from_db-as_db _ = refl

direction_as_db_of_from_db :
    (t : String) (k : OperationDirection) → direction_from_db t ≡ some k → t ≡ direction_as_db k
unfolding direction_from_db direction_as_db
direction_as_db_of_from_db t k h = ground (arith, eq_iff t "apply", eq_iff t "undo")

direction_from_db_iff :
    (t : String) (k : OperationDirection) → (direction_from_db t ≡ some k) ↔ (t ≡ direction_as_db k)
direction_from_db_iff t k =
    (direction_as_db_of_from_db t k, λ p. ap direction_from_db p ∙ direction_from_db-as_db k)

stage_from_db-as_db : (k : OperationStage) → stage_from_db (stage_as_db k) ≡ some k
unfolding stage_from_db stage_as_db
stage_from_db-as_db planned = refl
stage_from_db-as_db _ = refl

stage_as_db_of_from_db :
    (t : String) (k : OperationStage) → stage_from_db t ≡ some k → t ≡ stage_as_db k
unfolding stage_from_db stage_as_db
stage_as_db_of_from_db t k h = ground (
  arith,
  eq_iff t "planned",
  eq_iff t "copied",
  eq_iff t "verified",
  eq_iff t "published",
  eq_iff t "rollback_required",
  eq_iff t "rolled_back",
  eq_iff t "complete",
)

stage_from_db_iff :
    (t : String) (k : OperationStage) → (stage_from_db t ≡ some k) ↔ (t ≡ stage_as_db k)
stage_from_db_iff t k =
    (stage_as_db_of_from_db t k, λ p. ap stage_from_db p ∙ stage_from_db-as_db k)

-- The database spellings of the three enumerations of a receipt are read back exactly: a text is
-- read as a kind, a direction or a stage if and only if it is what `as_db` writes for it.
pub receipt_spellings :
    (t : String)
    → ((k : OperationKind) → (kind_from_db t ≡ some k) ↔ (t ≡ kind_as_db k))
      × ((d : OperationDirection) → (direction_from_db t ≡ some d) ↔ (t ≡ direction_as_db d))
      × ((s : OperationStage) → (stage_from_db t ≡ some s) ↔ (t ≡ stage_as_db s))
receipt_spellings t = (kind_from_db_iff t, direction_from_db_iff t, stage_from_db_iff t)

-- How far an operation has come; a rollback counts as later than anything but completion.
abbrev pub rank : OperationStage → ℕ
rank planned = 0
rank copied = 1
rank verified = 2
rank published = 3
rank rollback_required = 4
rank rolled_back = 5
rank complete = 5

-- A journal only moves forward: an advance to another stage raises `rank`. From the two closed
-- stages it stays where it is, and only a published operation may become complete.
pub can_advance_to-rank :
    (a b : OperationStage)
    → can_advance_to a b ≡ true
    → ((a ≡ b) ⊎ (rank a + 1 ≤ rank b))
      × (is_open a ≡ false → a ≡ b)
      × (b ≡ complete → (a ≡ published) ⊎ (a ≡ complete))
unfolding can_advance_to
can_advance_to-rank a b h = ground arith

pub can_advance_to-open :
    (a b : OperationStage) → can_advance_to a b ≡ true → is_open b ≡ true → is_open a ≡ true
unfolding can_advance_to
can_advance_to-open a b h k = ground arith

pub is_stage_iff : (a b : OperationStage) → (is_stage a b ≡ true) ↔ (a ≡ b)
is_stage_iff a b = ground arith
