-- ===== src/Tests/Intake.antt =====
-- `enqueue` and `record_processing_failure` at concrete inputs.
use intern.Prelude.{◌+◌, Text, ◌≡◌, ◌⊎◌, refl, none, some, ◌∷◌, []}
use intern.Prelude.Table.{find_where}
use intern.Domain.{queued, failed}
use intern.Domain.Error.{invalid_data}
use intern.Store.Db.{QueueRow}
use intern.Store.Queue.{windows_path_key, enqueue, record_processing_failure}
use intern.Store.Behaviour.Swap.{row_at}
use intern.Store.Behaviour.Enqueue.{
  enqueue_spec, key_of, has_path_and_content, enqueue_lem, enqueue_again,
}
use intern.Store.Behaviour.Failure.{
  failure_spec, record_processing_failure_lem, record_processing_failure_counts,
}
use intern.Tests.Store.{anna, later, scan, waiting, waiting-Inv, busy, busy-Inv, machinery}

-- the path of the first document, written with the other separator and one at its end
abbrev scan_again : Text
scan_again = b'a' ∷ 92 ∷ b'b' ∷ 92 ∷ []

same_key : key_of (later 130) scan_again ≡ key_of anna scan
unfolding windows_path_key
same_key = refl

enqueue_lem_example :
    enqueue anna scan "s1" waiting
    ≡ enqueue_spec anna scan "s1" waiting
        (find_where (has_path_and_content (key_of anna scan) "s1") waiting.items)
enqueue_lem_example = enqueue_lem anna scan "s1" waiting waiting-Inv

enqueue_again_example : enqueue (later 130) scan_again "s2" (enqueue anna scan "s2" waiting).0 ≡ (
  record ((enqueue anna scan "s2" waiting).0) {
    next_item_id = (enqueue anna scan "s2" waiting).0.next_item_id + 1;
  },
  (enqueue anna scan "s2" waiting).1,
)
enqueue_again_example =
    enqueue_again anna (later 130) scan scan_again "s2" waiting waiting-Inv same_key

record_processing_failure_lem_example :
    record_processing_failure anna 1 invalid_data busy
    ≡ failure_spec anna 1 invalid_data busy (row_at 1 busy)
record_processing_failure_lem_example =
    record_processing_failure_lem anna 1 invalid_data busy busy-Inv

record_processing_failure_counts_example :
    (r : QueueRow) × (row_at 1 busy ≡ some r)
    × (((r.processing_failures ≡ 0) × (queued ≡ queued))
        ⊎ ((r.processing_failures ≡ 1) × (queued ≡ failed)))
    × (row_at 1 (record_processing_failure anna 1 invalid_data busy).0
        ≡ some (record r {
          status = queued;
          processing_failures = r.processing_failures + 1;
          error_code = some invalid_data;
          owner_session = none;
          lease_expires_at = none;
          updated_at = 100;
        }))
unfolding machinery record_processing_failure
record_processing_failure_counts_example =
    record_processing_failure_counts anna 1 invalid_data busy queued busy-Inv refl
