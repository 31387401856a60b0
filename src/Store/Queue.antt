-- ===== src/Store/Queue.antt =====
-- store.rs: enqueueing, claiming, leases, transitions, retries, recovery and clearing.
use intern.Prelude.{
  ℕ, ◌+◌, Text, String, Bool, true, false, not, ◌&&◌, ◌||◌, Option, none, some, [], ◌∷◌, ◌++◌, map,
  str_eq, text_eq, ltb, leb, ◌==◌, has_text, if◌then◌else◌,
}
use intern.Prelude.Table.{count_where, exists_where, delete_where, find_where, select_first}
use intern.Domain.{
  QueueStatus, queued, extracting, ready, needs_review, failed, canceled, completed, is_status,
  is_active, can_transition_to,
}
use intern.Domain.Error.{ErrorCode, ok, state_conflict, invalid_transition, is_duplicate}
use intern.Store.Db.{Db, QueueRow, QueueItem, Ctx, lease_deadline}
use intern.Store.Tx.{
  Tx, ◌>>=◌, ◌>>◌, pure, guard, require, read, transaction, transaction_ending, Ending, commit,
  rollback, update_items, cas_items, query_one,
}
use intern.Store.Session.{touch_session, owner_gone}

-- `windows_path_key`: `/` becomes `\`, trailing `\` go, and the rest is in lower case
slashes : Text → Text
slashes = map (λ c. if c == b'/' then 92 else c)

trim_end_slashes : Text → Text
trim_end_slashes [] = []
trim_end_slashes (c ∷ s) = elim (trim_end_slashes s) [
  | [] ↦ if c == 92 then [] else c ∷ []
  | d ∷ t ↦ c ∷ d ∷ t
]

unfoldable pub windows_path_key : (Text → Text) → Text → Text
unfolding slashes trim_end_slashes
windows_path_key to_lowercase path = to_lowercase (trim_end_slashes (slashes path))

-- `source_path_key`
abbrev pub source_path_key : Ctx → Text → Text
source_path_key c path = windows_path_key c.to_lowercase (c.to_string_lossy path)

abbrev pub new_row : Ctx → ℕ → Text → String → QueueRow
new_row c id path hash = record {
  id = id;
  source_path = path;
  source_path_key = windows_path_key c.to_lowercase path;
  source_hash = hash;
  status = queued;
  processing_failures = 0;
  error_code = none;
  owner_session = none;
  lease_expires_at = none;
  previous_status = none;
  active_receipt_id = none;
  reconciliation_receipt_id = none;
  applying_epoch = 0;
  created_at = c.now;
  updated_at = c.now;
}

-- the columns of `UNIQUE(source_path_key, source_hash)`
abbrev pub has_key : Text → String → QueueRow → Bool
has_key key hash r = text_eq r.source_path_key key && str_eq r.source_hash hash

-- INSERT ... ON CONFLICT(source_path_key, source_hash) DO NOTHING: a row that conflicts is not
-- inserted, and its key of the AUTOINCREMENT sequence is used up all the same.
unfoldable pub insert_item : Ctx → Text → String → Tx (Unit {0})
insert_item c path hash db =
    if exists_where (has_key (windows_path_key c.to_lowercase path) hash) db.items
    then (record db { next_item_id = db.next_item_id + 1 }, ok tt)
    else (
      record db {
        items = db.items ++ new_row c db.next_item_id path hash ∷ [];
        next_item_id = db.next_item_id + 1;
      },
      ok tt,
    )

unfoldable pub enqueue : Ctx → Text → String → Tx QueueItem
enqueue c path hash = transaction (do
  insert_item c (c.to_string_lossy path) hash
  query_one (has_key (source_path_key c path) hash))

abbrev pub by_id : QueueRow → QueueRow → Bool
by_id r s = ltb r.id s.id

abbrev pub active_row : QueueRow → Bool
active_row r = is_active r.status

-- the SELECT of `claim_next`
unfoldable pub next_queued : Db → Option QueueRow
next_queued db =
    select_first by_id (λ r. is_status r.status queued && not (exists_where active_row db.items))
      db.items

abbrev pub claimed : Ctx → QueueRow → QueueRow
claimed c r = record r {
  status = extracting;
  error_code = none;
  owner_session = some c.session;
  lease_expires_at = some (lease_deadline c);
  updated_at = c.now;
}

-- a candidate that another session took first is given up, and the transaction with it
unfoldable pub finish_claim : Bool → ℕ → Tx (Ending (Option QueueItem))
finish_claim false id = pure (rollback none)
finish_claim true id = do item ← query_one (λ r. r.id == id); pure (commit (some item))

-- the UPDATE of `claim_next`, and what follows it; no candidate commits the heartbeat alone
unfoldable pub claim_row : Ctx → Option QueueRow → Tx (Ending (Option QueueItem))
claim_row c none = pure (commit none)
claim_row c (some row) = do
  changed ← update_items (λ _ r. r.id == row.id && is_status r.status queued) (claimed c)
  finish_claim (changed == 1) row.id

unfoldable pub claim_next : Ctx → Tx (Option QueueItem)
claim_next c = transaction_ending (do touch_session c; row ← read next_queued; claim_row c row)

abbrev pub renewed : Ctx → QueueRow → QueueRow
renewed c r = record r { lease_expires_at = some (lease_deadline c); updated_at = c.now }

-- No transaction: where the lease is not renewed, the session's heartbeat is.
unfoldable pub renew_lease : Ctx → ℕ → Tx QueueItem
renew_lease c id = do
  touch_session c
  cas_items (λ _ r. r.id == id && (has_text r.owner_session c.session && active_row r)) (renewed c)
  query_one (λ r. r.id == id)

abbrev pub transitioned : Ctx → QueueStatus → Option ErrorCode → QueueRow → QueueRow
transitioned c next error r = record r {
  status = next;
  error_code = error;
  owner_session = if is_active next then some c.session else none;
  lease_expires_at = if is_active next then some (lease_deadline c) else none;
  updated_at = c.now;
}

unfoldable pub transition : Ctx → ℕ → QueueStatus → QueueStatus → Option ErrorCode → Tx QueueItem
transition c id expected next error = do
  guard (can_transition_to expected next) invalid_transition
  transaction (do
    cas_items
        (λ _ r.
          r.id == id
          && (is_status r.status expected
              && (not (is_active expected) || has_text r.owner_session c.session)))
        (transitioned c next error)
    query_one (λ r. r.id == id))

abbrev pub released : Ctx → QueueStatus → QueueRow → QueueRow
released c next r = record r {
  status = next;
  error_code = none;
  owner_session = none;
  lease_expires_at = none;
  previous_status = none;
  active_receipt_id = none;
  reconciliation_receipt_id = none;
  updated_at = c.now;
}

-- with `processing_failures = 0`
abbrev pub requeued : Ctx → QueueStatus → QueueRow → QueueRow
requeued c next r = record (released c next r) { processing_failures = 0 }

unfoldable pub cas_status : Ctx → ℕ → QueueStatus → QueueStatus → Bool → Tx QueueItem
cas_status c id expected next reset_failures = do
  cas_items (λ _ r. r.id == id && is_status r.status expected)
      (λ r. if reset_failures then requeued c next r else released c next r)
  query_one (λ r. r.id == id)

unfoldable pub manual_retry : Ctx → ℕ → Tx QueueItem
manual_retry c id = cas_status c id failed queued true

abbrev pub flagged_duplicate : Option ErrorCode → Bool
flagged_duplicate none = false
flagged_duplicate (some e) = is_duplicate e

unfoldable pub retry_duplicate : Ctx → ℕ → Tx QueueItem
retry_duplicate c id = do
  cas_items
      (λ _ r. r.id == id && (is_status r.status needs_review && flagged_duplicate r.error_code))
      (requeued c queued)
  query_one (λ r. r.id == id)

abbrev pub is_reviewable : QueueStatus → Bool
is_reviewable ready = true
is_reviewable needs_review = true
is_reviewable _ = false

unfoldable pub complete_keep_original : Ctx → ℕ → QueueStatus → Tx QueueItem
complete_keep_original c id expected = do
  guard (is_reviewable expected) invalid_transition
  cas_status c id expected completed false

abbrev pub is_processing : QueueStatus → Bool
is_processing extracting = true
is_processing s = is_status s QueueStatus.analyzing

abbrev pub interrupted : Ctx → QueueRow → QueueRow
interrupted c r = record r {
  status = queued;
  owner_session = none;
  lease_expires_at = none;
  updated_at = c.now;
}

unfoldable pub recover_interrupted : Ctx → Tx ℕ
recover_interrupted c =
    update_items
      (λ db r. is_processing r.status && owner_gone c db r.owner_session r.lease_expires_at)
      (interrupted c)

-- DELETE FROM queue_items, with ON DELETE CASCADE on `operation_receipts.queue_item_id`
unfoldable pub delete_items : (QueueRow → Bool) → Tx ℕ
delete_items p db = (
  record db {
    items = delete_where p db.items;
    receipts =
        delete_where (λ rc. exists_where (λ r. r.id == rc.queue_item_id && p r) db.items)
          db.receipts;
  },
  ok (count_where p db.items),
)

abbrev pub is_terminal : QueueStatus → Bool
is_terminal failed = true
is_terminal canceled = true
is_terminal completed = true
is_terminal _ = false

unfoldable pub clear_terminal : Ctx → Tx ℕ
clear_terminal c = delete_items (λ r. is_terminal r.status)

unfoldable pub discard_queued : Ctx → Tx ℕ
discard_queued c = delete_items (λ r. is_status r.status queued)

abbrev pub failure_status : ℕ → QueueStatus
failure_status failures = if leb 2 failures then failed else queued

abbrev pub failure_recorded : Ctx → ℕ → ErrorCode → QueueRow → QueueRow
failure_recorded c failures error r = record r {
  status = failure_status failures;
  processing_failures = failures;
  error_code = some error;
  owner_session = none;
  lease_expires_at = none;
  updated_at = c.now;
}

unfoldable pub record_processing_failure : Ctx → ℕ → ErrorCode → Tx QueueStatus
record_processing_failure c id error = transaction (do
  row ← read (λ db.
      find_where (λ r. r.id == id && (is_processing r.status && has_text r.owner_session c.session))
        db.items)
  r ← require state_conflict row
  changed ←
      update_items (λ _ x. x.id == id && has_text x.owner_session c.session)
        (failure_recorded c (r.processing_failures + 1) error)
  pure (failure_status (r.processing_failures + 1)))
