-- ===== src/Tests/Queries.antt =====
-- The queries at concrete inputs: a document that was renamed and filed.
use mathlib.Core.List.{Mem}
use intern.Prelude.{
  Text, Option, ◌<◌, ltb, ◌||◌, ◌≡◌, refl, ◌≤◌, ◌⊎◌, Bool, true, false, ◌&&◌, not, none, some, List,
  ◌∷◌, [], map, All, ◌==◌, length,
}
use intern.Prelude.Table.{count_where, exists_where, limit_to, IsOrdered}
use intern.Domain.Error.{ok}
use intern.Receipt.{is_open}
use intern.Store.Db.{Db, QueueRow, ReceiptRow}
use intern.Store.Tx.{item_of}
use intern.Store.Queries.{
  find_completed_duplicate, find_newest_by_source_path, list, min, list_operation_history,
}
use intern.Store.Runs.{Op, run, step}
use intern.Store.Invariant.Defs.{Inv}
use intern.Store.Invariant.Reachable.{Reach-Inv}
use intern.Store.Behaviour.Queries.{filed_entry, list_lem, list_operation_history_lem}
use intern.Store.Behaviour.Lookup.{
  is_filed_copy, IsFiledName, has_one_key, find_completed_duplicate_lem,
  find_newest_by_source_path_lem,
}
use intern.Tests.Store.{anna, scan, memo}
use intern.Tests.Epoch.{applied, applied-Reach, epochs}

-- the rename is complete, and so is the item
abbrev filed : Db
filed = run anna (Op.complete_apply 1 1) applied

filed-Inv : Inv filed
filed-Inv = Reach-Inv (step applied-Reach anna (Op.complete_apply 1 1))

-- The same content at another path is a duplicate, filed under the new name.
filed_before :
    (find_completed_duplicate (λ t. some t) "s1" memo filed).1
    ≡ ok (some record { queue_item_id = 1; source_path = scan; filed_as = some memo })
unfolding epochs find_completed_duplicate
filed_before = refl

find_completed_duplicate_lem_example :
    ((find_completed_duplicate (λ t. some t) "s1" memo filed ≡ (filed, ok none))
      × (exists_where (is_filed_copy "s1" memo) filed.items ≡ false))
    ⊎ ((r : QueueRow) × (name : Option Text) × Mem r filed.items
        × (is_filed_copy "s1" memo r ≡ true)
        × All
            (λ s.
              is_filed_copy "s1" memo s ≡ true
              → (s.updated_at < r.updated_at) ⊎ ((s.updated_at ≡ r.updated_at) × (s.id ≤ r.id)))
            filed.items
        × IsFiledName (λ t. some t) filed r.id name
        × (find_completed_duplicate (λ t. some t) "s1" memo filed ≡ (
          filed,
          ok (some record { queue_item_id = r.id; source_path = r.source_path; filed_as = name }),
        )))
find_completed_duplicate_lem_example = find_completed_duplicate_lem (λ t. some t) "s1" memo filed

find_newest_by_source_path_lem_example :
    ((find_newest_by_source_path anna (memo ∷ scan ∷ []) filed ≡ (filed, ok none))
      × (exists_where (has_one_key anna (memo ∷ scan ∷ [])) filed.items ≡ false))
    ⊎ ((r : QueueRow) × Mem r filed.items
        × (has_one_key anna (memo ∷ scan ∷ []) r ≡ true)
        × All (λ s. has_one_key anna (memo ∷ scan ∷ []) s ≡ true → s.id ≤ r.id) filed.items
        × (find_newest_by_source_path anna (memo ∷ scan ∷ []) filed
            ≡ (filed, ok (some (item_of r)))))
find_newest_by_source_path_lem_example =
    find_newest_by_source_path_lem anna (memo ∷ scan ∷ []) filed filed-Inv

list_lem_example :
    (rows : List QueueRow) × (list filed ≡ (filed, ok (map item_of rows)))
    × IsOrdered (λ a b. ltb a.id b.id) rows
    × ((q : QueueRow → Bool) → count_where q rows ≡ count_where q filed.items)
list_lem_example = list_lem filed filed-Inv

list_operation_history_lem_example :
    (rows : List ReceiptRow) × (list_operation_history 10 filed
      ≡ (filed, ok (map filed_entry (limit_to (min 10 500) rows))))
    × (length (limit_to (min 10 500) rows) ≤ 10)
    × (length (limit_to (min 10 500) rows) ≤ 500)
    × IsOrdered
        (λ a b. ltb b.updated_at a.updated_at || (a.updated_at == b.updated_at && ltb b.id a.id))
        rows
    × ((q : ReceiptRow → Bool)
        → count_where q rows
          ≡ count_where
              (λ rc.
                (not (is_open rc.stage) && exists_where (λ r. r.id == rc.queue_item_id) filed.items)
                && q rc)
              filed.receipts)
list_operation_history_lem_example = list_operation_history_lem 10 filed
