-- ===== src/Store/Behaviour/Swap.antt =====
-- What the compare-and-swap does: it is a test and an assignment at one item.
use intern.Prelude.{
  ℕ, ◌≤◌, ◌^◌, ◌≡◌, ap, ◌∙◌, Bool, true, false, ◌&&◌, Option, none, some, arith, Bool-cases,
  Option-cases, inl, inr, ◌==◌, ==_iff, if◌then◌else◌, lt→ltb,
}
use intern.Prelude.Table.{count_where, exists_where, update_where, find_where}
use intern.Prelude.Table
use intern.Domain.Error.{InternResult, ok, err, state_conflict}
use intern.Store.Db.{Db, QueueRow, QueueItem}
use intern.Store.Tx.{
  ◌>>=◌, ◌>>◌, guard, read, require, cas_items, update_items, query_one, item_of, row_to_item,
}
use intern.Store.Invariant.Defs.{Inv, RowOk}

-- The row of an item.
abbrev pub row_at : ℕ → Db → Option QueueRow
row_at id db = find_where (λ r. r.id == id) db.items

-- `m` is tested on the row of the item; where it holds, `f` is assigned and the new row returned.
abbrev pub swap_spec :
    ℕ
    → (Db → QueueRow → Bool)
    → (QueueRow → QueueRow)
    → Db
    → Option QueueRow
    → Db × InternResult QueueItem
swap_spec id m f db none = (db, err state_conflict)
swap_spec id m f db (some r) =
    if m db r
    then (
      record db { items = update_where (λ r. r.id == id && m db r) f db.items },
      ok (item_of (f r)),
    )
    else (db, err state_conflict)

module _ (id : ℕ) (m : Db → QueueRow → Bool) (f : QueueRow → QueueRow)
    (same_id : (r : QueueRow) → (f r).id ≡ r.id)
    (fewer : (r : QueueRow) → (f r).processing_failures ≤ r.processing_failures) (db : Db)
    (v : Inv db) where
  abbrev pub hits : QueueRow → Bool
  hits r = r.id == id && m db r

  abbrev pub swapped : Db
  swapped = record db { items = update_where hits f db.items }

  miss :
      exists_where hits db.items ≡ false
      → (cas_items (λ db r. r.id == id && m db r) f >> query_one (λ r. r.id == id)) db
        ≡ (db, err state_conflict)
  unfolding cas_items update_items guard ◌>>=◌ ◌>>◌
  miss none_hit =
      rw (Table.count-eq-zero_of_not_exists hits db.items none_hit)
        (rw (Table.update-unmatched hits f db.items none_hit))

  sound :
      (r : QueueRow)
      → row_at id db ≡ some r
      → RowOk db.sessions db.receipts r × ((r.id == id) ≡ true)
  sound r found = Table.All-find _ (λ r. r.id == id) db.items r found v.rows

  pub readable :
      (r : QueueRow)
      → row_at id db ≡ some r
      → m db r ≡ true
      → query_one (λ x. x.id == id) swapped ≡ (swapped, ok (item_of (f r)))
  unfolding query_one read require row_to_item ◌>>=◌
  readable r found hit =
      let at : find_where (λ r. r.id == id) (update_where hits f db.items) ≡ some (f r) =
        Table.find-update hits f (λ r. r.id == id) db.items
          (λ r. ap (λ (i : ℕ). i == id) (same_id r))
        ∙ rw found (ground (arith, (sound r found).1)) in
      let (h, _) = sound r found in
      rw at (
        rw (lt→ltb (f r).processing_failures (2 ^ 32) (omega (arith, fewer r, h.failures_bounded))))

  pub hit_once :
      (r : QueueRow) → row_at id db ≡ some r → m db r ≡ true → count_where hits db.items ≡ 1
  hit_once r found hit = omega (
    arith,
    v.item_ids id,
    Table.count-le (λ r. r.id == id) hits db.items (λ r h. ground arith),
    Table.count_pos_of_exists hits db.items (
        Table.exists_of_find hits (λ r. r.id == id) db.items r found
          (ground (arith, (sound r found).1))),
  )

  hit :
      (r : QueueRow)
      → row_at id db ≡ some r
      → m db r ≡ true
      → (cas_items (λ db r. r.id == id && m db r) f >> query_one (λ r. r.id == id)) db
        ≡ (swapped, ok (item_of (f r)))
  unfolding cas_items update_items guard ◌>>=◌ ◌>>◌
  hit r found e = rw (hit_once r found e) (readable r found e)

  -- A row found without `m` means that no row of the item has it.
  unhit :
      (r : QueueRow) → row_at id db ≡ some r → m db r ≡ false → exists_where hits db.items ≡ false
  unhit r found e = elim (Bool-cases (exists_where hits db.items)) [
    | inr none_hit ↦ none_hit
    | inl some_hit ↦
        let (has, mine) =
          Table.All-find _ (λ r. r.id == id) db.items r found
            (Table.unique-All (λ r. r.id == id) (m db) db.items (v.item_ids id) some_hit) in
        cc (has mine)
  ]

  absent : row_at id db ≡ none → exists_where hits db.items ≡ false
  absent e = elim (Bool-cases (exists_where hits db.items)) [
    | inr none_hit ↦ none_hit
    | inl some_hit ↦
        let (r, found) =
          Table.find_of_exists (λ r. r.id == id) db.items
            (Table.exists-le (λ r. r.id == id) hits db.items (λ r h. ground arith) some_hit) in
        cc
  ]

  -- The compare-and-swap is the test and assignment at the row of the item.
  pub swap_lem :
      (cas_items (λ db r. r.id == id && m db r) f >> query_one (λ r. r.id == id)) db
      ≡ swap_spec id m f db (row_at id db)
  swap_lem = elim (Option-cases (row_at id db)) [
    | inl nowhere ↦ rw nowhere (miss (absent nowhere))
    | inr (r, found) ↦ rw found (elim (Bool-cases (m db r)) [
      | inl e ↦ rw e (hit r found e)
      | inr e ↦ rw e (miss (unhit r found e))
    ])
  ]

  looked_up :
      (j : ℕ)
      → row_at j (record db { items = update_where hits f db.items })
        ≡ elim (row_at j db) [ none ↦ none | some x ↦ some (if hits x then f x else x) ]
  looked_up j =
      Table.find-update hits f (λ r. r.id == j) db.items (λ r. ap (λ (i : ℕ). i == j) (same_id r))

  -- After it the item has the new row if the test held, and every other item has its own.
  pub row_at-swap :
      (r : QueueRow)
      → row_at id db ≡ some r
      → m db r ≡ true
      → (j : ℕ)
      → row_at j (record db { items = update_where hits f db.items })
        ≡ (if j == id then some (f r) else row_at j db)
  row_at-swap r found e j = elim (Bool-cases (j == id)) [
    | inl same ↦
        rw (same, (==_iff j id).0 same)
          (looked_up id ∙ rw found (ground (arith, (sound r found).1)))
    | inr other ↦ rw other (
        looked_up j ∙ elim (Option-cases (row_at j db)) [
          | inl nowhere ↦ rw nowhere
          | inr (x, there) ↦
              rw there
                (ground (arith, (Table.All-find _ (λ r. r.id == j) db.items x there v.rows).1))
        ])
  ]
