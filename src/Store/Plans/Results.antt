-- ===== src/Store/Plans/Results.antt =====
-- About `create_receipt` and `update_receipt`, store.rs: what they return.
use intern.Prelude.{
  ℕ, ◌<◌, ◌≡◌, refl, Bool, true, false, Option, none, some, List, All, All-map, All-append, arith,
  ◌==◌, ==_iff, ◌∙◌,
}
use intern.Prelude.Table.{find_where}
use intern.Prelude.Table
use intern.Domain.{QueueStatus}
use intern.Domain.Error.{ErrorCode, InternResult, ok, err, database_unavailable}
use intern.Receipt.{OperationReceipt, OperationStage}
use intern.Store.Db.{Db, QueueRow, ReceiptRow, Ctx}
use intern.Store.Tx.{
  Tx, ◌>>=◌, ◌>>◌, pure, guard, require, read, resume, settle, transaction, update_sessions,
}
use intern.Store.Session.{touch_session}
use intern.Store.Journal.{insert_receipt, previous_of, create_receipt, update_receipt}
use intern.Store.Plans.{
  SamePlan, Planned, Leaves, Leaves-touch, Leaves-cas_items, Leaves-cas_receipts, Leaves-guard,
}

abbrev pub Given : {A : Type 0} → (A → Db → Type 0) → Db × InternResult A → Type 0
Given Q (db, ok a) = Q a db
Given Q (db, err e) = Unit {0}

-- from `P`, a result satisfies `Q`
pub record Gives {A : Type 0} (P : Db → Type 0) (m : Tx A) (Q : A → Db → Type 0) : Type 0 where
  pub at : (db : Db) → P db → Given Q (m db)

module _ {A B : Type 0} (P : Db → Type 0) (Q : A → Db → Type 0) (R : B → Db → Type 0) where
  resume-Given :
      (k : A → Tx B) (out : Db × InternResult A)
      → ((a : A) → Gives (Q a) (k a) R)
      → Given Q out
      → Given R (resume k out)
  resume-Given k (db, ok a) kk q = (kk a).at db q
  resume-Given k (db, err e) kk q = tt

  pub Gives-bind :
      (m : Tx A) (k : A → Tx B)
      → Gives P m Q
      → ((a : A) → Gives (Q a) (k a) R)
      → Gives P (m >>= k) R
  unfolding ◌>>=◌
  Gives-bind m k km kk = record { at = λ db p. resume-Given k (m db) kk (km.at db p) }

module _ {B : Type 0} (P Q : Db → Type 0) (R : B → Db → Type 0) where
  pub Gives-then :
      (m : Tx (Unit {0})) (k : Tx B) → Gives P m (λ _. Q) → Gives Q k R → Gives P (m >> k) R
  unfolding ◌>>◌
  Gives-then m k km kk = record {
    at = λ db p. resume-Given P (λ _. Q) R (λ _. k) (m db) (λ _. kk) (km.at db p);
  }

  settle-Given : (db : Db) (out : Db × InternResult B) → Given R out → Given R (settle db out)
  settle-Given db (after, ok b) r = r
  settle-Given db (after, err e) r = tt

  pub Gives-transaction : (m : Tx B) → Gives P m R → Gives P (transaction m) R
  unfolding transaction
  Gives-transaction m km = record { at = λ db p. settle-Given db (m db) (km.at db p) }

module _ (P : Db → Type 0) where
  pub Gives-guard : (b : Bool) (e : ErrorCode) → Gives P (guard b e) (λ _. P)
  unfolding guard
  Gives-guard true e = record { at = λ db v. v }
  Gives-guard false e = record { at = λ db v. tt }

  Gives-previous_of : (row : Option QueueRow) → Gives P (previous_of row) (λ _. P)
  unfolding require pure ◌>>=◌
  Gives-previous_of none = record { at = λ db v. v }
  Gives-previous_of (some r) = record { at = λ db v. read_or_not r.previous_status db v }
    where
      read_or_not :
          (s : Option QueueStatus) (db : Db)
          → P db
          → Given
              (λ _. P)
              ((require {A = QueueStatus} database_unavailable s >>= (λ t. pure (some t))) db)
      read_or_not none db v = tt
      read_or_not (some t) db v = v

module _ {B : Type 0} (r : OperationReceipt) where
  left-Given : (out : Db × InternResult B) → Planned r out.0 → Given (λ _. Planned r) out
  left-Given (db, ok b) p = p
  left-Given (db, err e) p = tt

  pub Gives-Leaves : (m : Tx B) → Leaves r m → Gives (Planned r) m (λ _. Planned r)
  Gives-Leaves m k = record { at = λ db p. left-Given (m db) (k.at db p) }

abbrev pub Like : OperationReceipt → OperationReceipt → Type 0
Like o x = (x.id ≡ o.id) × SamePlan x o

Like-found :
    (o : OperationReceipt) (k : ℕ) (db : Db) (row : Option ReceiptRow)
    → k ≡ o.id
    → Planned o db
    → find_where (λ rc. rc.id == k) db.receipts ≡ row
    → Given
        (λ x _. Like o x)
        ((require {A = ReceiptRow} database_unavailable row >>= (λ rc. pure rc.receipt)) db)
unfolding require pure ◌>>=◌
Like-found o k db none e v found = tt
Like-found o k db (some rc) e v found =
    let (same, hit) = Table.All-find _ _ db.receipts rc found v.0 in
    let at_id = (==_iff rc.id k).0 hit ∙ e in (at_id, same at_id)

-- The receipt that an update returns has the plan of its row.
pub Gives-update :
    (o : OperationReceipt) (c : Ctx) (s : OperationStage) (x : OperationReceipt)
    → x.id ≡ o.id
    → Gives (Planned o) (update_receipt c s x) (λ y _. Like o y)
unfolding update_receipt read ◌>>=◌
Gives-update o c s x e = Gives-then _ (Planned o) _ _ _ (Gives-Leaves o _ (Leaves-guard o _ _)) (
    Gives-transaction _ (Planned o) _ _ (
      Gives-then _ (Planned o) _ _ _ (Gives-Leaves o _ (Leaves-touch o c)) (
        Gives-then _ (Planned o) _ _ _ (Gives-Leaves o _ (Leaves-cas_items o _ _)) (
          Gives-then _ (Planned o) _ _ _
            (Gives-Leaves o _ (Leaves-cas_receipts o _ _ (λ rc. refl) (λ rc h. ground arith)))
            (record { at = λ db v. Like-found o x.id db _ e v refl })))))

-- Receipt ids are below the next one.
abbrev pub Numbered : Db → Type 0
Numbered db = All (λ rc. rc.id < db.next_receipt_id) db.receipts

Planned-new :
    (x : OperationReceipt) (rows : List ReceiptRow) (k : ℕ)
    → All (λ rc. rc.id < k) rows
    → All (λ rc. rc.id ≡ k → SamePlan rc.receipt x) rows
Planned-new x rows k v = All-map rows (λ rc lt e. absurd (omega (arith, lt, e))) v

Gives-insert :
    (c : Ctx) (x : OperationReceipt)
    → c.to_string_lossy x.source ≡ x.source
    → c.to_string_lossy x.destination ≡ x.destination
    → Gives Numbered (insert_receipt c x) (λ id. Planned (record x { id = id }))
unfolding insert_receipt
Gives-insert c x plain plain' = record {
  at = λ db v. (
    All-append _ db.receipts _
        (Planned-new (record x { id = db.next_receipt_id }) db.receipts db.next_receipt_id v)
        ((λ e. (plain, plain', refl, refl, refl, refl)), tt),
    omega arith,
  );
}

Gives-touched : (c : Ctx) → Gives Numbered (touch_session c) (λ _. Numbered)
unfolding touch_session update_sessions
Gives-touched c =
    Gives-bind _ (λ _. Numbered) _ _ _ (record { at = λ db v. v }) (λ n. Gives-guard Numbered _ _)

module _ (k : ℕ) (x : OperationReceipt) where
  -- the receipt of a new row
  abbrev pub IsNew : OperationReceipt → Db → Type 0
  IsNew y db =
      Planned y db
      × SamePlan y (record x { queue_item_id = k })
      × (y.temporary_path ≡ x.temporary_path)

  -- of a receipt whose paths are Unicode
  pub Gives-create :
      (c : Ctx)
      → c.to_string_lossy x.source ≡ x.source
      → c.to_string_lossy x.destination ≡ x.destination
      → Gives Numbered (create_receipt c k x) IsNew
  unfolding create_receipt read pure
  Gives-create c plain plain' = Gives-transaction _ Numbered _ _ (
      Gives-then _ Numbered _ _ _ (Gives-touched c) (
        Gives-bind _ (λ _. Numbered) _ _ _ (record { at = λ db v. v })
          λ row.
            Gives-bind _ (λ _. Numbered) _ _ _ (Gives-previous_of Numbered row)
              λ previous. Gives-then _ Numbered _ _ _ (Gives-guard Numbered _ _) (
                Gives-bind _ _ _ _ _ (Gives-insert c _ plain plain') λ id.
                  Gives-then _ (Planned (record x { id = id; queue_item_id = k })) _ _ _
                    (Gives-Leaves (record x { id = id; queue_item_id = k }) _
                      (Leaves-cas_items _ _ _))
                    (record { at = λ db v. (v, (refl, refl, refl, refl, refl, refl), refl) }))))
