-- ===== src/Prelude/Table/Defs.antt =====
-- The statements, on any type of row.
use Prim.Native.Nat.{ℕ, suc}
use mathlib.Core.Bool.{Bool, false, ◌||◌}
use mathlib.Core.Option.{Option, none, some}
use mathlib.Core.List.{List, [], ◌∷◌}
use intern.Prelude.Tests.{if◌then◌else◌}

module _ {ℓ} {A : Type ℓ} where
  -- SELECT COUNT(*) ... WHERE p
  unfoldable pub count_where : (A → Bool) → List A → ℕ
  count_where p [] = 0
  count_where p (r ∷ rows) = let rest = count_where p rows in if p r then suc rest else rest

  -- EXISTS (SELECT 1 ... WHERE p)
  unfoldable pub exists_where : (A → Bool) → List A → Bool
  exists_where p [] = false
  exists_where p (r ∷ rows) = p r || exists_where p rows

  -- UPDATE ... SET f WHERE p
  unfoldable pub update_where : (A → Bool) → (A → A) → List A → List A
  update_where p f [] = []
  update_where p f (r ∷ rows) = (if p r then f r else r) ∷ update_where p f rows

  -- DELETE ... WHERE p
  unfoldable pub delete_where : (A → Bool) → List A → List A
  delete_where p [] = []
  delete_where p (r ∷ rows) = let rest = delete_where p rows in if p r then rest else r ∷ rest

  -- SELECT ... WHERE p, read as one row: the first that matches
  unfoldable pub find_where : (A → Bool) → List A → Option A
  find_where p [] = none
  find_where p (r ∷ rows) = let rest = find_where p rows in if p r then some r else rest

  -- the better of a row and the best of the others
  abbrev pub best_of : (A → A → Bool) → A → Option A → Option A
  best_of before r none = some r
  best_of before r (some s) = some (if before s r then s else r)

  -- SELECT ... WHERE p ORDER BY before LIMIT 1
  unfoldable pub select_first : (A → A → Bool) → (A → Bool) → List A → Option A
  select_first before p [] = none
  select_first before p (r ∷ rows) =
      let rest = select_first before p rows in if p r then best_of before r rest else rest
