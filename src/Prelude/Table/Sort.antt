-- ===== src/Prelude/Table/Sort.antt =====
-- SELECT with many rows as its result: a condition, ORDER BY and LIMIT.
use Prim.Native.Nat.{ℕ, zero, suc, ◌≤◌}
use mathlib.Core.Path.{◌≡◌, refl, ap, ◌∙◌}
use mathlib.Core.Logic.{inl, inr}
use mathlib.Core.Bool.{Bool, false, ◌&&◌}
use mathlib.Core.List.{List, [], ◌∷◌}
use native.Mathlib.Omega.{arith}
use intern.Prelude.Tests.{if◌then◌else◌, Bool-cases}
use intern.Prelude.Lists.{All, All-map, length}
use intern.Prelude.Table.Defs.{count_where}
use intern.Prelude.Table.Order.{IsOrder}

module _ {ℓ} {A : Type ℓ} where
  unfoldable pub select_where : (A → Bool) → List A → List A
  select_where p [] = []
  select_where p (r ∷ rows) = let rest = select_where p rows in if p r then r ∷ rest else rest

  unfoldable pub insert_by : (A → A → Bool) → A → List A → List A
  insert_by before r [] = r ∷ []
  insert_by before r (s ∷ rows) =
      let rest = insert_by before r rows in if before s r then s ∷ rest else r ∷ s ∷ rows

  -- ORDER BY
  unfoldable pub order_by : (A → A → Bool) → List A → List A
  order_by before [] = []
  order_by before (r ∷ rows) = insert_by before r (order_by before rows)

  -- LIMIT
  unfoldable pub limit_to : ℕ → List A → List A
  limit_to zero rows = []
  limit_to (suc n) [] = []
  limit_to (suc n) (r ∷ rows) = r ∷ limit_to n rows

  pub length-limit_to : (n : ℕ) (rows : List A) → length (limit_to n rows) ≤ n
  unfolding limit_to
  length-limit_to zero rows = omega arith
  length-limit_to (suc n) [] = omega arith
  length-limit_to (suc n) (r ∷ rows) = omega (arith, length-limit_to n rows)

-- No row comes before an earlier one.
module _ {ℓ} {A : Type ℓ} (before : A → A → Bool) where
  unfoldable pub IsOrdered : List A → Type ℓ
  IsOrdered [] = Unit
  IsOrdered (r ∷ rows) = All (λ s. before s r ≡ false) rows × IsOrdered rows

module _ {ℓ κ} {A : Type ℓ} (before : A → A → Bool) (P : A → Type κ) where
  All-insert_by : (r : A) (rows : List A) → P r → All P rows → All P (insert_by before r rows)
  unfolding insert_by
  All-insert_by r [] h k = (h, tt)
  All-insert_by r (s ∷ rows) h k = elim (Bool-cases (before s r)) [
    | inl e ↦ rw e (k.0, All-insert_by r rows h k.1)
    | inr e ↦ rw e (h, k)
  ]

  pub All-order_by : (rows : List A) → All P rows → All P (order_by before rows)
  unfolding order_by
  All-order_by [] h = tt
  All-order_by (r ∷ rows) h = All-insert_by r (order_by before rows) h.0 (All-order_by rows h.1)

module _ {ℓ} {A : Type ℓ} (before : A → A → Bool) (o : IsOrder before) where
  insert_by-IsOrdered :
      (r : A) (rows : List A) → IsOrdered before rows → IsOrdered before (insert_by before r rows)
  unfolding insert_by IsOrdered
  insert_by-IsOrdered r [] h = (tt, tt)
  insert_by-IsOrdered r (s ∷ rows) h = elim (Bool-cases (before s r)) [
    | inl e ↦ rw e (
      All-insert_by before (λ x. before x s ≡ false) r rows (o.asymmetric s r e) h.0,
      insert_by-IsOrdered r rows h.1,
    )
    | inr e ↦ rw e ((e, All-map rows (λ x k. o.negatively_transitive x s r k e) h.0), h)
  ]

  pub order_by-IsOrdered : (rows : List A) → IsOrdered before (order_by before rows)
  unfolding order_by IsOrdered
  order_by-IsOrdered [] = tt
  order_by-IsOrdered (r ∷ rows) =
      insert_by-IsOrdered r (order_by before rows) (order_by-IsOrdered rows)

-- Each row is returned as often as it is there.
module _ {ℓ} {A : Type ℓ} (before : A → A → Bool) (q : A → Bool) where
  count-insert_by :
      (r : A) (rows : List A) → count_where q (insert_by before r rows) ≡ count_where q (r ∷ rows)
  unfolding insert_by count_where
  count-insert_by r [] = refl
  count-insert_by r (s ∷ rows) = ground (arith, count-insert_by r rows)

  pub count-order_by : (rows : List A) → count_where q (order_by before rows) ≡ count_where q rows
  unfolding order_by count_where
  count-order_by [] = refl
  count-order_by (r ∷ rows) =
      count-insert_by r (order_by before rows)
      ∙ ap (λ (n : ℕ). if q r then suc n else n) (count-order_by rows)

module _ {ℓ} {A : Type ℓ} (p q : A → Bool) where
  pub count-select_where :
      (rows : List A) → count_where q (select_where p rows) ≡ count_where (λ r. p r && q r) rows
  unfolding select_where count_where
  count-select_where [] = refl
  count-select_where (r ∷ rows) = ground (arith, count-select_where rows)
