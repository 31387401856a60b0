-- ===== src/Prelude/Table/Unique.antt =====
-- What a row that is found, or is the only one of its kind, says of the table.
use Prim.Native.Nat.{◌≤◌, ◌<◌}
use mathlib.Core.Path.{◌≡◌, refl}
use mathlib.Core.Bool.{Bool, true, false, not, ◌&&◌}
use mathlib.Core.Option.{none, some}
use mathlib.Core.Logic.{inl, inr}
use mathlib.Core.List.{List, [], ◌∷◌}
use native.Mathlib.Omega.{arith}
use intern.Prelude.Tests.{if◌then◌else◌, Bool-cases}
use intern.Prelude.Lists.{All, All-map, All-zip}
use intern.Prelude.Table.Defs.{count_where, exists_where, update_where, delete_where, find_where}
use intern.Prelude.Table.Laws.{count-split, count_pos_of_exists, All-counted}

module _ {ℓ} {A : Type ℓ} (q p : A → Bool) where
  -- Where `q` holds of one row at most, a row with `q` and without `p` leaves none with both.
  pub unique_exclusive :
      (rows : List A)
      → count_where q rows ≤ 1
      → 0 < count_where (λ r. q r && not (p r)) rows
      → exists_where (λ r. q r && p r) rows ≡ false
  unique_exclusive rows few mine = elim (Bool-cases (exists_where (λ r. q r && p r) rows)) [
    | inl hit ↦
        absurd (omega (arith, count-split q p rows, count_pos_of_exists (λ r. q r && p r) rows hit))
    | inr miss ↦ miss
  ]

  -- Where `q` holds of one row at most and some row has `q` and `p`, every row with `q` has `p`.
  pub unique-All :
      (rows : List A)
      → count_where q rows ≤ 1
      → exists_where (λ r. q r && p r) rows ≡ true
      → All (λ r. q r ≡ true → p r ≡ true) rows
  unique-All rows few found =
      All-map rows (λ r mine h. ground (arith, mine, lone))
        (All-counted (λ r. q r && not (p r)) rows)
    where
      lone : 0 < count_where (λ r. q r && not (p r)) rows → ⊥
      lone more = cc (unique_exclusive rows few more)

  pub exists-delete :
      (rows : List A)
      → ((r : A) → q r ≡ true → p r ≡ false)
      → exists_where q rows ≡ true
      → exists_where q (delete_where p rows) ≡ true
  unfolding exists_where delete_where
  exists-delete [] spare h = h
  exists-delete (r ∷ rows) spare h = ground (arith, spare r, exists-delete rows spare)

  pub exists_of_find :
      (rows : List A) (r : A) → find_where p rows ≡ some r → q r ≡ true → exists_where q rows ≡ true
  unfolding exists_where find_where
  exists_of_find [] r e h = cc
  exists_of_find (s ∷ rows) r e h = ground (arith, exists_of_find rows r)

module _ {ℓ} {A : Type ℓ} (q : A → Bool) where
  pub count-eq-zero_of_All : (rows : List A) → All (λ r. q r ≡ false) rows → count_where q rows ≡ 0
  unfolding count_where
  count-eq-zero_of_All [] h = refl
  count-eq-zero_of_All (r ∷ rows) h = ground (arith, count-eq-zero_of_All rows)

  pub exists-witness : (rows : List A) → exists_where q rows ≡ true → (r : A) × (q r ≡ true)
  unfolding exists_where
  exists-witness [] h = absurd (cc)
  exists-witness (r ∷ rows) h = elim (Bool-cases (q r)) [
    | inl hit ↦ (r, hit)
    | inr miss ↦ exists-witness rows (ground arith)
  ]

module _ {ℓ} {A : Type ℓ} (same : A → A → Bool) (p : A → Bool) where
  -- A row without `p` is counted among the rows without `p` that are the same as it.
  pub All-self :
      ((a : A) → same a a ≡ true)
      → (rows : List A)
      → All (λ r. p r ≡ false → 0 < count_where (λ x. same x r && not (p x)) rows) rows
  unfolding count_where
  All-self reflexive [] = tt
  All-self reflexive (r ∷ rows) = (
    λ h. ground (arith, reflexive r),
    All-map rows (λ s k h. ground (arith, k h)) (All-self reflexive rows),
  )

module _ {ℓ} {A : Type ℓ} (p : A → Bool) (f : A → A) where
  -- An UPDATE that matches nothing changes nothing.
  pub update-unmatched :
      (rows : List A) → exists_where p rows ≡ false → update_where p f rows ≡ rows
  unfolding exists_where update_where
  update-unmatched [] h = refl
  update-unmatched (r ∷ rows) h = ground (arith, update-unmatched rows)

  -- What a SELECT finds after an UPDATE that does not touch what it selects by.
  pub find-update :
      (q : A → Bool) (rows : List A)
      → ((r : A) → q (f r) ≡ q r)
      → find_where q (update_where p f rows)
        ≡ elim (find_where q rows) [ none ↦ none | some r ↦ some (if p r then f r else r) ]
  unfolding find_where update_where
  find-update q [] same = refl
  find-update q (r ∷ rows) same = ground (arith, same r, find-update q rows same)

module _ {ℓ} {A : Type ℓ} (q : A → Bool) where
  pub find_of_exists :
      (rows : List A) → exists_where q rows ≡ true → (r : A) × (find_where q rows ≡ some r)
  unfolding exists_where find_where
  find_of_exists [] h = absurd (cc)
  find_of_exists (r ∷ rows) h = elim (Bool-cases (q r)) [
    | inl hit ↦ (r, rw hit)
    | inr miss ↦ let (s, e) = find_of_exists rows (ground arith) in (s, rw miss e)
  ]

module _ {ℓ} {A : Type ℓ} (same : A → A → Bool) (reflexive : (a : A) → same a a ≡ true) where
  All-present : (rows : List A) → All (λ r. 0 < count_where (λ x. same x r) rows) rows
  unfolding count_where
  All-present [] = tt
  All-present (r ∷ rows) =
      (ground (arith, reflexive r), All-map rows (λ s k. ground (arith, k)) (All-present rows))

  -- Where rows are told apart, each row is found by what tells it apart.
  pub All-found :
      (rows : List A)
      → ((a : A) → count_where (λ x. same x a) rows ≤ 1)
      → All (λ r. find_where (λ x. same x r) rows ≡ some r) rows
  unfolding count_where find_where
  All-found [] unique = tt
  All-found (r ∷ rows) unique = (
    rw (reflexive r),
    All-map rows (λ s k. ground (arith, k.0, k.1, unique s))
        (All-zip _ _ rows (All-found rows (λ a. ground (arith, unique a))) (All-present rows)),
  )
