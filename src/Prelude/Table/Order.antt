-- ===== src/Prelude/Table/Order.antt =====
-- SELECT ... ORDER BY ... LIMIT 1 gives a matching row that no matching row comes before.
use mathlib.Core.Path.{◌≡◌, refl, subst}
use mathlib.Core.Bool.{Bool, true, false}
use mathlib.Core.Logic.{inl, inr}
use mathlib.Core.Option.{none, some}
use mathlib.Core.List.{List, [], ◌∷◌}
use native.Mathlib.Omega.{arith}
use intern.Prelude.Tests.{Bool-cases, Option-cases}
use intern.Prelude.Lists.{All, All-map}
use intern.Prelude.Table.Laws.{All-not_exists}
use intern.Prelude.Table.Defs.{exists_where, select_first}

-- What ORDER BY needs of its comparison.
pub record IsOrder {ℓ} {A : Type ℓ} (before : A → A → Bool) : Type ℓ where
  pub irreflexive : (a : A) → before a a ≡ false
  pub asymmetric : (a b : A) → before a b ≡ true → before b a ≡ false
  pub negatively_transitive :
      (a b c : A) → before a b ≡ false → before b c ≡ false → before a c ≡ false

module _ {ℓ} {A : Type ℓ} (before : A → A → Bool) (p : A → Bool) where
  pub select_first-matches :
      (rows : List A) (r : A) → select_first before p rows ≡ some r → p r ≡ true
  unfolding select_first
  select_first-matches [] r h = cc
  select_first-matches (s ∷ rows) r h = ground (arith, select_first-matches rows r)

  pub select_first-none :
      (rows : List A) → select_first before p rows ≡ none → exists_where p rows ≡ false
  unfolding select_first exists_where
  select_first-none [] h = refl
  select_first-none (s ∷ rows) h = ground (arith, select_first-none rows)

  pub select_first-least :
      IsOrder before
      → (rows : List A) (r : A) → select_first before p rows ≡ some r
      → All (λ s. p s ≡ true → before s r ≡ false) rows
  unfolding select_first exists_where
  select_first-least o [] r h = tt
  select_first-least o (s ∷ rows) r h = elim (Bool-cases (p s)) [
    | inr miss ↦ ((λ k. cc), select_first-least o rows r (ground arith))
    | inl hit ↦ elim (Option-cases (select_first before p rows)) [
      | inl alone ↦ (
        λ k. ground (arith, o.irreflexive s),
        All-map rows (λ u none_left k. cc) (All-not_exists p rows (select_first-none rows alone)),
      )
      | inr (t, e) ↦ (
        λ k. ground (arith, o.irreflexive s, o.asymmetric t s),
        All-map rows (λ u after k. ground (arith, after k, o.negatively_transitive u t s))
            (select_first-least o rows t e),
      )
    ]
  ]

  -- What it selects has what all rows have.
  pub All-select_first {κ} :
      (P : A → Type κ) (rows : List A) (r : A)
      → select_first before p rows ≡ some r
      → All P rows
      → P r
  unfolding select_first
  All-select_first P [] r e h = cc
  All-select_first P (s ∷ rows) r e h = elim (Bool-cases (p s)) [
    | inr miss ↦ All-select_first P rows r (ground arith) h.1
    | inl hit ↦ elim (Option-cases (select_first before p rows)) [
      | inl alone ↦ let same : s ≡ r = ground arith in subst P same h.0
      | inr (t, found) ↦ elim (Bool-cases (before t s)) [
        | inl first ↦
            let same : t ≡ r = ground arith in subst P same (All-select_first P rows t found h.1)
        | inr last ↦ let same : s ≡ r = ground arith in subst P same h.0
      ]
    ]
  ]

  pub select_first_of_exists :
      (rows : List A) → exists_where p rows ≡ true → (r : A) × (select_first before p rows ≡ some r)
  select_first_of_exists rows h = elim (Option-cases (select_first before p rows)) [
    | inr found ↦ found
    | inl missing ↦ absurd (cc (select_first-none rows missing))
  ]
