-- ===== src/Prelude/Table/Select.antt =====
-- What a SELECT with a further condition finds, where its first condition holds of one row at most.
use Prim.Native.Nat.{◌≤◌}
use mathlib.Core.Path.{◌≡◌, refl}
use mathlib.Core.Logic.{inl, inr}
use mathlib.Core.Bool.{Bool, true, ◌&&◌}
use mathlib.Core.Option.{Option, none, some}
use mathlib.Core.List.{List, [], ◌∷◌, ◌++◌}
use native.Mathlib.Omega.{arith}
use intern.Prelude.Tests.{if◌then◌else◌, Bool-cases, is_some}
use intern.Prelude.Table.Defs.{count_where, exists_where, find_where}

module _ {ℓ} {A : Type ℓ} (q p : A → Bool) where
  abbrev pub narrowed : Option A → Option A
  narrowed none = none
  narrowed (some r) = if p r then some r else none

  find-none : (rows : List A) → count_where q rows ≤ 0 → find_where (λ r. q r && p r) rows ≡ none
  unfolding count_where find_where
  find-none [] h = refl
  find-none (r ∷ rows) h = ground (arith, find-none rows)

  pub find-narrowed :
      (rows : List A)
      → count_where q rows ≤ 1
      → find_where (λ r. q r && p r) rows ≡ narrowed (find_where q rows)
  unfolding count_where find_where
  find-narrowed [] h = refl
  find-narrowed (r ∷ rows) h = elim (Bool-cases (q r)) [
    | inr miss ↦ rw miss (find-narrowed rows (ground arith))
    | inl hit ↦ rw hit (elim (Bool-cases (p r)) [
      | inl both ↦ rw both
      | inr one ↦ rw one (find-none rows (ground arith))
    ])
  ]

module _ {ℓ} {A : Type ℓ} (q : A → Bool) where
  -- A row that is appended to a table without a match is the one that is found.
  pub find-append_last :
      (rows : List A) (r : A)
      → find_where q rows ≡ none
      → q r ≡ true
      → find_where q (rows ++ r ∷ []) ≡ some r
  unfolding find_where
  find-append_last [] r none_yet hit = rw hit
  find-append_last (s ∷ rows) r none_yet hit = ground (arith, find-append_last rows r)

  pub exists-eq-is_some :
      (rows : List A) (o : Option A) → find_where q rows ≡ o → exists_where q rows ≡ is_some o
  unfolding find_where exists_where
  exists-eq-is_some [] o h = ground arith
  exists-eq-is_some (r ∷ rows) o h = ground (arith, exists-eq-is_some rows o)
