-- ===== src/Prelude/Table/Laws.antt =====
-- What the statements do to counts and to properties of all rows.
use Prim.Native.Nat.{◌+◌, ◌≤◌, ◌<◌}
use mathlib.Core.Path.{◌≡◌, refl, subst}
use mathlib.Core.Bool.{Bool, true, false, not, ◌&&◌}
use mathlib.Core.Option.{some}
use mathlib.Core.Logic.{inl, inr}
use mathlib.Core.List.{List, [], ◌∷◌, ◌++◌}
use native.Mathlib.Omega.{arith}
use intern.Prelude.Tests.{if◌then◌else◌, Bool-cases}
use intern.Prelude.Lists.{All, All-map}
use intern.Prelude.Table.Defs.{count_where, exists_where, update_where, delete_where, find_where}

module _ {ℓ κ ι} {A : Type ℓ} (P : A → Type κ) (Q : A → Type ι) (p : A → Bool) where
  -- An UPDATE that turns `P` into `Q` on the rows it changes, where the others have `Q` too.
  pub All-update_to :
      (f : A → A) (rows : List A)
      → ((r : A) → p r ≡ true → P r → Q (f r))
      → ((r : A) → p r ≡ false → P r → Q r)
      → All P rows
      → All Q (update_where p f rows)
  unfolding update_where
  All-update_to f [] hit miss h = tt
  All-update_to f (r ∷ rows) hit miss h =
      (head (p r) (hit r) (miss r), All-update_to f rows hit miss h.1)
    where
      head :
          (b : Bool)
          → (b ≡ true → P r → Q (f r))
          → (b ≡ false → P r → Q r)
          → Q (if b then f r else r)
      head true yes_case no_case = yes_case refl h.0
      head false yes_case no_case = no_case refl h.0

  -- A DELETE leaves only rows that do not match.
  pub All-delete_to :
      (rows : List A)
      → ((r : A) → p r ≡ false → P r → Q r)
      → All P rows
      → All Q (delete_where p rows)
  unfolding delete_where
  All-delete_to [] miss h = tt
  All-delete_to (r ∷ rows) miss h = head (p r) (miss r) (All-delete_to rows miss h.1)
    where
      head :
          (b : Bool)
          → (b ≡ false → P r → Q r)
          → All Q (delete_where p rows)
          → All Q (if b then delete_where p rows else r ∷ delete_where p rows)
      head true keep rest = rest
      head false keep rest = (keep refl h.0, rest)

module _ {ℓ κ} {A : Type ℓ} (P : A → Type κ) (p : A → Bool) where
  pub All-update :
      (f : A → A) (rows : List A)
      → ((r : A) → p r ≡ true → P r → P (f r))
      → All P rows
      → All P (update_where p f rows)
  All-update f rows hit h = All-update_to P P p f rows hit (λ r _ k. k) h

  pub All-delete : (rows : List A) → All P rows → All P (delete_where p rows)
  All-delete rows h = All-delete_to P P p rows (λ r _ k. k) h

  -- What a SELECT finds has what all rows have, and matches.
  pub All-find :
      (rows : List A) (r : A) → find_where p rows ≡ some r → All P rows → P r × (p r ≡ true)
  unfolding find_where
  All-find [] r e h = cc
  All-find (s ∷ rows) r e h = elim (Bool-cases (p s)) [
    | inl hit ↦
        let same : s ≡ r = ground arith in (subst P same h.0, subst (λ x. p x ≡ true) same hit)
    | inr miss ↦ All-find rows r (ground arith) h.1
  ]

module _ {ℓ} {A : Type ℓ} (q p : A → Bool) (f : A → A) where
  -- An UPDATE that does not touch what `q` reads.
  pub count-update_same :
      (rows : List A)
      → ((r : A) → p r ≡ true → q (f r) ≡ q r)
      → count_where q (update_where p f rows) ≡ count_where q rows
  unfolding count_where update_where
  count-update_same [] same = refl
  count-update_same (r ∷ rows) same = ground (arith, same r, count-update_same rows same)

  -- An UPDATE after which no more rows match `q`.
  pub count-update-le :
      (rows : List A)
      → ((r : A) → p r ≡ true → q (f r) ≡ true → q r ≡ true)
      → count_where q (update_where p f rows) ≤ count_where q rows
  unfolding count_where update_where
  count-update-le [] same = omega arith
  count-update-le (r ∷ rows) same = ground (arith, same r, count-update-le rows same)

  -- At most the changed rows are new.
  pub count-update-le_add :
      (rows : List A)
      → count_where q (update_where p f rows) ≤ count_where q rows + count_where p rows
  unfolding count_where update_where
  count-update-le_add [] = omega arith
  count-update-le_add (r ∷ rows) = ground (arith, count-update-le_add rows)

  pub exists-update_same :
      (rows : List A)
      → ((r : A) → p r ≡ true → q (f r) ≡ q r)
      → exists_where q (update_where p f rows) ≡ exists_where q rows
  unfolding exists_where update_where
  exists-update_same [] same = refl
  exists-update_same (r ∷ rows) same = ground (arith, same r, exists-update_same rows same)

  pub exists-update :
      (rows : List A)
      → ((r : A) → p r ≡ true → q r ≡ true → q (f r) ≡ true)
      → exists_where q rows ≡ true
      → exists_where q (update_where p f rows) ≡ true
  unfolding exists_where update_where
  exists-update [] same h = h
  exists-update (r ∷ rows) same h = ground (arith, same r, exists-update rows same)

module _ {ℓ} {A : Type ℓ} (q p : A → Bool) where
  pub count-delete-le : (rows : List A) → count_where q (delete_where p rows) ≤ count_where q rows
  unfolding count_where delete_where
  count-delete-le [] = omega arith
  count-delete-le (r ∷ rows) = ground (arith, count-delete-le rows)

  pub count-le :
      (rows : List A)
      → ((r : A) → p r ≡ true → q r ≡ true)
      → count_where p rows ≤ count_where q rows
  unfolding count_where
  count-le [] sub = omega arith
  count-le (r ∷ rows) sub = ground (arith, sub r, count-le rows sub)

  pub exists-le :
      (rows : List A)
      → ((r : A) → p r ≡ true → q r ≡ true)
      → exists_where p rows ≡ true
      → exists_where q rows ≡ true
  unfolding exists_where
  exists-le [] sub h = h
  exists-le (r ∷ rows) sub h = ground (arith, sub r, exists-le rows sub)

  pub count-split :
      (rows : List A)
      → count_where q rows
        ≡ count_where (λ r. q r && p r) rows + count_where (λ r. q r && not (p r)) rows
  unfolding count_where
  count-split [] = refl
  count-split (r ∷ rows) = ground (arith, count-split rows)

module _ {ℓ} {A : Type ℓ} (q : A → Bool) where
  pub count-append :
      (xs ys : List A) → count_where q (xs ++ ys) ≡ count_where q xs + count_where q ys
  unfolding count_where
  count-append [] ys = omega arith
  count-append (x ∷ xs) ys = ground (arith, count-append xs ys)

  pub exists-append : (xs ys : List A) → exists_where q xs ≡ true → exists_where q (xs ++ ys) ≡ true
  unfolding exists_where
  exists-append [] ys h = cc
  exists-append (x ∷ xs) ys h = ground (arith, exists-append xs ys)

  pub exists-append_last : (xs : List A) (y : A) → q y ≡ true → exists_where q (xs ++ y ∷ []) ≡ true
  unfolding exists_where
  exists-append_last [] y h = ground arith
  exists-append_last (x ∷ xs) y h = ground (arith, exists-append_last xs y)

  pub count-eq-zero_of_not_exists :
      (rows : List A) → exists_where q rows ≡ false → count_where q rows ≡ 0
  unfolding exists_where count_where
  count-eq-zero_of_not_exists [] h = refl
  count-eq-zero_of_not_exists (r ∷ rows) h = ground (arith, count-eq-zero_of_not_exists rows)

  pub All-not_exists : (rows : List A) → exists_where q rows ≡ false → All (λ r. q r ≡ false) rows
  unfolding exists_where
  All-not_exists [] h = tt
  All-not_exists (r ∷ rows) h = (ground arith, All-not_exists rows (ground arith))

  pub count_pos_of_exists : (rows : List A) → exists_where q rows ≡ true → 0 < count_where q rows
  unfolding exists_where count_where
  count_pos_of_exists [] h = cc
  count_pos_of_exists (r ∷ rows) h = ground (arith, count_pos_of_exists rows)

  pub exists_of_count_pos : (rows : List A) → 0 < count_where q rows → exists_where q rows ≡ true
  unfolding exists_where count_where
  exists_of_count_pos [] h = absurd (omega arith)
  exists_of_count_pos (r ∷ rows) h = ground (arith, exists_of_count_pos rows)

  pub All-counted : (rows : List A) → All (λ r. q r ≡ true → 0 < count_where q rows) rows
  unfolding count_where
  All-counted [] = tt
  All-counted (r ∷ rows) =
      ((λ h. ground arith), All-map rows (λ s h k. ground (arith, h k)) (All-counted rows))
