-- ===== src/Applier/Choice.antt =====
-- About `available_destination`, file_ops.rs.
use intern.Prelude.{
  ℕ, zero, suc, ◌+◌, ◌≤◌, ◌<◌, ◌%◌, ◌^◌, Text, Option, none, some, [], ◌∷◌, ◌++◌, codes, ◌≡◌, ap,
  ◌∙◌, Bool, true, false, ◌⊎◌, inl, inr, arith, ◌==◌, if◌then◌else◌,
}
use intern.Applier.World.{Env, World, ok, ◌>>=◌, on_files, pure, FileApplier}
use intern.Applier.Transfer.{Paths}
use intern.Applier.Entry.{require, first_free, suffixes, available_destination}

-- `Path::exists` answers what is there, and looking changes nothing that is there.
pub record IsLooking (E : Env) (there : E.State → Text → Bool) : Type 0 where
  pub says : (p : Text) (s : E.State) → (E.exists p s).1 ≡ there s p
  pub still : (p q : Text) (s : E.State) → there (E.exists p s).0 q ≡ there s q

module _ {E : Env} (there : E.State → Text → Bool) (looking : IsLooking E there)
    (candidate : ℕ → Text) where
  here_or_after : (index n : ℕ) → index ≤ n → (index ≡ n) ⊎ (index + 1 ≤ n)
  here_or_after index n h = omega (arith, h)

  next_index : (index n : ℕ) → index + 1 ≤ n → n < 2 ^ 32 → (index + 1) % 2 ^ 32 ≡ index + 1
  next_index index n h k = omega (arith, h, k)

  -- The loop finds the first free candidate, if that is within reach and no number wraps before it.
  first_free_lem :
      (left index n : ℕ) (w : World E)
      → index ≤ n
      → n < left + index
      → n < 2 ^ 32
      → there w.state (candidate n) ≡ false
      → ((j : ℕ) → index ≤ j → j < n → there w.state (candidate j) ≡ true)
      → (first_free candidate left index w).1 ≡ ok (candidate n)
  unfolding first_free ◌>>=◌ on_files pure
  first_free_lem zero index n w from reach small free taken = absurd (omega (arith, from, reach))
  first_free_lem (suc left) index n w from reach small free taken =
      elim (here_or_after index n from) [
        | inl same ↦
            rw
              (looking.says (candidate index) w.state
                ∙ (ap (λ i. there w.state (candidate i)) same ∙ free))
              (ap (λ i. ok (candidate i)) same)
        | inr later ↦
            rw
              (
                looking.says (candidate index) w.state
                    ∙ taken index (omega arith) (omega (arith, later)),
                next_index index n later small,
              )
              (first_free_lem left (index + 1) n
                (record w { state = (E.exists (candidate index) w.state).0 }) later
                (omega (arith, reach)) small
                (looking.still (candidate index) (candidate n) w.state ∙ free)
                (λ j l k.
                  looking.still (candidate index) (candidate j) w.state
                  ∙ taken j (omega (arith, l)) k))
      ]

-- `name`, `stem (2).extension`, `stem (3).extension` and so on, in the folder
abbrev pub numbered_path : Paths → Text → Text → Text → Option Text → ℕ → Text
numbered_path paths parent name stem extension n = paths.join parent (
    if n == 1
    then name
    else (stem ++ (codes " (" ++ (paths.decimal n ++ codes ")")))
      ++ elim extension [ none ↦ [] | some value ↦ b'.' ∷ value ])

-- For a path with a parent and a name, and a file system where `Path::exists` answers what is there
-- and changes nothing that is there: if a number below 2^32 is free and every number from 1 to it is
-- taken, where the first is the name itself and each other one the name with its number,
-- `available_destination` ends, and answers with the path of that number.
pub available_destination_lem :
    (E : Env) (there : E.State → Text → Bool) (looking : IsLooking E there) (paths : Paths)
    (fa : FileApplier) (requested parent stem name : Text) (w : World E) (n : ℕ)
    → paths.parent requested ≡ some parent
    → paths.file_stem_text requested ≡ some stem
    → paths.file_name requested ≡ some name
    → 1 ≤ n
    → n < 2 ^ 32
    → there w.state (numbered_path paths parent name stem (paths.extension_text requested) n)
      ≡ false
    → ((j : ℕ)
        → 1 ≤ j
        → j < n
        → there w.state (numbered_path paths parent name stem (paths.extension_text requested) j)
          ≡ true)
    → (available_destination paths fa requested w).1
      ≡ ok (numbered_path paths parent name stem (paths.extension_text requested) n)
unfolding available_destination require suffixes ◌>>=◌ pure
available_destination_lem E there looking paths fa requested parent stem name w n p q r from small
      free taken =
    rw p (
      rw q (
        rw r (
          first_free_lem there looking
            (numbered_path paths parent name stem (paths.extension_text requested)) (2 ^ 32) 1 n w
            from (omega (arith, small)) small free taken)))
