-- ===== src/Naming/Bounds.antt =====
-- About `fit`, naming.rs: the length of a filename.
use intern.Prelude.{
  ℕ, zero, suc, ◌+◌, ◌≤◌, Text, ◌≡◌, Bool, true, false, Bool-cases, inl, inr, List, [], ◌∷◌, ◌++◌,
  length, length-append, leb, arith, if◌then◌else◌,
}
use intern.Naming.Segment.{Unicode, is_space_or_dot, before_end, without_ending, take}
use intern.Naming.Fit.{
  PartyRelation, unrelated, extension_part, available, or_document, truncated, fitting, fit, stem,
  first_only, single_party_relation,
}

length-before_end : (b : Bool) (c : ℕ) (t : Text) → length (before_end b c t) ≤ suc (length t)
length-before_end true c [] = omega arith
length-before_end false c [] = omega arith
length-before_end b c (d ∷ t) = omega arith

length-without_ending : (t : Text) → length (without_ending t) ≤ length t
unfolding without_ending
length-without_ending [] = omega arith
length-without_ending (c ∷ t) =
    omega
      (arith, length-before_end (is_space_or_dot c) c (without_ending t), length-without_ending t)

length-take : (n : ℕ) (t : Text) → length (take n t) ≤ n
unfolding take
length-take zero t = omega arith
length-take (suc n) [] = omega arith
length-take (suc n) (c ∷ t) = omega (arith, length-take n t)

length-or_document : (t : Text) (n : ℕ) → length t ≤ n → 8 ≤ n → length (or_document t) ≤ n
length-or_document [] n h k = omega (arith, k)
length-or_document (c ∷ t) n h k = h

length-truncated : (n : ℕ) (t : Text) → 8 ≤ n → length (truncated n t) ≤ n
unfolding truncated
length-truncated n t k =
    length-or_document (without_ending (take n t)) n
      (omega (arith, length-without_ending (take n t), length-take n t)) k

length-if : (x y : Text) (n : ℕ) → length y ≤ n → length (if leb (length x) n then x else y) ≤ n
length-if x y n h = elim (Bool-cases (leb (length x) n)) [
  | inl fits ↦ rw fits (ground (arith, fits))
  | inr long ↦ rw long h
]

length-fitting : (n : ℕ) (x y z : Text) → 8 ≤ n → length (fitting n x y z) ≤ n
unfolding fitting
length-fitting n x y z k =
    length-if x _ n (length-if y _ n (length-if z _ n (length-truncated n z k)))

available_lem : (r : ℕ) → r ≤ 112 → (available r + r ≡ 120) × (8 ≤ available r)
unfolding available
available_lem r h = ground (arith, h)

-- If a suffix and an extension with its dot have at most 112 characters, then the filename that `fit`
-- makes has at most 120, whatever the date, the type and the parties.
pub length-fit :
    (u : Unicode) (date document_type : Text) (parties : List Text) (relation : PartyRelation)
    (suffix extension : Text)
    → length suffix + length (extension_part extension) ≤ 112
    → length (fit u date document_type parties relation suffix extension) ≤ 120
unfolding fit
length-fit u date document_type parties relation suffix extension h =
    let (room, enough) = available_lem (length suffix + length (extension_part extension)) h in
    let short =
      length-fitting (available (length suffix + length (extension_part extension)))
        (stem u date document_type parties relation)
        (stem u date document_type (first_only parties) (single_party_relation relation))
        (stem u date document_type [] unrelated) enough in
    rw
      (
        length-append
            (fitting (available (length suffix + length (extension_part extension)))
              (stem u date document_type parties relation)
              (stem u date document_type (first_only parties) (single_party_relation relation))
              (stem u date document_type [] unrelated))
            (suffix ++ extension_part extension),
        length-append suffix (extension_part extension),
      )
      (omega (arith, room, short))
