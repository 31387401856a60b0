-- ===== src/Naming/Fit.antt =====
-- naming.rs: `fit`, which sheds detail from a name until it fits.
use intern.Prelude.{
  ℕ, ◌+◌, ◌-◌, String, Text, Option, none, some, List, [], ◌∷◌, ◌++◌, length, leb, codes,
  if◌then◌else◌,
}
use intern.Naming.Segment.{Unicode, take, trim, without_ending}

-- `PartyRelation`
pub data PartyRelation : Type 0 where
  between for_party with_party from_party to_party unrelated : PartyRelation

abbrev pub relation_word : PartyRelation → String
relation_word between = "between"
relation_word for_party = "for"
relation_word with_party = "with"
relation_word from_party = "from"
relation_word to_party = "to"
relation_word unrelated = "none"

abbrev pub max_filename_chars : ℕ
max_filename_chars = 120

abbrev pub min_stem_chars : ℕ
min_stem_chars = 4

abbrev pub single_party_relation : PartyRelation → PartyRelation
single_party_relation between = with_party
single_party_relation other = other

-- the names that a clause joins; only `between` joins two
abbrev pub joined : PartyRelation → Text → List Text → Text
joined between first (second ∷ rest) = first ++ (codes " and " ++ second)
joined relation first others = first

abbrev pub clause_of : PartyRelation → Text → Text
clause_of unrelated names = codes "- " ++ names
clause_of relation names = codes (relation_word relation) ++ (32 ∷ names)

unfoldable pub party_clause : List Text → PartyRelation → Option Text
party_clause [] relation = none
party_clause (first ∷ others) relation = some (clause_of relation (joined relation first others))

abbrev pub dated : Text → Text → Text
dated [] rest = rest
dated (c ∷ date) rest = (c ∷ date) ++ (32 ∷ rest)

abbrev pub with_clause : Text → Option Text → Text
with_clause value none = value
with_clause value (some clause) = value ++ (32 ∷ clause)

unfoldable pub stem : Unicode → Text → Text → List Text → PartyRelation → Text
stem u date document_type parties relation =
    trim u (with_clause (dated date document_type) (party_clause parties relation))

-- `parties.first().map(slice::from_ref).unwrap_or_default()`
abbrev pub first_only : List Text → List Text
first_only [] = []
first_only (first ∷ others) = first ∷ []

abbrev pub extension_part : Text → Text
extension_part [] = []
extension_part (c ∷ extension) = 46 ∷ c ∷ extension

-- `MAX_FILENAME_CHARS.saturating_sub(reserved).max(MIN_STEM_CHARS)`
unfoldable pub available : ℕ → ℕ
available reserved =
    if leb min_stem_chars (max_filename_chars - reserved)
    then max_filename_chars - reserved
    else min_stem_chars

abbrev pub or_document : Text → Text
or_document [] = codes "Document"
or_document (c ∷ t) = c ∷ t

unfoldable pub truncated : ℕ → Text → Text
truncated n t = or_document (without_ending (take n t))

-- the first of the attempts that fits, or what is left of the last one
unfoldable pub fitting : ℕ → Text → Text → Text → Text
fitting n whole one_party no_party =
    if leb (length whole) n
    then whole
    else if leb (length one_party) n
    then one_party
    else if leb (length no_party) n
    then no_party
    else truncated n no_party

unfoldable pub fit : Unicode → Text → Text → List Text → PartyRelation → Text → Text → Text
fit u date document_type parties relation suffix extension =
    fitting (available (length suffix + length (extension_part extension)))
      (stem u date document_type parties relation)
      (stem u date document_type (first_only parties) (single_party_relation relation))
      (stem u date document_type [] unrelated)
    ++ (suffix ++ extension_part extension)
