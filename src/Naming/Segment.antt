-- ===== src/Naming/Segment.antt =====
-- naming.rs: `sanitize_segment`. A `char` is its code point; the tables of Unicode are a parameter.
use intern.Prelude.{
  ℕ, zero, suc, ◌-◌, map, Text, Bool, true, false, not, ◌&&◌, ◌||◌, Option, none, some, List, [],
  ◌∷◌, ◌++◌, leb, ◌==◌, codes, text_eq, if◌then◌else◌,
}

-- `char::is_whitespace`, `char::is_control`
pub record Unicode : Type 0 where
  pub is_whitespace : ℕ → Bool
  pub is_control : ℕ → Bool

abbrev pub is_within : ℕ → ℕ → ℕ → Bool
is_within first last c = leb first c && leb c last

abbrev pub is_one_of : List ℕ → ℕ → Bool
is_one_of [] c = false
is_one_of (d ∷ rest) c = c == d || is_one_of rest c

unfoldable pub is_invisible_format : ℕ → Bool
is_invisible_format c =
    is_one_of (173 ∷ 1564 ∷ 1757 ∷ 1807 ∷ 2274 ∷ 6158 ∷ 65279 ∷ 69821 ∷ 69837 ∷ 917505 ∷ []) c
    || (is_within 1536 1541 c
        || (is_within 8203 8207 c
            || (is_within 8234 8238 c
                || (is_within 8288 8292 c
                    || (is_within 8294 8303 c
                        || (is_within 65529 65531 c
                            || (is_within 78896 78911 c
                                || (is_within 113824 113827 c
                                    || (is_within 119155 119162 c
                                        || is_within 917536 917631 c)))))))))

-- `'<' | '>' | ':' | '"' | '/' | '\\' | '|' | '?' | '*'`
unfoldable pub is_hostile : ℕ → Bool
is_hostile c = is_one_of (60 ∷ 62 ∷ 58 ∷ 34 ∷ 47 ∷ 92 ∷ 124 ∷ 63 ∷ 42 ∷ []) c

-- a character that is left out of a name
unfoldable pub is_dropped : Unicode → ℕ → Bool
is_dropped u c = u.is_control c || (is_invisible_format c || is_hostile c)

abbrev pub is_empty : Text → Bool
is_empty [] = true
is_empty (c ∷ t) = false

-- the space that is pending before a character, and the character
abbrev pub spaced : Bool → ℕ → Text
spaced true c = 32 ∷ c ∷ []
spaced false c = c ∷ []

-- the loop over the characters
unfoldable pub scan : Unicode → Text → Text → Bool → Text
scan u [] output pending_space = output
scan u (c ∷ rest) output pending_space = elim (u.is_whitespace c) [
  | true ↦ scan u rest output (not (is_empty output))
  | false ↦ elim (is_dropped u c) [
    | true ↦ scan u rest output pending_space
    | false ↦ scan u rest (output ++ spaced pending_space c) false
  ]
]

abbrev pub is_space_or_dot : ℕ → Bool
is_space_or_dot c = c == 32 || c == 46

abbrev pub before_end : Bool → ℕ → Text → Text
before_end p c [] = if p then [] else c ∷ []
before_end p c (d ∷ t) = c ∷ d ∷ t

-- `while output.ends_with(' ') || output.ends_with('.') { output.pop(); }`
unfoldable pub without_ending : Text → Text
without_ending [] = []
without_ending (c ∷ t) = before_end (is_space_or_dot c) c (without_ending t)

-- `value.split('.').next()`
unfoldable pub before_dot : Text → Text
before_dot [] = []
before_dot (c ∷ t) = let rest = before_dot t in if c == 46 then [] else c ∷ rest

abbrev pub before_last : (ℕ → Bool) → ℕ → Text → Text
before_last p c [] = if p c then [] else c ∷ []
before_last p c (d ∷ t) = c ∷ d ∷ t

unfoldable pub trim_end : (ℕ → Bool) → Text → Text
trim_end p [] = []
trim_end p (c ∷ t) = before_last p c (trim_end p t)

unfoldable pub trim_start : (ℕ → Bool) → Text → Text
trim_start p [] = []
trim_start p (c ∷ t) = let rest = trim_start p t in if p c then rest else c ∷ t

unfoldable pub trim : Unicode → Text → Text
trim u t = trim_end u.is_whitespace (trim_start u.is_whitespace t)

abbrev pub to_ascii_uppercase : ℕ → ℕ
to_ascii_uppercase c = if is_within 97 122 c then c - 32 else c

-- `is_reserved_number`
abbrev pub is_reserved_number : Text → Bool
is_reserved_number (c ∷ []) = is_within 49 57 c
is_reserved_number _ = false

-- a device with a number, as "COM" or "LPT" before it
abbrev pub is_numbered : Text → Text → Bool
is_numbered [] t = is_reserved_number t
is_numbered (c ∷ prefix) [] = false
is_numbered (c ∷ prefix) (d ∷ t) = c == d && is_numbered prefix t

unfoldable pub is_reserved_device_name : Unicode → Text → Bool
is_reserved_device_name u value =
    let stem = map to_ascii_uppercase (trim u (before_dot value)) in
    text_eq stem (codes "CON")
    || (text_eq stem (codes "PRN")
        || (text_eq stem (codes "AUX")
            || (text_eq stem (codes "NUL")
                || (is_numbered (codes "COM") stem || is_numbered (codes "LPT") stem))))

abbrev pub escaped : Bool → Text → Text
escaped true name = 95 ∷ name
escaped false name = name

abbrev pub named : Unicode → Text → Option Text
named u [] = none
named u (c ∷ t) = some (escaped (is_reserved_device_name u (c ∷ t)) (c ∷ t))

unfoldable pub sanitize_segment : Unicode → Text → Option Text
sanitize_segment u value = named u (without_ending (scan u value [] false))

unfoldable pub take : ℕ → Text → Text
take zero t = []
take (suc n) [] = []
take (suc n) (c ∷ t) = c ∷ take n t

unfoldable pub sanitize_folder_name : Unicode → Text → Option Text
sanitize_folder_name u value = elim (sanitize_segment u value) [
  | none ↦ none
  | some name ↦ some (take 80 name)
]
