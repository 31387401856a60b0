-- ===== src/Naming/Clean.antt =====
-- About `sanitize_segment`, naming.rs: the characters of a name.
use intern.Prelude.{
  ℕ, Text, ◌≡◌, ◌≢◌, ◌⊎◌, ◌&&◌, ◌||◌, leb, ◌==◌, arith, refl, sym, subst, Bool, true, false, inl,
  inr, some, [], ◌∷◌, All, All-append,
}
use mathlib.Core.Option.{some_inj}
use intern.Naming.Segment.{
  Unicode, is_dropped, is_invisible_format, is_hostile, spaced, scan, is_space_or_dot, before_end,
  without_ending, escaped, named, is_reserved_device_name, sanitize_segment,
}

-- the format characters that cannot be seen: soft hyphen, joiners, marks of direction, byte order
-- mark, tags and the like, by their code points
abbrev pub is_unseen : ℕ → Bool
is_unseen c =
    (c == 173
      || (c == 1564
          || (c == 1757
              || (c == 1807
                  || (c == 2274
                      || (c == 6158
                          || (c == 65279 || (c == 69821 || (c == 69837 || c == 917505)))))))))
    || ((leb 1536 c && leb c 1541)
        || ((leb 8203 c && leb c 8207)
            || ((leb 8234 c && leb c 8238)
                || ((leb 8288 c && leb c 8292)
                    || ((leb 8294 c && leb c 8303)
                        || ((leb 65529 c && leb c 65531)
                            || ((leb 78896 c && leb c 78911)
                                || ((leb 113824 c && leb c 113827)
                                    || ((leb 119155 c && leb c 119162)
                                        || (leb 917536 c && leb c 917631))))))))))

-- `<`, `>`, `:`, the double quote, `/`, the backslash, `|`, `?` and `*`
abbrev pub is_forbidden : ℕ → Bool
is_forbidden c =
    c == 60
    || (c == 62
        || (c == 58 || (c == 34 || (c == 47 || (c == 92 || (c == 124 || (c == 63 || c == 42)))))))

-- a space, or a character that is neither white space nor left out
abbrev pub IsKept : Unicode → ℕ → Type 0
IsKept u c =
    (c ≡ 32)
    ⊎ ((u.is_whitespace c ≡ false)
        × (u.is_control c ≡ false)
        × (is_unseen c ≡ false)
        × (is_forbidden c ≡ false))

IsKept-of : (u : Unicode) (c : ℕ) → u.is_whitespace c ≡ false → is_dropped u c ≡ false → IsKept u c
unfolding is_dropped is_invisible_format is_hostile
IsKept-of u c w d = inr (w, ground arith, ground arith, ground arith)

spaced-IsKept :
    (u : Unicode) (pending : Bool) (c : ℕ)
    → u.is_whitespace c ≡ false
    → is_dropped u c ≡ false
    → All (IsKept u) (spaced pending c)
spaced-IsKept u true c w d = (inl refl, (IsKept-of u c w d, tt))
spaced-IsKept u false c w d = (IsKept-of u c w d, tt)

by_test :
    (P : Text → Type 0) (b : Bool) (x y : Text)
    → (b ≡ true → P x)
    → (b ≡ false → P y)
    → P (elim b [ true ↦ x | false ↦ y ])
by_test P true x y f g = f refl
by_test P false x y f g = g refl

scan-IsKept :
    (u : Unicode) (value output : Text) (pending : Bool)
    → All (IsKept u) output
    → All (IsKept u) (scan u value output pending)
unfolding scan
scan-IsKept u [] output pending h = h
scan-IsKept u (c ∷ rest) output pending h =
    by_test (All (IsKept u)) (u.is_whitespace c) _ _ (λ white. scan-IsKept u rest output _ h)
      λ visible.
        by_test (All (IsKept u)) (is_dropped u c) _ _
          (λ dropped. scan-IsKept u rest output pending h)
          λ there.
            scan-IsKept u rest _ false
              (All-append (IsKept u) output _ h (spaced-IsKept u pending c visible there))

-- whether the last character is a space or a dot
abbrev pub ends_badly : Text → Bool
ends_badly [] = false
ends_badly (c ∷ []) = c == 32 || c == 46
ends_badly (c ∷ d ∷ t) = ends_badly (d ∷ t)

before_end-IsKept :
    (u : Unicode) (b : Bool) (c : ℕ) (t : Text)
    → IsKept u c
    → All (IsKept u) t
    → All (IsKept u) (before_end b c t)
before_end-IsKept u true c [] k h = tt
before_end-IsKept u false c [] k h = (k, tt)
before_end-IsKept u b c (d ∷ t) k h = (k, h)

without_ending-IsKept :
    (u : Unicode) (t : Text) → All (IsKept u) t → All (IsKept u) (without_ending t)
unfolding without_ending
without_ending-IsKept u [] h = tt
without_ending-IsKept u (c ∷ t) h =
    before_end-IsKept u (is_space_or_dot c) c (without_ending t) h.0 (without_ending-IsKept u t h.1)

before_end-ends :
    (b : Bool) (c : ℕ) (t : Text)
    → b ≡ is_space_or_dot c
    → ends_badly t ≡ false
    → ends_badly (before_end b c t) ≡ false
before_end-ends true c [] e h = refl
before_end-ends false c [] e h = sym e
before_end-ends b c (d ∷ t) e h = h

without_ending-ends : (t : Text) → ends_badly (without_ending t) ≡ false
unfolding without_ending
without_ending-ends [] = refl
without_ending-ends (c ∷ t) =
    before_end-ends (is_space_or_dot c) c (without_ending t) refl (without_ending-ends t)

-- what a name is: not empty, with no trailing space or dot, of characters that are kept
abbrev pub IsName : Unicode → Text → Type 0
IsName u name = (name ≢ []) × (ends_badly name ≡ false) × All (IsKept u) name

escaped-IsName :
    (u : Unicode) (b : Bool) (c : ℕ) (t : Text)
    → IsKept u 95
    → ends_badly (c ∷ t) ≡ false
    → All (IsKept u) (c ∷ t)
    → IsName u (escaped b (c ∷ t))
escaped-IsName u true c t under e h = ((λ f. cc f), e, (under, h))
escaped-IsName u false c t under e h = ((λ f. cc f), e, h)

named-IsName :
    (u : Unicode) (t name : Text)
    → IsKept u 95
    → ends_badly t ≡ false
    → All (IsKept u) t
    → named u t ≡ some name
    → IsName u name
named-IsName u [] name under e h f = cc f
named-IsName u (c ∷ t) name under e h f =
    subst (IsName u) (some_inj.0 f)
      (escaped-IsName u (is_reserved_device_name u (c ∷ t)) c t under e h)

-- A name that `sanitize_segment` answers with is not empty, does not end in a space or a dot, and
-- has only spaces and characters that are neither white space, nor control or invisible characters,
-- nor among those that a filename of Windows must not have, where the underscore is neither white
-- space nor a control character.
pub sanitize_segment-IsName :
    (u : Unicode) (value name : Text)
    → u.is_whitespace 95 ≡ false
    → u.is_control 95 ≡ false
    → sanitize_segment u value ≡ some name
    → IsName u name
unfolding sanitize_segment is_dropped is_invisible_format is_hostile
sanitize_segment-IsName u value name w d e =
    named-IsName u (without_ending (scan u value [] false)) name (IsKept-of u 95 w (rw d refl))
      (without_ending-ends (scan u value [] false))
      (without_ending-IsKept u _ (scan-IsKept u value [] false tt)) e
