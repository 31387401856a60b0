-- ===== src/Tests/Naming.antt =====
-- Names at concrete inputs: a notice for one party, and a title with characters that are left out.
use intern.Prelude.{◌≤◌, ◌≡◌, refl, false, arith, some, [], ◌∷◌, ◌==◌, length, codes, text_eq}
use intern.Naming.Segment.{
  Unicode, sanitize_segment, scan, is_dropped, is_invisible_format, is_hostile, without_ending,
  is_reserved_device_name, before_dot, trim, trim_start, trim_end,
}
use intern.Naming.Clean.{IsName, sanitize_segment-IsName}
use intern.Naming.Fit.{for_party, fit, stem, party_clause, fitting, available}
use intern.Naming.Bounds.{length-fit}

abbrev ascii : Unicode
ascii = record { is_whitespace = λ c. c == 32; is_control = λ c. c == 9 }

cleaned : sanitize_segment ascii (codes "  a: <b>  c?. ") ≡ some (codes "a b c")
unfolding sanitize_segment scan is_dropped is_invisible_format is_hostile without_ending
    is_reserved_device_name before_dot trim trim_start trim_end text_eq
cleaned = refl

device_escaped : sanitize_segment ascii (codes "com1") ≡ some (codes "_com1")
unfolding sanitize_segment scan is_dropped is_invisible_format is_hostile without_ending
    is_reserved_device_name before_dot trim trim_start trim_end text_eq
device_escaped = refl

underscore_kept : ascii.is_control 95 ≡ false
underscore_kept = refl

sanitize_segment-IsName_example : IsName ascii (codes "a b c")
sanitize_segment-IsName_example =
    sanitize_segment-IsName ascii (codes "  a: <b>  c?. ") (codes "a b c") refl underscore_kept
      cleaned

notice :
    fit ascii
      (codes "2026-12-29")
      (codes "Notice")
      (codes "John Smith" ∷ [])
      for_party
      []
      (codes "pdf")
    ≡ codes "2026-12-29 Notice for John Smith.pdf"
unfolding fit stem party_clause fitting available trim trim_start trim_end
notice = refl

length-fit_example :
    length (
      fit ascii
        (codes "2026-12-29")
        (codes "Notice")
        (codes "John Smith" ∷ [])
        for_party
        []
        (codes "pdf"))
    ≤ 120
length-fit_example =
    length-fit ascii (codes "2026-12-29") (codes "Notice") (codes "John Smith" ∷ []) for_party []
      (codes "pdf") (omega arith)
