-- ===== src/Domain/Error.antt =====
-- crates/intern-core/src/error.rs: `ErrorCode` and `InternResult`. The message of an `InternError`
-- is for people and is left out; so is the receipt that file operations attach to one.
use intern.Prelude.{
  String, ◌≡◌, ◌↔◌, refl, ap, ◌∙◌, Bool, true, false, Option, none, some, arith, str_eq, eq_iff,
  if◌then◌else◌, Bool-cases, inl, inr,
}

pub data ErrorCode : Type 0 where
  file_changed source_locked destination_unavailable move_verification_failed : ErrorCode
  source_delete_failed invalid_transition state_conflict database_unavailable : ErrorCode
  io_error invalid_data model_output_invalid duplicate model_declined : ErrorCode
  uploader_unverified reconciliation_required : ErrorCode

unfoldable pub as_str : ErrorCode → String
as_str file_changed = "FILE_CHANGED"
as_str source_locked = "SOURCE_LOCKED"
as_str destination_unavailable = "DESTINATION_UNAVAILABLE"
as_str move_verification_failed = "MOVE_VERIFICATION_FAILED"
as_str source_delete_failed = "SOURCE_DELETE_FAILED"
as_str invalid_transition = "INVALID_TRANSITION"
as_str state_conflict = "STATE_CONFLICT"
as_str database_unavailable = "DATABASE_UNAVAILABLE"
as_str io_error = "IO_ERROR"
as_str invalid_data = "INVALID_DATA"
as_str model_output_invalid = "MODEL_OUTPUT_INVALID"
as_str duplicate = "DUPLICATE"
as_str model_declined = "MODEL_DECLINED"
as_str uploader_unverified = "UPLOADER_UNVERIFIED"
as_str reconciliation_required = "RECONCILIATION_REQUIRED"

unfoldable pub from_str : String → Option ErrorCode
from_str s =
    if str_eq s "FILE_CHANGED"
    then some file_changed
    else if str_eq s "SOURCE_LOCKED"
    then some source_locked
    else if str_eq s "DESTINATION_UNAVAILABLE"
    then some destination_unavailable
    else if str_eq s "MOVE_VERIFICATION_FAILED"
    then some move_verification_failed
    else if str_eq s "SOURCE_DELETE_FAILED"
    then some source_delete_failed
    else if str_eq s "INVALID_TRANSITION"
    then some invalid_transition
    else if str_eq s "STATE_CONFLICT"
    then some state_conflict
    else if str_eq s "DATABASE_UNAVAILABLE"
    then some database_unavailable
    else if str_eq s "IO_ERROR"
    then some io_error
    else if str_eq s "INVALID_DATA"
    then some invalid_data
    else if str_eq s "MODEL_OUTPUT_INVALID"
    then some model_output_invalid
    else if str_eq s "DUPLICATE"
    then some duplicate
    else if str_eq s "MODEL_DECLINED"
    then some model_declined
    else if str_eq s "UPLOADER_UNVERIFIED"
    then some uploader_unverified
    else if str_eq s "RECONCILIATION_REQUIRED"
    then some reconciliation_required
    else none

from_str-as_str : (e : ErrorCode) → from_str (as_str e) ≡ some e
unfolding from_str as_str
from_str-as_str file_changed = refl
from_str-as_str _ = refl

-- One test of such a chain: it passes at the spelling of its code, or the rest of the chain decides.
peel :
    {t name : String} {e : ErrorCode} {rest : Option ErrorCode} (c : ErrorCode)
    → name ≡ as_str c
    → (rest ≡ some e → t ≡ as_str e)
    → (if str_eq t name then some c else rest) ≡ some e
    → t ≡ as_str e
peel {t} {name} {e} c spelled later h = elim (Bool-cases (str_eq t name)) [
  | inl hit ↦ let same : c ≡ e = ground arith in (eq_iff t name).0 hit ∙ spelled ∙ ap as_str same
  | inr miss ↦ later (ground arith)
]

as_str_of_from_str : (t : String) (e : ErrorCode) → from_str t ≡ some e → t ≡ as_str e
unfolding from_str as_str
as_str_of_from_str t e = peel file_changed refl (
    peel source_locked refl (
      peel destination_unavailable refl (
        peel move_verification_failed refl (
          peel source_delete_failed refl (
            peel invalid_transition refl (
              peel state_conflict refl (
                peel database_unavailable refl (
                  peel io_error refl (
                    peel invalid_data refl (
                      peel model_output_invalid refl (
                        peel duplicate refl (
                          peel model_declined refl (
                            peel uploader_unverified refl
                              (peel reconciliation_required refl ((λ h. cc))))))))))))))))

-- `from_str` reads back exactly what `as_str` wrote: it accepts the fifteen spellings of the
-- error codes, each as its own code, and no other text.
pub from_str_iff : (t : String) (e : ErrorCode) → (from_str t ≡ some e) ↔ (t ≡ as_str e)
from_str_iff t e = (as_str_of_from_str t e, λ p. ap from_str p ∙ from_str-as_str e)

-- `InternResult`
pub data InternResult {ℓ} (A : Type ℓ) : Type ℓ where
  ok : A → InternResult A
  err : ErrorCode → InternResult A

abbrev pub is_duplicate : ErrorCode → Bool
is_duplicate duplicate = true
is_duplicate _ = false

abbrev pub is_source_delete_failed : ErrorCode → Bool
is_source_delete_failed source_delete_failed = true
is_source_delete_failed _ = false
