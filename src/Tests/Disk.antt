-- ===== src/Tests/Disk.antt =====
-- A file system in memory, which answers and acts as the laws of a move say.
use intern.Prelude.{
  Text, String, ◌≡◌, ◌≢◌, refl, sym, ◌∙◌, Bool, true, false, Bool-cases, ◌⊎◌, inl, inr, Option,
  none, some, is_some, [], ◌∷◌, text_eq, text_eq_iff, if◌then◌else◌,
}
use intern.Retry.Defs.{IoError, IoResult, ok, err}
use intern.Applier.World.{Env}
use intern.Applier.Safety.Laws.{Still, IsLawful}

abbrev pub Disk : Type 0
Disk = Text → Option String

abbrev pub set : Text → Option String → Disk → Disk
set p content s x = if text_eq x p then content else s x

abbrev pub missing : IoError
missing = record { raw_os_error = some 2; already_exists = false }

abbrev pub occupied : IoError
occupied = record { raw_os_error = some 17; already_exists = true }

abbrev pub read : Option String → IoResult String
read none = err missing
read (some x) = ok x

abbrev pub open_at : Text → Option String → IoResult Text
open_at p none = err missing
open_at p (some x) = ok p

abbrev pub rename_by :
    Text → Text → Option String → Option String → Disk → Disk × IoResult (Unit {0})
rename_by p q none at_q s = (s, err missing)
rename_by p q (some x) none s = (set q (some x) (set p none s), ok tt)
rename_by p q (some x) (some y) s = (s, err occupied)

abbrev pub copy_by : Text → Option String → Option String → Disk → Disk × IoResult Text
copy_by q none at_q s = (s, err missing)
copy_by q (some x) none s = (set q (some x) s, ok q)
copy_by q (some x) (some y) s = (s, err occupied)

-- `one` says whether all paths are on one volume.
abbrev pub disk : Bool → Env
disk one = record {
  State = Disk;
  Handle = Text;
  exists = λ p s. (s, is_some (s p));
  hash = λ p s. (s, read (s p));
  same_volume = λ p q s. (s, ok one);
  rename_no_replace = λ p q s. rename_by p q (s p) (s q) s;
  copy_new_locked = λ p q s. copy_by q (s p) (s q) s;
  lock_for_delete = λ p s. (s, open_at p (s p));
  handle_hash = λ h s. (s, read (s h));
  handle_identity = λ h s. (s, ok (record { volume = 1; file = 1 }));
  handle_delete = λ h s. (set h none s, ok tt);
  unique = λ s. (s, b'1' ∷ []);
  now = λ s. (s, 100);
  others = λ db s. (s, []);
}

set-at : (p : Text) (c : Option String) (s : Disk) → set p c s p ≡ c
set-at p c s = rw ((text_eq_iff p p).1 refl) refl

set-elsewhere : (p x : Text) (c : Option String) (s : Disk) → x ≢ p → set p c s x ≡ s x
set-elsewhere p x c s ne = elim (Bool-cases (text_eq x p)) [
  | inl same ↦ absurd (ne ((text_eq_iff x p).0 same))
  | inr other ↦ rw other refl
]

read_says : (o : Option String) (x : String) → read o ≡ ok x → o ≡ some x
read_says none x e = cc e
read_says (some y) x e = cc e

open_says : (p h : Text) (o : Option String) → open_at p o ≡ ok h → h ≡ p
open_says p h none e = cc e
open_says p h (some y) e = cc e

copy_says : (q h : Text) (x y : Option String) (s : Disk) → (copy_by q x y s).1 ≡ ok h → h ≡ q
copy_says q h none y s e = cc e
copy_says q h (some x) none s e = cc e
copy_says q h (some x) (some y) s e = cc e

copy-Still :
    (a b q : Text) (x y : Option String) (s : Disk)
    → q ≢ a
    → q ≢ b
    → Still (λ s. s) a b s (copy_by q x y s).0
copy-Still a b q none y s na nb = (refl, refl)
copy-Still a b q (some x) none s na nb =
    (set-elsewhere q a _ s (λ e. na (sym e)), set-elsewhere q b _ s (λ e. nb (sym e)))
copy-Still a b q (some x) (some y) s na nb = (refl, refl)

rename_acts :
    (p q : Text) (x y : Option String) (s : Disk)
    → s q ≡ y
    → ((z : Text) (c : String) → s z ≡ some c → (rename_by p q x y s).0 z ≡ some c)
      ⊎ ((s q ≡ none) × ((rename_by p q x y s).0 q ≡ x))
rename_acts p q none y s e = inl (λ z c v. v)
rename_acts p q (some x) none s e = inr (e, set-at q (some x) (set p none s))
rename_acts p q (some x) (some y) s e = inl (λ z c v. v)

rename_keeps :
    (p q z : Text) (x y : Option String) (s : Disk)
    → z ≢ p
    → z ≢ q
    → (rename_by p q x y s).0 z ≡ s z
rename_keeps p q z none y s np nq = refl
rename_keeps p q z (some x) none s np nq =
    set-elsewhere q z (some x) (set p none s) nq ∙ set-elsewhere p z none s np
rename_keeps p q z (some x) (some y) s np nq = refl

pub disk-IsLawful : (one : Bool) (a b : Text) → IsLawful (disk one) (λ s. s) (λ h. h) a b
disk-IsLawful one a b = record {
  exists_still = λ p s. (refl, refl);
  exists_says = λ p s. refl;
  hash_still = λ p s. (refl, refl);
  hash_says = λ p s x e. read_says (s p) x e;
  same_volume_still = λ p q s. (refl, refl);
  lock_still = λ p s. (refl, refl);
  lock_says = λ p s h e. open_says p h (s p) e;
  handle_hash_still = λ h s. (refl, refl);
  handle_hash_says = λ h s x e. read_says (s h) x e;
  identity_still = λ h s. (refl, refl);
  unique_still = λ s. (refl, refl);
  now_still = λ s. (refl, refl);
  others_still = λ db s. (refl, refl);
  copy_still = λ p q s na nb. copy-Still a b q (s p) (s q) s na nb;
  copy_says = λ p q s h e. copy_says q h (s p) (s q) s e;
  rename_acts = λ p q s. rename_acts p q (s p) (s q) s refl;
  rename_keeps = λ p q s z np nq. rename_keeps p q z (s p) (s q) s np nq;
  delete_keeps = λ h s z ne. set-elsewhere h z none s ne;
}

pub texts_differ : (s t : Text) → text_eq s t ≡ false → s ≢ t
texts_differ s t f e = cc (f, (text_eq_iff s t).1 e)
