-- ===== src/Applier/Safety/Laws.antt =====
-- What the safety of a move asks of a file system, at the two paths of the move. A call may fail at
-- any time, for any reason; other programs, and other sessions, leave those two paths alone.
use intern.Prelude.{Text, String, ◌≡◌, ◌≢◌, ◌⊎◌, Option, none, some, is_some}
use intern.Retry.Defs.{ok}
use intern.Store.Db.{Db}
use intern.Applier.World.{Env}

-- the two paths hold the same as before
abbrev pub Still : {S : Type 0} → (S → Text → Option String) → Text → Text → S → S → Type 0
Still content a b s s' = (content s' a ≡ content s a) × (content s' b ≡ content s b)

-- `content` is the hash of the file at a path, and `path_of` the path that a handle was opened at: a
-- handle is used only while its file is at that path.
pub record IsLawful (E : Env) (content : E.State → Text → Option String) (path_of : E.Handle → Text)
    (a b : Text) : Type 0 where
  pub exists_still : (p : Text) (s : E.State) → Still content a b s (E.exists p s).0
  pub exists_says : (p : Text) (s : E.State) → (E.exists p s).1 ≡ is_some (content s p)
  pub hash_still : (p : Text) (s : E.State) → Still content a b s (E.hash p s).0
  pub hash_says :
      (p : Text) (s : E.State) (h : String) → (E.hash p s).1 ≡ ok h → content s p ≡ some h
  pub same_volume_still : (p q : Text) (s : E.State) → Still content a b s (E.same_volume p q s).0
  pub lock_still : (p : Text) (s : E.State) → Still content a b s (E.lock_for_delete p s).0
  pub lock_says :
      (p : Text) (s : E.State) (h : E.Handle) → (E.lock_for_delete p s).1 ≡ ok h → path_of h ≡ p
  pub handle_hash_still : (h : E.Handle) (s : E.State) → Still content a b s (E.handle_hash h s).0
  pub handle_hash_says :
      (h : E.Handle) (s : E.State) (x : String)
      → (E.handle_hash h s).1 ≡ ok x
      → content s (path_of h) ≡ some x
  pub identity_still : (h : E.Handle) (s : E.State) → Still content a b s (E.handle_identity h s).0
  pub unique_still : (s : E.State) → Still content a b s (E.unique s).0
  pub now_still : (s : E.State) → Still content a b s (E.now s).0
  pub others_still : (db : Db) (s : E.State) → Still content a b s (E.others db s).0
  -- a copy to a third path
  pub copy_still :
      (p q : Text) (s : E.State) → q ≢ a → q ≢ b → Still content a b s (E.copy_new_locked p q s).0
  pub copy_says :
      (p q : Text) (s : E.State) (h : E.Handle) → (E.copy_new_locked p q s).1 ≡ ok h → path_of h ≡ q
  -- Whatever a rename answers, it has kept every file (its destination may have got a second name of
  -- the file), or its destination was free and has the file now. It may have moved the file and still
  -- report an error.
  pub rename_acts :
      (p q : Text) (s : E.State)
      → ((x : Text) (c : String)
          → content s x ≡ some c
          → content (E.rename_no_replace p q s).0 x ≡ some c)
        ⊎ ((content s q ≡ none) × (content (E.rename_no_replace p q s).0 q ≡ content s p))
  pub rename_keeps :
      (p q : Text) (s : E.State) (x : Text)
      → x ≢ p
      → x ≢ q
      → content (E.rename_no_replace p q s).0 x ≡ content s x
  -- A deletion changes nothing elsewhere.
  pub delete_keeps :
      (h : E.Handle) (s : E.State) (x : Text)
      → x ≢ path_of h
      → content (E.handle_delete h s).0 x ≡ content s x
