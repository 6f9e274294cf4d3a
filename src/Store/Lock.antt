-- ===== src/Store/Lock.antt =====
-- The lock of a run keeps two holders apart.
pub mod Acquired
pub mod Released
use agent_orchestrator_publi.Base.{
  ◌≤◌, ◌≡◌, refl, sym, ap, subst, ◌∙◌, Bool, true, false, List, [], ◌∷◌, ◌++◌, Text, codes, length,
  arith,
}
use agent_orchestrator_publi.Base.Errors.{Error, Result, ok, err, wrapped, external, locked}
use agent_orchestrator_publi.FilePath.Clean.{join_path}
use agent_orchestrator_publi.Runtime.{M, wrapping, Made, made, existing, unmade, System}
use agent_orchestrator_publi.Store.{LockOwner, Codec}
use agent_orchestrator_publi.Store.Log.{newline}
use agent_orchestrator_publi.Store.Files.{
  lock_path, write_owner, take_lock, acquire_lock, release_lock,
}
use agent_orchestrator_publi.Store.Disk.Rules.{>>=-cases}
use agent_orchestrator_publi.Store.Lock.Acquired.{Directories, acquired}

module _ {W S : Type 0} {sys : System W} (dirs : Directories sys) (codec : Codec S)
    (dir : Text) where
  abbrev lock : Text
  lock = lock_path sys codec dir

  abbrev Held : W → Type 0
  Held w = dirs.is_dir lock w ≡ true

  -- The processes that hold the lock, by their owners, while each does one of its steps at a time.
  pub data Step : W → List LockOwner → W → List LockOwner → Type 0 where
    acquire :
        {w w' : W} {holders : List LockOwner} (owner : LockOwner) (path : Text)
        → acquire_lock sys codec dir owner w ≡ (ok path, w')
        → Step w holders w' (owner ∷ holders)
    refuse :
        {w w' : W} {holders : List LockOwner} (owner : LockOwner) (x : Error)
        → acquire_lock sys codec dir owner w ≡ (err x, w')
        → Step w holders w' holders
    release :
        {w w' : W} {holders left : List LockOwner} (before after : List LockOwner)
        (owner : LockOwner) (r : Result (Unit {0}))
        → holders ≡ before ++ (owner ∷ after)
        → left ≡ before ++ after
        → release_lock sys codec lock w ≡ (r, w')
        → Step w holders w' left
    -- Any other step leaves the directory of the lock where it is.
    other :
        {w w' : W} {holders : List LockOwner}
        → (dirs.is_dir lock w ≡ true → dirs.is_dir lock w' ≡ true)
        → Step w holders w' holders

  pub data Reach (start : W) : W → List LockOwner → Type 0 where
    here : Reach start start []
    next :
        {w w' : W} {holders left : List LockOwner}
        → Reach start w holders
        → Step w holders w' left
        → Reach start w' left

  -- At most one holder, and while there is one the directory is there.
  abbrev Exclusive : W → List LockOwner → Type 0
  Exclusive w [] = Unit
  Exclusive w (owner ∷ holders) = (holders ≡ []) × Held w

  kept :
      (w w' : W) (holders : List LockOwner)
      → (Held w → Held w')
      → Exclusive w holders
      → Exclusive w' holders
  kept w w' [] k e = tt
  kept w w' (owner ∷ holders) k (one, h) = (one, k h)

  acquire_first :
      (w w' : W) (holders : List LockOwner) (owner : LockOwner)
      → Held w' × ¬ Held w
      → Exclusive w holders
      → Exclusive w' (owner ∷ holders)
  acquire_first w w' [] owner (h, free) e = (refl, h)
  acquire_first w w' (o ∷ holders) owner (h, free) (one, taken) = absurd (free taken)

  none_left :
      (w' : W) (x : LockOwner) (left before after : List LockOwner) (owner : LockOwner)
      → x ∷ [] ≡ before ++ (owner ∷ after)
      → left ≡ before ++ after
      → Exclusive w' left
  none_left w' x left [] [] owner p q = subst (Exclusive w') (sym q) tt
  none_left w' x left [] (a ∷ after) owner p q = absurd (ground arith)
  none_left w' x left (b ∷ []) after owner p q = absurd (ground arith)
  none_left w' x left (b ∷ c ∷ before) after owner p q = absurd (ground arith)

  release_last :
      (w w' : W) (holders left before after : List LockOwner) (owner : LockOwner)
      → holders ≡ before ++ (owner ∷ after)
      → left ≡ before ++ after
      → Exclusive w holders
      → Exclusive w' left
  release_last w w' [] left [] after owner p q e = absurd (ground arith)
  release_last w w' [] left (b ∷ before) after owner p q e = absurd (ground arith)
  release_last w w' (x ∷ holders) left before after owner p q e =
      none_left w' x left before after owner (sym (ap (λ l. x ∷ l) e.0) ∙ p) q

  Step-Exclusive :
      {w w' : W} {holders left : List LockOwner}
      → Step w holders w' left
      → Exclusive w holders
      → Exclusive w' left
  Step-Exclusive {w} {w'} {holders} (acquire owner path q) e =
      acquire_first w w' holders owner
        (subst (λ p. Held p.1 × ¬ Held w) q
          ((acquired dirs codec dir owner w).1 path (ap (λ p. p.0) q)))
        e
  Step-Exclusive {w} {w'} {holders} (refuse owner x q) e =
      kept w w' holders (subst (λ p. Held w → Held p.1) q (acquired dirs codec dir owner w).0) e
  Step-Exclusive {w} {w'} {holders} {left} (release before after owner r p q _) e =
      release_last w w' holders left before after owner p q e
  Step-Exclusive {w} {w'} {holders} (other k) e = kept w w' holders k e

  Reach-Exclusive :
      {start w : W} {holders : List LockOwner} → Reach start w holders → Exclusive w holders
  Reach-Exclusive here = tt
  Reach-Exclusive (next r s) = Step-Exclusive s (Reach-Exclusive r)

  at_most_one : (w : W) (holders : List LockOwner) → Exclusive w holders → length holders ≤ 1
  at_most_one w [] e = omega arith
  at_most_one w (owner ∷ holders) e = rw e.0 (omega arith)

  -- However processes acquire and release the lock of a run, among failures and any steps that
  -- leave its directory in place, at most one of them holds it at a time; provided that `os.Mkdir`
  -- makes only what was not there, and the calls before it is held take no directory away.
  pub Reach-exclusion :
      {start w : W} {holders : List LockOwner} → Reach start w holders → length holders ≤ 1
  Reach-exclusion {start} {w} {holders} r = at_most_one w holders (Reach-Exclusive r)
