-- ===== src/Store/Lock/Acquired.antt =====
-- What acquiring the lock of a run does to its directory.
use agent_orchestrator_publi.Base.{
  ◌≡◌, refl, ap, subst, Bool, true, false, [], ◌∷◌, ◌++◌, Text, codes, arith,
}
use agent_orchestrator_publi.Base.Errors.{Result, ok, err, wrapped, external, locked}
use agent_orchestrator_publi.FilePath.Clean.{join_path}
use agent_orchestrator_publi.Runtime.{M, wrapping, Made, made, existing, unmade, System}
use agent_orchestrator_publi.Store.{LockOwner, Codec}
use agent_orchestrator_publi.Store.Log.{newline}
use agent_orchestrator_publi.Store.Files.{lock_path, write_owner, take_lock, acquire_lock}
use agent_orchestrator_publi.Store.Disk.Rules.{>>=-cases}

-- What the lock relies on of directories: `mkdir` makes one that was not there, and neither it nor
-- the other calls that come before the lock is held takes one away.
pub record Directories {W : Type 0} (sys : System W) : Type 0 where
  pub is_dir : Text → W → Bool
  pub mkdir_new :
      (p : Text) (w w' : W)
      → sys.mkdir p w ≡ (made, w')
      → (is_dir p w ≡ false) × (is_dir p w' ≡ true)
  pub mkdir_keeps : (p : Text) (w : W) → is_dir p w ≡ true → is_dir p (sys.mkdir p w).1 ≡ true
  pub mkdir_all_keeps :
      (d p : Text) (w : W) → is_dir p w ≡ true → is_dir p (sys.mkdir_all d w).1 ≡ true
  pub write_file_keeps :
      (f b p : Text) (w : W) → is_dir p w ≡ true → is_dir p (sys.write_file f b w).1 ≡ true

module _ {W S : Type 0} {sys : System W} (dirs : Directories sys) (codec : Codec S)
    (dir : Text) where
  abbrev lock : Text
  lock = lock_path sys codec dir

  abbrev Held : W → Type 0
  Held w = dirs.is_dir lock w ≡ true

  -- Whoever acquires the lock made its directory; whoever fails while it was there leaves it there.
  abbrev Took : W → Result Text → W → Type 0
  Took w (ok _) w' = (dirs.is_dir lock w ≡ false) × Held w'
  Took w (err _) w' = Held w → Held w'

  never : {A : Type 0} {w : W} → dirs.is_dir lock w ≡ false → Held w → A
  never free there = absurd (ground arith)

  write_owner-Took :
      (owner : LockOwner) (w w₁ : W)
      → dirs.is_dir lock w ≡ false
      → Held w₁
      → Took w (write_owner sys codec lock owner w₁).0 (write_owner sys codec lock owner w₁).1
  unfolding write_owner
  write_owner-Took owner w w₁ free there = encoded (codec.marshal_owner owner)
    where
      put :
          (r : Result (Unit {0}) × W)
          → Held r.1
          → let out : Result Text × W = elim r.0 [
            | err e ↦ (err (wrapped (codes "write lock owner") e), (sys.remove_all lock r.1).1)
            | ok _ ↦ (ok lock, r.1)
          ] in
            Took w out.0 out.1
      put (ok _, w₂) h = (free, h)
      put (err x, w₂) h = λ y. never free y

      encoded :
          (m : Result Text)
          → let out : Result Text × W = elim m [
            | err e ↦ (err (wrapped (codes "marshal lock owner") e), (sys.remove lock w₁).1)
            | ok bytes ↦
                let (r, w') =
                  sys.write_file
                    (join_path lock (codes "owner.json"))
                    (bytes ++ (newline ∷ []))
                    w₁ in
                elim r [
                  | err e ↦ (err (wrapped (codes "write lock owner") e), (sys.remove_all lock w').1)
                  | ok _ ↦ (ok lock, w')
                ]
          ] in
            Took w out.0 out.1
      encoded (ok bytes) =
          put (sys.write_file (join_path lock (codes "owner.json")) (bytes ++ (newline ∷ [])) w₁) (
            dirs.write_file_keeps (join_path lock (codes "owner.json")) (bytes ++ (newline ∷ []))
              lock w₁ there)
      encoded (err x) = λ y. never free y

  take_lock-Took :
      (owner : LockOwner) (w : W)
      → Took w (take_lock sys codec lock owner w).0 (take_lock sys codec lock owner w).1
  unfolding take_lock
  take_lock-Took owner w = go (sys.mkdir lock w) refl
    where
      go :
          (r : Made × W)
          → sys.mkdir lock w ≡ r
          → let out : Result Text × W = elim r.0 [
            | existing ↦ (err locked, r.1)
            | unmade m ↦ (err (wrapped (codes "create run lock") (external m)), r.1)
            | made ↦ write_owner sys codec lock owner r.1
          ] in
            Took w out.0 out.1
      go (made, w') q =
          let (free, there) = dirs.mkdir_new lock w w' q in write_owner-Took owner w w' free there
      go (existing, w') q = λ h. subst Held (ap (λ p. p.1) q) (dirs.mkdir_keeps lock w h)
      go (unmade m, w') q = λ h. subst Held (ap (λ p. p.1) q) (dirs.mkdir_keeps lock w h)

  abbrev make : M W (Unit {0})
  make = wrapping (codes "create run directory") (sys.mkdir_all dir)

  make_keeps : (w w₁ : W) {r : Result (Unit {0})} → make w ≡ (r, w₁) → Held w → Held w₁
  unfolding wrapping
  make_keeps w w₁ q h = subst Held (ap (λ p. p.1) q) (dirs.mkdir_all_keeps dir lock w h)

  later :
      (w w₁ : W) (r : Result Text) (w₂ : W) → (Held w → Held w₁) → Took w₁ r w₂ → Held w → Held w₂
  later w w₁ (ok _) w₂ k (free, there) h = never free (k h)
  later w w₁ (err x) w₂ k t h = t (k h)

  -- Acquiring while the directory is there fails and leaves it there; if it succeeds, it is there.
  pub acquired :
      (owner : LockOwner) (w : W)
      → let (r, w') = acquire_lock sys codec dir owner w in
        (Held w → Held w') × ((path : Text) → r ≡ ok path → Held w' × ¬ Held w)
  unfolding acquire_lock
  acquired owner w =
      >>=-cases
        (λ (r : Result Text) (w' : W).
          (Held w → Held w') × ((path : Text) → r ≡ ok path → Held w' × ¬ Held w))
        make (λ _. take_lock sys codec lock owner) w
        (λ _ w₁ q.
          both w w₁ (take_lock sys codec lock owner w₁).0 (take_lock sys codec lock owner w₁).1
            (make_keeps w w₁ q) (take_lock-Took owner w₁))
        (λ x w₁ q. (make_keeps w w₁ q, λ path k. absurd (ground arith)))
    where
      both :
          (w w₁ : W) (r : Result Text) (w₂ : W)
          → (Held w → Held w₁)
          → Took w₁ r w₂
          → (Held w → Held w₂) × ((path : Text) → r ≡ ok path → Held w₂ × ¬ Held w)
      both w w₁ (ok p) w₂ k (free, there) =
          (λ h. never free (k h), λ path e. (there, λ h. never free (k h)))
      both w w₁ (err x) w₂ k t = (λ h. t (k h), λ path e. absurd (ground arith))
