-- ===== src/Orchestrator/Journal/Lockable.antt =====
-- The lock of a run leaves its log and its state file alone.
use agent_orchestrator_publi.Base.{
  ◌≡◌, refl, sym, subst, ◌∙◌, arith, Option, some, [], ◌∷◌, ◌++◌, Text, codes, Bool-cases, inl, inr,
  is_empty,
}
use agent_orchestrator_publi.Base.Errors.{Result, ok, err, locked, wrapped, external}
use agent_orchestrator_publi.FilePath.Clean.{join_path}
use agent_orchestrator_publi.Runtime.{
  M, >>=-ok, wrap_error, wrapping, Made, made, existing, unmade, System,
}
use agent_orchestrator_publi.Store.{LockOwner, RunLock, Codec, RunStore}
use agent_orchestrator_publi.Store.Log.{newline}
use agent_orchestrator_publi.Store.Files.{
  run_dir, lock_path, write_owner, take_lock, acquire_lock, release, release_lock, file_store,
}
use agent_orchestrator_publi.Orchestrator.{Run}
use agent_orchestrator_publi.Orchestrator.Journal.{Journal, Quiet}
use agent_orchestrator_publi.Orchestrator.Journal.Confined.{>>=-Quiet}

-- What is called to take the lock of the run and to release it touches neither of its two files.
pub record Lockable {W : Type 0} {store : RunStore W Run} {id : Text} (j : Journal store id)
    (sys : System W) : Type 0 where
  pub now : Quiet j sys.now
  pub acquire : (owner : LockOwner) → Quiet j (store.acquire_lock (store.run_dir id) owner)
  pub release :
      (owner : LockOwner) (w w' : W) (lock : Text)
      → store.acquire_lock (store.run_dir id) owner w ≡ (ok lock, w')
      → Quiet j (store.release_lock lock)

module _ {W : Type 0} {store : RunStore W Run} {id : Text} (j : Journal store id) (sys : System W)
    (codec : Codec Run) (dir : Text) where
  abbrev lock : Text
  lock = lock_path sys codec dir

  -- Making the directory of the lock, writing the owner into it and removing it again touches
  -- neither the log nor the state file beside it.
  pub record Beside : Type 0 where
    pub mkdir_all : Quiet j (sys.mkdir_all dir)
    pub mkdir : Quiet j (sys.mkdir lock)
    pub write_file : (b : Text) → Quiet j (sys.write_file (join_path lock (codes "owner.json")) b)
    pub remove : Quiet j (sys.remove lock)
    pub remove_all : Quiet j (sys.remove_all lock)

  module _ (beside : Beside) where
    write_owner-Quiet : (owner : LockOwner) → Quiet j (write_owner sys codec lock owner)
    unfolding write_owner
    write_owner-Quiet owner w = encoded (codec.marshal_owner owner)
      where
        written :
            (r : Result (Unit {0}) × W)
            → (j.log r.1 ≡ j.log w) × (j.state r.1 ≡ j.state w)
            → let out : Result Text × W = elim r.0 [
              | err e ↦ (err (wrapped (codes "write lock owner") e), (sys.remove_all lock r.1).1)
              | ok _ ↦ (ok lock, r.1)
            ] in
              (j.log out.1 ≡ j.log w) × (j.state out.1 ≡ j.state w)
        written (ok _, w') q = q
        written (err x, w') q = ((beside.remove_all w').0 ∙ q.0, (beside.remove_all w').1 ∙ q.1)

        encoded :
            (m : Result Text)
            → let out : Result Text × W = elim m [
              | err e ↦ (err (wrapped (codes "marshal lock owner") e), (sys.remove lock w).1)
              | ok bytes ↦
                  let (r, w') =
                    sys.write_file
                      (join_path lock (codes "owner.json"))
                      (bytes ++ (newline ∷ []))
                      w in
                  elim r [
                    | err e ↦
                        (err (wrapped (codes "write lock owner") e), (sys.remove_all lock w').1)
                    | ok _ ↦ (ok lock, w')
                  ]
            ] in
              (j.log out.1 ≡ j.log w) × (j.state out.1 ≡ j.state w)
        encoded (ok bytes) = written _ (beside.write_file (bytes ++ (newline ∷ [])) w)
        encoded (err x) = beside.remove w

    take_lock-Quiet : (owner : LockOwner) → Quiet j (take_lock sys codec lock owner)
    unfolding take_lock
    take_lock-Quiet owner w = go (sys.mkdir lock w) (beside.mkdir w)
      where
        go :
            (r : Made × W)
            → (j.log r.1 ≡ j.log w) × (j.state r.1 ≡ j.state w)
            → let out : Result Text × W = elim r.0 [
              | existing ↦ (err locked, r.1)
              | unmade m ↦ (err (wrapped (codes "create run lock") (external m)), r.1)
              | made ↦ write_owner sys codec lock owner r.1
            ] in
              (j.log out.1 ≡ j.log w) × (j.state out.1 ≡ j.state w)
        go (made, w') q =
            ((write_owner-Quiet owner w').0 ∙ q.0, (write_owner-Quiet owner w').1 ∙ q.1)
        go (existing, w') q = q
        go (unmade m, w') q = q

    abbrev make : M W (Unit {0})
    make = wrapping (codes "create run directory") (sys.mkdir_all dir)

    make-Quiet : Quiet j make
    unfolding wrapping
    make-Quiet w = beside.mkdir_all w

    acquire_lock-Quiet : (owner : LockOwner) → Quiet j (acquire_lock sys codec dir owner)
    unfolding acquire_lock
    acquire_lock-Quiet owner =
        >>=-Quiet j make (λ _. take_lock sys codec lock owner) make-Quiet
          (λ _. take_lock-Quiet owner)

  -- The lock that is acquired is the directory.
  write_owner-path :
      (owner : LockOwner) (w w' : W) {path : Text}
      → write_owner sys codec lock owner w ≡ (ok path, w')
      → path ≡ lock
  unfolding write_owner
  write_owner-path owner w w' e = ground arith

  take_lock-path :
      (owner : LockOwner) (w w' : W) {path : Text}
      → take_lock sys codec lock owner w ≡ (ok path, w')
      → path ≡ lock
  unfolding take_lock
  take_lock-path owner w w' {path} e = go (sys.mkdir lock w) e
    where
      go :
          (r : Made × W)
          → ◌≡◌ {A = Result Text × W}
              (elim r.0 [
                | existing ↦ (err locked, r.1)
                | unmade m ↦ (err (wrapped (codes "create run lock") (external m)), r.1)
                | made ↦ write_owner sys codec lock owner r.1
              ])
              (ok path, w')
          → path ≡ lock
      go (made, v) h = write_owner-path owner v w' h
      go (existing, v) h = absurd (ground arith)
      go (unmade m, v) h = absurd (ground arith)

  acquire_lock-path :
      (owner : LockOwner) (w w' : W) {path : Text}
      → acquire_lock sys codec dir owner w ≡ (ok path, w')
      → path ≡ lock
  unfolding acquire_lock
  acquire_lock-path owner w w' e =
      let (_, w₁, _, e₁) =
        >>=-ok (wrapping (codes "create run directory") (sys.mkdir_all dir))
          (λ _. take_lock sys codec lock owner) w e in
      take_lock-path owner w₁ w' e₁

  release_lock-Quiet : Beside → Quiet j (release_lock sys codec lock)
  unfolding release_lock release wrapping
  release_lock-Quiet beside w = elim (Bool-cases (is_empty lock)) [
    | inl e ↦ rw e (refl, refl)
    | inr e ↦ rw e (removed (sys.remove_all lock w) (beside.remove_all w))
  ]
    where
      removed :
          (r : Result (Unit {0}) × W)
          → (j.log r.1 ≡ j.log w) × (j.state r.1 ≡ j.state w)
          → let out : (Result (Unit {0}) × Option RunLock) × W =
              elim (wrap_error (codes "release run lock") r.0) [
                | err e ↦ ((err e, some (record { path = lock })), r.1)
                | ok _ ↦ ((ok tt, some (record { path = [] })), r.1)
              ] in
            (j.log out.1 ≡ j.log w) × (j.state out.1 ≡ j.state w)
      removed (ok _, w') q = q
      removed (err x, w') q = q

module _ {W : Type 0} (sys : System W) (codec : Codec Run) (root id : Text)
    (j : Journal (file_store sys codec root) id) where
  abbrev dir : Text
  dir = run_dir sys codec root id

  pub beside-Lockable : Quiet j sys.now → Beside j sys codec dir → Lockable j sys
  beside-Lockable now beside = record {
    now = now;
    acquire = acquire_lock-Quiet j sys codec dir beside;
    release = λ owner w w' lock e.
        subst (λ p. Quiet j (release_lock sys codec p))
          (sym (acquire_lock-path j sys codec dir owner w w' e))
          (release_lock-Quiet j sys codec dir beside);
  }
