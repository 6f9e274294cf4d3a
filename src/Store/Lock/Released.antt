-- ===== src/Store/Lock/Released.antt =====
-- Releasing a lock more than once.
use agent_orchestrator_publi.Base.{
  ◌≡◌, refl, arith, Bool-cases, inl, inr, true, Option, some, [], codes, is_empty,
}
use agent_orchestrator_publi.Base.Errors.{Error, Result, ok, err}
use agent_orchestrator_publi.Runtime.{wrapping, System}
use agent_orchestrator_publi.Store.{RunLock, Codec}
use agent_orchestrator_publi.Store.Files.{release}

module _ {W S : Type 0} (sys : System W) (codec : Codec S) where
  -- A lock that `Release` leaves alone, and that leaves the directories alone.
  abbrev pub IsReleased : Option RunLock → Type 0
  IsReleased lock = (w : W) → release sys codec lock w ≡ ((ok tt, lock), w)

  release_empty : (lock : RunLock) → is_empty lock.path ≡ true → IsReleased (some lock)
  unfolding release
  release_empty lock e w = rw e refl

  -- After `Release` has returned no error, every later `Release` of the lock returns none either and
  -- removes nothing; after an error, the lock is as it was.
  pub release-IsReleased :
      (lock : RunLock) (w : W)
      → let ((r, left), w') = release sys codec (some lock) w in
        (r ≡ ok tt → IsReleased left) × ((x : Error) → r ≡ err x → left ≡ some lock)
  release-IsReleased lock w = elim (Bool-cases (is_empty lock.path)) [
    | inl e ↦ rw (release_empty lock e w) (λ _. release_empty lock e, λ x h. refl)
    | inr e ↦
        unfold release in
        rw e (removed (wrapping (codes "release run lock") (sys.remove_all lock.path) w))
  ]
    where
      removed :
          (r : Result (Unit {0}) × W)
          → let ((r, left), w') : (Result (Unit {0}) × Option RunLock) × W = elim r.0 [
            | err e ↦ ((err e, some lock), r.1)
            | ok _ ↦ ((ok tt, some (record { path = [] })), r.1)
          ] in
            (r ≡ ok tt → IsReleased left) × ((x : Error) → r ≡ err x → left ≡ some lock)
      removed (ok _, w') =
          (λ _. release_empty (record { path = [] }) refl, λ x h. absurd (ground arith))
      removed (err y, w') = (λ h. absurd (ground arith), λ x h. refl)
