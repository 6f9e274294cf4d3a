-- ===== src/Service/Approved.antt =====
-- The task that is run is the one that was approved.
use agent_orchestrator_publi.Base.{
  ◌≡◌, sym, ap, ◌∙◌, ◌≢◌, ◌||◌, not, none, [], Text, is_empty, text_eq, text_eq_iff, arith,
}
use agent_orchestrator_publi.Base.Errors.{Result, ok, refuse_if, not_approved_digest, >>=-eq-ok}
use agent_orchestrator_publi.Domain.Task.{Task, digest_task}
use agent_orchestrator_publi.Domain.Task.Hex.{AreBytes, hex-injective, digested}
use agent_orchestrator_publi.Policy.{validate_approved_task}
use agent_orchestrator_publi.Orchestrator.{Run}
use agent_orchestrator_publi.Orchestrator.Execute.{Engine, Host}
use agent_orchestrator_publi.Orchestrator.Execute.Concluded.{run_task-IsConcluded}
use agent_orchestrator_publi.Service.{prepare, service_run}
use agent_orchestrator_publi.Service.Prepared.{marshal_task, prepare-IsPrepared}

module _ (marshal : Task → Result Text) (sha : Text → Text) where
  approved :
      (t : Task) (d : Text)
      → validate_approved_task marshal sha t d ≡ ok tt
      → digest_task marshal sha t ≡ ok d
  unfolding validate_approved_task
  approved t d h =
      let (actual, q, h₁) =
        >>=-eq-ok (digest_task marshal sha t)
          (λ actual. refuse_if (is_empty d || not (text_eq actual d)) not_approved_digest) h in
      let same : actual ≡ d = ground (arith, text_eq_iff actual d, h₁) in q ∙ ap ok same

module _ {W Session : Type 0} (h : Host W) (engine : Engine W Session) where
  -- If `Prepare` has returned a task with its digest, and `Run`, for whichever task, is given that
  -- digest as the approved one and returns a run without an error, then the task that was run is the
  -- one that was prepared; as long as checksums are bytes and not empty, the two encodings do not
  -- share a checksum unless they are the same, and two tasks with one encoding are the same.
  pub service_run-prepared :
      (task t t' : Task) (d : Text) (w w₁ w₂ w₃ : W) {run : Run}
      → ((s : Text) → AreBytes (h.enc.sum256 s))
      → ((s : Text) → h.enc.sum256 s ≢ [])
      → ((b b' : Text)
          → marshal_task h t ≡ ok b
          → marshal_task h t' ≡ ok b'
          → h.enc.sum256 b ≡ h.enc.sum256 b'
          → b ≡ b')
      → ((b : Text) → marshal_task h t ≡ ok b → marshal_task h t' ≡ ok b → t ≡ t')
      → prepare h task w ≡ (ok (t, d), w₁)
      → service_run h engine t' d w₂ ≡ ((run, none), w₃)
      → t' ≡ t
  unfolding service_run
  service_run-prepared task t t' d w w₁ w₂ w₃ bytes given no_collision faithful p r =
      let sha = h.enc.sum256 in
      let (b, m, e) =
        digested (marshal_task h) sha t
          (approved (marshal_task h) sha t d (prepare-IsPrepared h given task w p).approved) in
      let (b', m', e') = digested (marshal_task h) sha t' (
        approved (marshal_task h) sha t' d
          (run_task-IsConcluded h engine t' d w₂ r).approved_task) in
      let same : b ≡ b' =
        no_collision b b' m m' (hex-injective (sha b) (sha b') (bytes b) (bytes b') (e ∙ sym e')) in
      sym (faithful b m (m' ∙ ap ok (sym same)))
