-- ===== src/Orchestrator/Execute/Concluded.antt =====
-- What holds of a run that `Engine.Run` returns without an error.
pub mod Phases
use agent_orchestrator_publi.Base.{
  ◌≡◌, refl, sym, ap, subst, ◌∙◌, ◌≢◌, Bool, true, none, List, map, Text, text_eq_iff, arith, inl,
  inr,
}
use agent_orchestrator_publi.Base.Errors.{Error, ok, Result-cases, require, refuse_if}
use agent_orchestrator_publi.Domain.Task.{Task}
use agent_orchestrator_publi.Domain.Run.{
  RunState, EventType, created, preparing, implementing, verifying, awaiting_approval,
  preparation_started, implementation_started, implementation_finished, verification_finished,
  transition,
}
use agent_orchestrator_publi.Policy.{validate_approved_task}
use agent_orchestrator_publi.Workspace
use agent_orchestrator_publi.Verification.{CommandResult}
use agent_orchestrator_publi.Evidence.{
  task_value, results_value, bundle_value, packet_value, digest,
}
use agent_orchestrator_publi.Adapters.{AdapterResult, Adapter}
use agent_orchestrator_publi.Store.{RunStore}
use agent_orchestrator_publi.Orchestrator.{Run, transition_run}
use agent_orchestrator_publi.Orchestrator.Exits.{going}
use agent_orchestrator_publi.Orchestrator.Exits.Going.{
  >>=-going, bare-going, finally-going, unless_kept-going, returned-none, or_failed-going,
  check-going, check_or_failed-going,
}
use agent_orchestrator_publi.Orchestrator.Execute.{
  Engine, Host, check_commands, verify, redacted, bundle_of, packet_of, conclude, check_commit,
  implement, locked_run, admit, run_task,
}
use agent_orchestrator_publi.Orchestrator.Execute.Concluded.Phases.{
  transition_run-ok, HasEvidence, conclude-going, IsChecked, check_commit-going,
}

module _ {W Session : Type 0} (h : Host W) (engine : Engine W Session) (task : Task)
    (approved : Text) where
  -- A run that `Engine.Run` returns without an error. The task is the approved one and is valid,
  -- its commands are permitted, the run is awaiting approval for a checked commit on the task's
  -- base, every acceptance command has succeeded, and the digests are those of this evidence.
  pub record IsConcluded (run : Run) : Type 0 where
    pub awaiting : run.state ≡ awaiting_approval
    pub of_task : run.task_digest ≡ approved
    pub on_base : run.base_commit ≡ task.repository.base_ref
    pub approved_task :
        validate_approved_task (λ t. h.enc.marshal (task_value t)) h.enc.sum256 task approved
        ≡ ok tt
    pub permitted : check_commands task.acceptance ≡ ok tt
    pub diff : Text
    pub changed : List Text
    pub commit : IsChecked h engine task approved run.result_commit diff changed
    pub results : List CommandResult
    pub accepted :
        (dir : Text) × (w w₁ : W) × (verify h engine task approved dir run.result_commit changed w
          ≡ (ok results, w₁))
    pub evidence : HasEvidence h engine task approved run diff results

  -- What the phases below know of the run that they return.
  record Follows (run run' : Run) : Type 0 where
    awaiting : run'.state ≡ awaiting_approval
    of_task : run'.task_digest ≡ run.task_digest
    on_base : run'.base_commit ≡ run.base_commit
    diff : Text
    changed : List Text
    commit : IsChecked h engine task approved run'.result_commit diff changed
    results : List CommandResult
    accepted :
        (dir : Text) × (w w₁ : W) × (verify h engine task approved dir run'.result_commit changed w
          ≡ (ok results, w₁))
    evidence : HasEvidence h engine task approved run' diff results

  implement-going :
      (store : RunStore W Run) (adapter : Adapter W Session) (run : Run) (writer verifier : Text)
      (w : W) {run' : Run} {w' : W}
      → run.state ≡ preparing
      → implement h engine task approved store adapter run writer verifier w ≡ (going run', w')
      → Follows run run'
  unfolding implement
  implement-going store adapter run writer verifier w {run'} now c =
      let (run₁, w₁, m₁, c₁) = >>=-going _ _ w c in
      let (result, w₂, m₂, c₂) = >>=-going _ _ w₁ c₁ in
      let (checked, w₃, m₃, c₃) = >>=-going _ _ w₂ c₂ in
      let (run₂, w₄, m₄, c₄) = >>=-going _ _ w₃ c₃ in
      let (_, w₅, m₅, c₅) = >>=-going _ _ w₄ c₄ in
      let (s₁, t₁, e₁) = transition_run-ok store run implementation_started w (bare-going _ w m₁) in
      let (s₂, t₂, e₂) =
        transition_run-ok store _ implementation_finished w₃ (bare-going _ w₃ m₄) in
      let (w₆, m₆) = finally-going _ _ w₅ c₅ in
      let s₁-is : s₁ ≡ implementing = unfold transition in ground arith in
      let s₂-is : s₂ ≡ verifying = unfold transition in ground arith in
      let (results, w₇, v, ev, st, rc, bc, td) =
        conclude-going h engine task approved store run₂ verifier checked.1 checked.0 w₅
          (ground arith) m₆ in
      let commit_is : run'.result_commit ≡ result.result_commit = ground arith in
      record {
        awaiting = st;
        of_task = ground arith;
        on_base = ground arith;
        diff = checked.1;
        changed = checked.0;
        commit =
            subst (λ t. IsChecked h engine task approved t checked.1 checked.0) (sym commit_is)
              (check_commit-going h engine task approved store run₁ writer result w₂ m₃);
        results = results;
        accepted = (
          verifier,
          w₅,
          w₇,
          subst (λ t. verify h engine task approved verifier t checked.0 w₅ ≡ (ok results, w₇))
              (sym rc) v,
        );
        evidence = ev;
      }

  locked_run-going :
      (store : RunStore W Run) (adapter : Adapter W Session) (run : Run) (w : W) {run' : Run}
      {w' : W}
      → run.state ≡ created
      → locked_run h engine task approved store adapter run w ≡ (going run', w')
      → (run₁ : Run) × (run₁.task_digest ≡ run.task_digest)
        × (run₁.base_commit ≡ run.base_commit)
        × Follows run₁ run'
  unfolding locked_run
  locked_run-going store adapter run w now c =
      let (_, w₁, m₁, c₁) = >>=-going _ _ w c in
      let (run₁, w₂, m₂, c₂) = >>=-going _ _ w₁ c₁ in
      let (root, w₃, m₃, c₃) = >>=-going _ _ w₂ c₂ in
      let (_, w₄, m₄, c₄) = >>=-going _ _ w₃ c₃ in
      let (s₁, t₁, e₁) = transition_run-ok store run preparation_started w₁ (bare-going _ w₁ m₂) in
      let (w₅, m₅) = unless_kept-going _ _ w₄ c₄ in
      let s₁-is : s₁ ≡ preparing = unfold transition in ground arith in
      (
        run₁,
        ap (λ r. r.task_digest) e₁,
        ap (λ r. r.base_commit) e₁,
        implement-going store adapter run₁ _ _ w₄ (ap (λ r. r.state) e₁ ∙ s₁-is) m₅,
      )

  admit-going :
      (w : W) {a : Workspace.Repository × Adapter W Session} {w' : W}
      → admit h engine task approved w ≡ (going a, w')
      → (validate_approved_task (λ t. h.enc.marshal (task_value t)) h.enc.sum256 task approved
          ≡ ok tt)
        × (check_commands task.acceptance ≡ ok tt)
  unfolding admit
  admit-going w c =
      let (_, w₁, m₁, c₁) = >>=-going _ _ w c in
      let (_, w₂, m₂, c₂) = >>=-going _ _ w₁ c₁ in
      let (_, w₃, m₃, c₃) = >>=-going _ _ w₂ c₂ in (check-going _ w₁ m₂, check-going _ w₂ m₃)

  pub run_task-IsConcluded :
      (w : W) {run : Run} {w' : W}
      → run_task h engine task approved w ≡ ((run, none), w')
      → IsConcluded run
  unfolding run_task
  run_task-IsConcluded w c =
      let (admitted, w₁, m₁, c₁) = >>=-going _ _ w (returned-none _ w c) in
      let (id, w₂, m₂, c₂) = >>=-going _ _ w₁ c₁ in
      let (now, w₃, m₃, c₃) = >>=-going _ _ w₂ c₂ in
      let (lock, w₄, m₄, c₄) = >>=-going _ _ w₃ c₃ in
      let (w₅, m₅) = finally-going _ _ w₄ c₄ in
      let (run₁, td, bc, f) = locked_run-going _ _ _ w₄ refl m₅ in
      let (valid, permitted) = admit-going w m₁ in
      record {
        awaiting = f.awaiting;
        of_task = f.of_task ∙ td;
        on_base = f.on_base ∙ bc;
        approved_task = valid;
        permitted = permitted;
        diff = f.diff;
        changed = f.changed;
        commit = f.commit;
        results = f.results;
        accepted = f.accepted;
        evidence = f.evidence;
      }
