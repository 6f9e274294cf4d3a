-- ===== src/Orchestrator/Execute/Concluded/Phases.antt =====
-- What the phases of `Engine.Run` have found out where they went on: about the commit, and about the
-- evidence.
use agent_orchestrator_publi.Base.{
  ◌≡◌, sym, ap, subst, ◌∙◌, ◌≢◌, Bool, true, List, map, Text, text_eq_iff, arith, inl, inr,
}
use agent_orchestrator_publi.Base.Errors.{Error, ok, Result-cases, require, refuse_if}
use agent_orchestrator_publi.Domain.Task.{Task}
use agent_orchestrator_publi.Domain.Run.{
  RunState, EventType, verifying, awaiting_approval, verification_finished, transition,
}
use agent_orchestrator_publi.Workspace
use agent_orchestrator_publi.Verification.{CommandResult}
use agent_orchestrator_publi.Evidence.{results_value, bundle_value, packet_value, digest}
use agent_orchestrator_publi.Adapters.{AdapterResult}
use agent_orchestrator_publi.Store.{RunStore}
use agent_orchestrator_publi.Orchestrator.{Run, transition_run}
use agent_orchestrator_publi.Orchestrator.Exits.{going}
use agent_orchestrator_publi.Orchestrator.Exits.Going.{
  >>=-going, bare-going, or_failed-going, check-going, check_or_failed-going,
}
use agent_orchestrator_publi.Orchestrator.Execute.{
  Engine, Host, verify, redacted, bundle_of, packet_of, conclude, check_commit,
}

require_passed : (b : Bool) (x : Error) → require b x ≡ ok tt → b ≡ true
require_passed b x p = ground arith

refused : (b : Bool) (x : Error) → refuse_if b x ≡ ok tt → b ≡ true → ⊥
refused b x p q = ground arith

module _ {W : Type 0} (store : RunStore W Run) where
  -- A recorded transition changes the state alone, as `Transition` says.
  pub transition_run-ok :
      (run : Run) (e : EventType) (w : W) {run' : Run} {w' : W}
      → transition_run store run e w ≡ (ok run', w')
      → (s : RunState) × (transition run.state e ≡ ok s) × (run' ≡ record run { state = s })
  unfolding transition_run
  transition_run-ok run e w h = elim (Result-cases (transition run.state e)) [
    | inl (s, accepted) ↦ (s, accepted, ground arith)
    | inr (x, refused) ↦ absurd (ground arith)
  ]

module _ {W Session : Type 0} (h : Host W) (engine : Engine W Session) (task : Task)
    (approved : Text) where
  abbrev pub base : Text
  base = task.repository.base_ref

  -- The digests of a run are those of the acceptance results, of the bundle that holds them with
  -- the diff, and of the packet that names both, all of them redacted.
  pub record HasEvidence (run : Run) (diff : Text) (results : List CommandResult) : Type 0 where
    pub verified :
        digest h.enc (results_value (map (redacted h engine task approved) results))
        ≡ ok run.verification_digest
    pub bundled :
        digest h.enc (
          bundle_value (
            bundle_of h engine task approved run
              (engine.redact diff)
              (map (redacted h engine task approved) results)))
        ≡ ok run.evidence_digest
    pub packed :
        digest h.enc (
          packet_value
            (packet_of h engine task approved run.evidence_digest run.verification_digest))
        ≡ ok run.decision_packet_digest

  pub conclude-going :
      (store : RunStore W Run) (run : Run) (dir diff : Text) (changed : List Text) (w : W)
      {run' : Run} {w' : W}
      → run.state ≡ verifying
      → conclude h engine task approved store run dir diff changed w ≡ (going run', w')
      → (results : List CommandResult) × (w₁ : W) × (verify h engine task approved dir
            run.result_commit changed w
          ≡ (ok results, w₁))
        × HasEvidence run' diff results
        × (run'.state ≡ awaiting_approval)
        × (run'.result_commit ≡ run.result_commit)
        × (run'.base_commit ≡ run.base_commit)
        × (run'.task_digest ≡ run.task_digest)
  unfolding conclude
  conclude-going store run dir diff changed w verifying_now c =
      let (results, w₁, m₁, c₁) = >>=-going _ _ w c in
      let (vd, w₂, m₂, c₂) = >>=-going _ _ w₁ c₁ in
      let (ed, w₃, m₃, c₃) = >>=-going _ _ w₂ c₂ in
      let (pd, w₄, m₄, c₄) = >>=-going _ _ w₃ c₃ in
      let (_, w₅, m₅, c₅) = >>=-going _ _ w₄ c₄ in
      let (_, w₆, m₆, c₆) = >>=-going _ _ w₅ c₅ in
      let (_, w₇, m₇, c₇) = >>=-going _ _ w₆ c₆ in
      let (s, accepted, e) =
        transition_run-ok store _ verification_finished w₇ (bare-going _ w₇ c₇) in
      let fresh = next_state (sym verifying_now) accepted in
      (
        results,
        w₁,
        or_failed-going store run _ w m₁,
        subst (λ r. HasEvidence r diff results) (sym e)
            (record {
              verified = check-going _ w₁ m₂;
              bundled = check-going _ w₂ m₃;
              packed = check-going _ w₃ m₄;
            }),
        ap (λ r. r.state) e ∙ fresh,
        ap (λ r. r.result_commit) e,
        ap (λ r. r.base_commit) e,
        ap (λ r. r.task_digest) e,
      )
    where
      next_state :
          {t s : RunState}
          → verifying ≡ t
          → transition t verification_finished ≡ ok s
          → s ≡ awaiting_approval
      next_state p q = unfold transition in ground arith

  -- The writer's commit passed each check: it is the head of the worktree, is not the base, has the
  -- base as its only parent, and changes allowed paths alone.
  pub record IsChecked (commit diff : Text) (changed : List Text) : Type 0 where
    pub worktree : Text
    pub head : (w w₁ : W) × (Workspace.head_of h.sys worktree w ≡ (ok commit, w₁))
    pub new : commit ≢ base
    pub parent :
        (w w₁ : W) × (Workspace.validate_result_commit h.sys worktree base commit w ≡ (ok tt, w₁))
    pub changes :
        (w w₁ : W) × (Workspace.changed_paths h.sys worktree base commit w ≡ (ok changed, w₁))
    pub allowed : Workspace.validate_allowed_paths changed task.allowed_paths ≡ ok tt
    pub differs : (w w₁ : W) × (Workspace.diff h.sys worktree base commit w ≡ (ok diff, w₁))

  pub check_commit-going :
      (store : RunStore W Run) (run : Run) (dir : Text) (result : AdapterResult) (w : W)
      {changed : List Text} {diff : Text} {w' : W}
      → check_commit h engine task approved store run dir result w ≡ (going (changed, diff), w')
      → IsChecked result.result_commit diff changed
  unfolding check_commit
  check_commit-going store run dir result w {changed} {diff} c =
      let (head, w₁, m₁, c₁) = >>=-going _ _ w c in
      let (_, w₂, m₂, c₂) = >>=-going _ _ w₁ c₁ in
      let (_, w₃, m₃, c₃) = >>=-going _ _ w₂ c₂ in
      let (_, w₄, m₄, c₄) = >>=-going _ _ w₃ c₃ in
      let (paths, w₅, m₅, c₅) = >>=-going _ _ w₄ c₄ in
      let (_, w₆, m₆, c₆) = >>=-going _ _ w₅ c₅ in
      let (text, w₇, m₇, c₇) = >>=-going _ _ w₆ c₆ in
      let same =
        (text_eq_iff head result.result_commit).0
          (require_passed _ _ (check_or_failed-going store run _ w₁ m₂)) in
      let at_head : Workspace.head_of h.sys dir w ≡ (ok result.result_commit, w₁) =
        or_failed-going store run _ w m₁ ∙ ap (λ t. (ok t, w₁)) same in
      let changed_is : paths ≡ changed = ground arith in
      let diff_is : text ≡ diff = ground arith in
      record {
        worktree = dir;
        head = (w, w₁, at_head);
        new = λ e.
            refused _ _ (check_or_failed-going store run _ w₂ m₃)
              ((text_eq_iff result.result_commit base).1 e);
        parent = (w₃, w₄, or_failed-going store run _ w₃ m₄);
        changes = (w₄, w₅, or_failed-going store run _ w₄ m₅ ∙ ap (λ p. (ok p, w₅)) changed_is);
        allowed =
            subst (λ p. Workspace.validate_allowed_paths p task.allowed_paths ≡ ok tt) changed_is
              (check_or_failed-going store run _ w₅ m₆);
        differs = (w₆, w₇, or_failed-going store run _ w₆ m₇ ∙ ap (λ p. (ok p, w₇)) diff_is);
      }
