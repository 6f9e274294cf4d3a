-- ===== src/Service.antt =====
-- internal/host/service.go: what a host program calls, from preparing a task to deciding on its run.
pub mod Prepared
pub mod Approved
use agent_orchestrator_publi.Base.{Option, Text}
use agent_orchestrator_publi.Base.Errors.{Error}
use agent_orchestrator_publi.Domain.Task.{Task, digest_task}
use agent_orchestrator_publi.Domain.Run.{Approval}
use agent_orchestrator_publi.Runtime.{M, pure, lift, ◌>>=◌}
use agent_orchestrator_publi.Workspace
use agent_orchestrator_publi.Evidence.{task_value}
use agent_orchestrator_publi.Orchestrator.{Run}
use agent_orchestrator_publi.Orchestrator.Execute.{Engine, Host, run_task}
use agent_orchestrator_publi.Orchestrator.Decide.{decide, status}

module _ {W : Type 0} (h : Host W) where
  abbrev pub prepared : Task → Text → Text → Task
  prepared task root base_commit = record task {
    repository = record { root = root; base_ref = base_commit };
  }

  -- `Prepare`: the task on the canonical root and a full commit, with the digest to approve.
  unfoldable pub prepare : Task → M W (Task × Text)
  prepare task = do
    repository ← Workspace.resolve h.sys task.repository.root
    base_commit ← Workspace.resolve_commit h.sys repository.root task.repository.base_ref
    digest ← lift (
        digest_task (λ t. h.enc.marshal (task_value t)) h.enc.sum256
          (prepared task repository.root base_commit))
    pure (prepared task repository.root base_commit, digest)

  unfoldable pub service_run :
      {Session : Type 0} → Engine W Session → Task → Text → W → (Run × Option Error) × W
  service_run engine task approved_digest = run_task h engine task approved_digest

  unfoldable pub service_status : Text → Text → M W Run
  service_status repository_root run_id = status h repository_root run_id

  unfoldable pub service_decide : Text → Text → Approval → M W Run
  service_decide repository_root run_id approval = decide h repository_root run_id approval
