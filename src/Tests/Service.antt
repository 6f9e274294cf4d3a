-- ===== src/Tests/Service.antt =====
-- A task that is prepared in the small world.
use agent_orchestrator_publi.Base.{◌≡◌, refl, ◌≢◌, codes, text_eq, all, Text, []}
use agent_orchestrator_publi.Base.Errors.{ok}
use agent_orchestrator_publi.FilePath.Space.{trim_space, is_blank}
use agent_orchestrator_publi.FilePath.Clean
use agent_orchestrator_publi.Domain.Task
use agent_orchestrator_publi.Domain.Task.{Task, digest_task, validate_task}
use agent_orchestrator_publi.Runtime.Process
use agent_orchestrator_publi.Workspace
use agent_orchestrator_publi.Service.{prepared, prepare}
use agent_orchestrator_publi.Service.Prepared.{IsPrepared, prepare-IsPrepared}
use agent_orchestrator_publi.Tests.World.{start, host, task, base_commit, approved_digest}

abbrev ready : Task
ready = prepared host task (codes "/r") base_commit

readied : prepare host task start ≡ (ok (ready, approved_digest), start)
unfolding prepare Workspace.resolve Workspace.resolve_commit Workspace.git_output Process.run
    digest_task validate_task trim_space is_blank text_eq all Clean.clean Clean.join_path
    Clean.is_abs Clean.element Task.matches_task_id Task.is_abs_clean Task.matches_commit
    Task.validate_required_strings Task.validate_allowed_paths Task.check_acceptance
    Task.validate_delegation Task.validate_budget
readied = refl

sum_given : (s : Text) → host.enc.sum256 s ≢ []
sum_given s e = cc

prepare-IsPrepared_example : IsPrepared host task start ready approved_digest
prepare-IsPrepared_example = prepare-IsPrepared host sum_given task start readied
