-- ===== src/Tests/Checks.antt =====
-- The validations of tasks, runs, command lines and commits on concrete values.
use agent_orchestrator_publi.Base.{
  ℕ, ◌≡◌, refl, ◌↔◌, false, not, ◌&&◌, if◌then◌else◌, Option, none, some, List, [], ◌∷◌, ◌++◌, Text,
  codes, member, lookup, All,
}
use agent_orchestrator_publi.Base.Errors.{Error, ok}
use agent_orchestrator_publi.FilePath.Fields.{fields}
use agent_orchestrator_publi.FilePath.Split.{split}
use agent_orchestrator_publi.FilePath.Clean.{is_abs, clean, slash}
use agent_orchestrator_publi.Domain.Task
use agent_orchestrator_publi.Domain.Task.{Task, escapes, validate_task}
use agent_orchestrator_publi.Domain.Task.Inside.{stays, escapes-stays}
use agent_orchestrator_publi.Domain.Task.Valid.{
  IsFilled, IsInside, IsValidTask, validate_allowed_paths-IsInside, validate_task-IsValidTask,
}
use agent_orchestrator_publi.Domain.Run.{
  created, completed, approve, Approval, EventType, preparation_started, cancellation,
  validate_approval,
}
use agent_orchestrator_publi.Domain.Run.Graph.{replay, approved_after}
use agent_orchestrator_publi.Domain.Run.History.{replay-completed}
use agent_orchestrator_publi.Domain.Run.Approvals.{IsBinding, validate_approval-IsBinding}
use agent_orchestrator_publi.Policy.{Policy, filter_env, validate_command}
use agent_orchestrator_publi.Policy.Env.{lookup-filter_env}
use agent_orchestrator_publi.Policy.Commands.{IsPermitted, validate_command-IsPermitted}
use agent_orchestrator_publi.Workspace
use agent_orchestrator_publi.Workspace.Paths.{Some, Under, validate_allowed_paths-Under}
use agent_orchestrator_publi.Workspace.Commits.{parents_of, validate_result_commit-single}
use agent_orchestrator_publi.Runtime.Process
use agent_orchestrator_publi.Verification.{CommandResult, run_commands, run_command}
use agent_orchestrator_publi.Verification.Passed.{Passes, run_commands-Passes}
use agent_orchestrator_publi.Orchestrator.Execute.{run_policy}
use agent_orchestrator_publi.Tests.World.{base_commit, World, start, sys, task}

abbrev canceled_late : List EventType
canceled_late = preparation_started ∷ cancellation ∷ []

replay-completed_example :
    (replay created canceled_late ≡ ok completed)
    ↔ ((n : ℕ) × (canceled_late ≡ preparation_started ∷ approved_after n))
replay-completed_example = replay-completed canceled_late

abbrev approval : Approval
approval = record {
  actor = codes "ann";
  decision = approve;
  task_digest = codes "ab";
  decision_packet_digest = codes "cd";
  at = some 9;
}

validate_approval-IsBinding_example :
    (validate_approval approval (codes "ab") (codes "cd") ≡ ok tt)
    ↔ IsBinding approval (codes "ab") (codes "cd")
validate_approval-IsBinding_example = validate_approval-IsBinding approval (codes "ab") (codes "cd")

validate_task-IsValidTask_example : (validate_task task ≡ ok tt) ↔ IsValidTask task
validate_task-IsValidTask_example = validate_task-IsValidTask task

abbrev two_paths : List Text
two_paths = codes "src/" ∷ codes "docs/../../etc" ∷ []

validate_allowed_paths-IsInside_example :
    (Task.validate_allowed_paths two_paths ≡ ok tt) ↔ (IsFilled two_paths × All IsInside two_paths)
validate_allowed_paths-IsInside_example = validate_allowed_paths-IsInside two_paths

relative : is_abs (codes "a/../../b") ≡ false
unfolding is_abs
relative = refl

escapes-stays_example :
    escapes (codes "a/../../b") ≡ not (stays 0 (split slash (codes "a/../../b")))
escapes-stays_example = escapes-stays (codes "a/../../b") relative

abbrev shell_free : List Text
shell_free = codes "go" ∷ codes "test" ∷ codes "./..." ∷ []

validate_command-IsPermitted_example : (validate_command run_policy shell_free ≡ ok tt) ↔ (
    (program : Text) × (arguments : List Text) × (shell_free ≡ program ∷ arguments)
    × IsPermitted run_policy program arguments)
validate_command-IsPermitted_example = validate_command-IsPermitted run_policy shell_free

abbrev lang_only : Policy
lang_only = record {
  allowed_env = codes "LANG" ∷ [];
  allow_write_role = codes "writer";
  denied_actions = [];
}

abbrev requested : List Text
requested = codes "LANG" ∷ codes "TOKEN" ∷ []

abbrev source : List (Text × Text)
source = (codes "TOKEN", codes "x") ∷ (codes "LANG", codes "C") ∷ []

lookup-filter_env_example : lookup (codes "LANG") (filter_env lang_only requested source) ≡ (
    if member (codes "LANG") requested && member (codes "LANG") lang_only.allowed_env
    then lookup (codes "LANG") source
    else none)
lookup-filter_env_example = lookup-filter_env lang_only requested source (codes "LANG")

abbrev rules : List Text
rules = codes "src/" ∷ codes "go.mod" ∷ []

abbrev changed : List Text
changed = codes "src/a.go" ∷ codes "src-old/b.go" ∷ []

validate_allowed_paths-Under_example :
    (Workspace.validate_allowed_paths changed rules ≡ ok tt)
    ↔ All (λ path. Some (Under (clean path)) rules) changed
validate_allowed_paths-Under_example = validate_allowed_paths-Under changed rules

validate_result_commit-single_example :
    (Workspace.validate_result_commit sys (codes "/v") base_commit (codes "b1") start
      ≡ (ok tt, start))
    ↔ ((line : Text) × (Workspace.git_output sys (codes "/v") (parents_of (codes "b1")) start
          ≡ (ok line, start))
        × (fields line ≡ codes "b1" ∷ base_commit ∷ []))
validate_result_commit-single_example =
    validate_result_commit-single sys (codes "/v") base_commit (codes "b1") start

abbrev checked : (List CommandResult × Option Error) × World
checked = run_commands sys (codes "/v") [] [] task.acceptance start

checked_well : checked ≡ ((checked.0.0, none), checked.1)
unfolding run_commands run_command Process.run
checked_well = refl

run_commands-Passes_example :
    (new : List CommandResult) × (checked.0.0 ≡ [] ++ new)
    × Passes sys (codes "/v") [] task.acceptance start new checked.1
run_commands-Passes_example =
    run_commands-Passes sys (codes "/v") [] task.acceptance [] start checked_well
