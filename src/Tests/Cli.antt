-- ===== src/Tests/Cli.antt =====
-- The program `orch` run in the small world.
use agent_orchestrator_publi.Base.{
  ◌≡◌, refl, some, [], ◌∷◌, is_empty, has_prefix, codes, text_eq, all, any, member, insert,
}
use agent_orchestrator_publi.Base.Errors.{ok}
use agent_orchestrator_publi.Runtime.{contents, wrapping, releasing}
use agent_orchestrator_publi.Domain.Task.{hex}
use agent_orchestrator_publi.Redaction
use agent_orchestrator_publi.Redaction.{redact, new_redactor}
use agent_orchestrator_publi.Adapters.Results
use agent_orchestrator_publi.Adapters.Results.{take, parse_structured_result}
use agent_orchestrator_publi.Adapters.Codex
use agent_orchestrator_publi.Adapters.Codex.{codex_run}
use agent_orchestrator_publi.Service.{prepare, service_run}
use agent_orchestrator_publi.Cli
use agent_orchestrator_publi.Cli.{RunFlags, Library, dispatch, execute}
use agent_orchestrator_publi.Cli.Exits.{IsStarted, execute-IsStarted}
use agent_orchestrator_publi.Orchestrator.Execute.{Host}
use agent_orchestrator_publi.FilePath.Fields.{fields}
use agent_orchestrator_publi.FilePath.Space.{trim_space, is_blank}
use agent_orchestrator_publi.FilePath.Split.{split}
use agent_orchestrator_publi.FilePath.Clean
use agent_orchestrator_publi.Domain.Task
use agent_orchestrator_publi.Domain.Task.{digest_task, validate_task}
use agent_orchestrator_publi.Domain.Run.{transition}
use agent_orchestrator_publi.Policy.{
  validate_approved_task, validate_command, validate_write_role, validate_execution,
  validate_action,
}
use agent_orchestrator_publi.Runtime.Process
use agent_orchestrator_publi.Workspace
use agent_orchestrator_publi.Verification.{run_commands, run_command}
use agent_orchestrator_publi.Evidence.{artifact_from_bytes, digest}
use agent_orchestrator_publi.Orchestrator.{transition_run, failed, recovery_required as recover}
use agent_orchestrator_publi.Orchestrator.Exits.{
  ◌>>=◌, bare, finally, unless_kept, returned, or_failed, or_recovery,
}
use agent_orchestrator_publi.Orchestrator.Execute
use agent_orchestrator_publi.Orchestrator.Execute.{run_task, locked_run, new_run}
use agent_orchestrator_publi.Tests.World.{
  base_commit, sys, World, start, host, task, approved_digest,
}

-- Every file has the same bytes, and git and codex answer well.
abbrev cli_host : Host World
cli_host = record host { sys = record sys { read = λ path w. (contents (codes "{k}"), w) } }

abbrev flags : RunFlags
flags = record {
  task_path = codes "t.json";
  approved_digest = approved_digest;
  strategy = codes "single";
  writer = codes "codex";
  mode = codes "trusted-local";
}

abbrev lib : Library World
lib = record {
  prepare_flags = λ args w. (ok (codes "t.json"), w);
  run_flags = λ args w. (ok flags, w);
  status_flags = λ args w. (ok (codes "."), w);
  decide_flags =
      λ user args w. (ok (record { repository = codes "."; packet_digest = []; actor = user }), w);
  decode_task = λ bytes. ok (task, []);
  at_end = is_empty;
  write_json = λ output w. (ok tt, w);
  print_usage = λ w. w;
  print_error = λ e w. w;
  sort_slice = λ less ts. ts;
  patterns = record { bearer = λ x. x; credential = λ x. x; private_key = λ x. x };
  decode_result = λ text. some (record { session_id = codes "s"; result_commit = base_commit }, 3);
}

abbrev last : World
last = (execute cli_host lib (codes "run" ∷ []) start).1

ends : execute cli_host lib (codes "run" ∷ []) start ≡ (0, last)
unfolding run_task Execute.admit Execute.run_id Execute.the_adapter Execute.check_commands
    Execute.verification_environment Execute.write_evidence Execute.write_evidence_json
    Execute.verify Execute.conclude Execute.check_commit Execute.write_effect Execute.implement
    Execute.make_work_root Execute.locked_run ◌>>=◌ bare finally unless_kept returned or_failed
    or_recovery transition_run failed recover transition artifact_from_bytes digest run_commands
    run_command Process.run Workspace.resolve Workspace.add Workspace.remove Workspace.head_of
    Workspace.validate_result_commit Workspace.changed_paths Workspace.diff
    Workspace.validate_allowed_paths Workspace.permits Workspace.git_output Clean.clean
    Clean.join_path Clean.is_abs Clean.element Clean.base fields split trim_space is_blank text_eq
    any all member insert validate_approved_task validate_command validate_write_role
    validate_execution validate_action digest_task validate_task Task.matches_task_id
    Task.is_abs_clean Task.matches_commit Task.validate_required_strings Task.validate_allowed_paths
    Task.check_acceptance Task.validate_delegation Task.validate_budget execute dispatch
    Cli.run_command Cli.load_task Cli.decode_file Cli.decode_only Cli.mode_of Cli.require_mode
    Cli.run_engine Cli.engine_of Cli.authentication_secrets Cli.secrets_from prepare service_run
    Workspace.resolve_commit codex_run Codex.codex_outcome Codex.codex_report Codex.codex_finish
    Codex.run_program Codex.read_file Codex.resolve_with Codex.codex_probe Codex.codex_start
    Codex.or_discard Codex.build_prompt Codex.default_codex Codex.default_env Codex.new_codex
    wrapping releasing parse_structured_result Results.result_at Results.judge_payload take
    has_prefix Task.is_hex_byte redact new_redactor Redaction.replace_secrets Redaction.replace_all
    Redaction.replace_from Redaction.filter_secrets hex
ends = refl

execute-IsStarted_example :
    (flags : RunFlags) × (w : World) × (lib.run_flags [] start ≡ (ok flags, w))
    × IsStarted cli_host lib flags w last
execute-IsStarted_example = execute-IsStarted cli_host lib [] start ends
