-- ===== src/Tests/Approved.antt =====
-- A task that is prepared and then run in the small world, with checksums of one length.
use agent_orchestrator_publi.Base.{
  ◌≡◌, refl, ◌≢◌, true, Option, none, [], ◌∷◌, Text, codes, text_eq, all, any, member, insert,
  length, All, arith, ◌*◌,
}
use agent_orchestrator_publi.Base.Errors.{Error, ok}
use agent_orchestrator_publi.FilePath.Fields.{fields}
use agent_orchestrator_publi.FilePath.Space.{trim_space, is_blank}
use agent_orchestrator_publi.FilePath.Split.{split}
use agent_orchestrator_publi.FilePath.Clean
use agent_orchestrator_publi.Domain.Task
use agent_orchestrator_publi.Domain.Task.{Task, digest_task, validate_task, hex, is_hex_byte}
use agent_orchestrator_publi.Domain.Task.Hex.{AreBytes, unhex, digest_task-unhex}
use agent_orchestrator_publi.Domain.Run.{transition}
use agent_orchestrator_publi.Policy.{
  validate_approved_task, validate_command, validate_write_role, validate_execution,
  validate_action,
}
use agent_orchestrator_publi.Runtime.Process
use agent_orchestrator_publi.Workspace
use agent_orchestrator_publi.Verification.{run_commands, run_command}
use agent_orchestrator_publi.Evidence.{Encoding, artifact_from_bytes, digest}
use agent_orchestrator_publi.Orchestrator.{
  Run, transition_run, failed, recovery_required as recover,
}
use agent_orchestrator_publi.Orchestrator.Exits.{
  ◌>>=◌, bare, finally, unless_kept, returned, or_failed, or_recovery,
}
use agent_orchestrator_publi.Orchestrator.Execute
use agent_orchestrator_publi.Orchestrator.Execute.{Host, run_task, locked_run}
use agent_orchestrator_publi.Service.{prepared, prepare, service_run}
use agent_orchestrator_publi.Service.Prepared.{marshal_task}
use agent_orchestrator_publi.Service.Approved.{service_run-prepared}
use agent_orchestrator_publi.Tests.World.{
  World, start, host, engine_of, agent, task, base_commit, approved_digest, enc,
}

abbrev summing : Encoding
summing = record enc { sum256 = λ s. 171 ∷ 1 ∷ [] }

abbrev summing_host : Host World
summing_host = record host { enc = summing }

abbrev ready : Task
ready = prepared summing_host task (codes "/r") base_commit

readied : prepare summing_host task start ≡ (ok (ready, approved_digest), start)
unfolding prepare Workspace.resolve Workspace.resolve_commit Workspace.git_output Process.run
    digest_task validate_task trim_space is_blank text_eq all Clean.clean Clean.join_path
    Clean.is_abs Clean.element Task.matches_task_id Task.is_abs_clean Task.matches_commit
    Task.validate_required_strings Task.validate_allowed_paths Task.check_acceptance
    Task.validate_delegation Task.validate_budget
readied = refl

abbrev ready_run : (Run × Option Error) × World
ready_run = service_run summing_host (engine_of agent) ready approved_digest start

concluded : ready_run ≡ ((ready_run.0.0, none), ready_run.1)
unfolding service_run run_task Execute.admit Execute.run_id Execute.the_adapter
    Execute.check_commands Execute.verification_environment Execute.write_evidence
    Execute.write_evidence_json Execute.verify Execute.conclude Execute.check_commit
    Execute.write_effect Execute.implement Execute.make_work_root Execute.locked_run ◌>>=◌ bare
    finally unless_kept returned or_failed or_recovery transition_run failed recover transition
    artifact_from_bytes digest run_commands run_command Process.run Workspace.resolve Workspace.add
    Workspace.remove Workspace.head_of Workspace.validate_result_commit Workspace.changed_paths
    Workspace.diff Workspace.validate_allowed_paths Workspace.permits Workspace.git_output
    Clean.clean Clean.join_path Clean.is_abs Clean.element Clean.base fields split trim_space
    is_blank text_eq any all member insert validate_approved_task validate_command
    validate_write_role validate_execution validate_action digest_task validate_task
    Task.matches_task_id Task.is_abs_clean Task.matches_commit Task.validate_required_strings
    Task.validate_allowed_paths Task.check_acceptance Task.validate_delegation Task.validate_budget
concluded = refl

sums_bytes : (s : Text) → AreBytes (summing.sum256 s)
sums_bytes s = (omega arith, (omega arith, tt))

sums_given : (s : Text) → summing.sum256 s ≢ []
sums_given s e = cc

no_collision :
    (b b' : Text)
    → marshal_task summing_host ready ≡ ok b
    → marshal_task summing_host ready ≡ ok b'
    → summing.sum256 b ≡ summing.sum256 b'
    → b ≡ b'
no_collision b b' p q e = cc (p, q)

service_run-prepared_example : ready ≡ ready
service_run-prepared_example =
    service_run-prepared summing_host (engine_of agent) task ready ready approved_digest start start
      start ready_run.1 sums_bytes sums_given no_collision (λ b p q. refl) readied concluded

digested : digest_task (marshal_task summing_host) summing.sum256 ready ≡ ok approved_digest
unfolding digest_task validate_task trim_space is_blank text_eq all Clean.clean Clean.join_path
    Clean.is_abs Clean.element Task.matches_task_id Task.is_abs_clean Task.matches_commit
    Task.validate_required_strings Task.validate_allowed_paths Task.check_acceptance
    Task.validate_delegation Task.validate_budget hex
digested = refl

digest_task-unhex_example :
    (bytes : Text) × (marshal_task summing_host ready ≡ ok bytes)
    × (unhex approved_digest ≡ summing.sum256 bytes)
    × (length approved_digest ≡ 2 * length (summing.sum256 bytes))
    × All (λ c. is_hex_byte c ≡ true) approved_digest
    × (validate_task ready ≡ ok tt)
digest_task-unhex_example =
    digest_task-unhex (marshal_task summing_host) summing.sum256 sums_bytes ready digested
