-- ===== src/Tests/Whole.antt =====
-- A whole run of the able_engine over the file store, in the small world of files.
use agent_orchestrator_publi.Base.{
  ◌≡◌, ◌≢◌, refl, Bool, true, false, sym, ap, subst, ◌∙◌, none, some, codes, text_eq, text_eq_iff,
  arith, all, any, member, Text,
}
use native.Mathlib.Decide.{ℕ_discrete}
use agent_orchestrator_publi.Base.{text_discrete, insert}
use agent_orchestrator_publi.Base.Errors.{ok}
use agent_orchestrator_publi.Domain.Run.{transition, Approval, approve, validate_approval}
use agent_orchestrator_publi.Orchestrator.Decide.{
  decide, store_of, decide_read, decide_recorded, judge, is_awaiting, event_of_decision,
}
use agent_orchestrator_publi.Orchestrator.Decide.Recorded.{Opens}
use agent_orchestrator_publi.Orchestrator.Decide.OnDisk.{run_then_decide-Consistent}
use agent_orchestrator_publi.Runtime.{wrapping, releasing}
use agent_orchestrator_publi.Store.Log.{cut, drop_cr, decode_line, decode_lines, decode_events}
use agent_orchestrator_publi.Store.Files
use agent_orchestrator_publi.Tests.Table
use agent_orchestrator_publi.Verification.{run_commands, run_command}
use agent_orchestrator_publi.Evidence.{artifact_from_bytes, digest}
use agent_orchestrator_publi.Orchestrator.{
  Run, transition_run, failed, recovery_required as recover,
}
use agent_orchestrator_publi.Orchestrator.Exits.{
  finally, unless_kept, returned, or_failed, or_recovery,
}
use agent_orchestrator_publi.FilePath.Fields.{fields}
use agent_orchestrator_publi.FilePath.Space.{trim_space, is_blank}
use agent_orchestrator_publi.FilePath.Clean
use agent_orchestrator_publi.Domain.Task
use agent_orchestrator_publi.Domain.Task.{digest_task, validate_task}
use agent_orchestrator_publi.Policy.{
  validate_approved_task, validate_command, validate_write_role, validate_execution,
  validate_action,
}
use agent_orchestrator_publi.Runtime.Process
use agent_orchestrator_publi.Workspace
use agent_orchestrator_publi.Workspace.{Repository}
use agent_orchestrator_publi.Orchestrator.Exits.{going, ◌>>=◌, bare}
use agent_orchestrator_publi.Orchestrator.Execute
use agent_orchestrator_publi.Orchestrator.Execute.{run_task, run_id, admit, store_root}
use agent_orchestrator_publi.Orchestrator.Execute.Throughout.{Named}
use agent_orchestrator_publi.Orchestrator.Execute.OnDisk.{Around, run_task-Consistent-on_disk}
use agent_orchestrator_publi.Store.Files.{run_dir, lock_path}
use agent_orchestrator_publi.FilePath.Split.{split}
use agent_orchestrator_publi.Orchestrator.Journal.{Consistent, Recorded}
use agent_orchestrator_publi.Orchestrator.Journal.Confined.{Confined}
use agent_orchestrator_publi.Orchestrator.Journal.Lockable.{Beside}
use agent_orchestrator_publi.Orchestrator.Journal.OnDisk.{untouched}
use agent_orchestrator_publi.Tests.World.{new_commit, task, approved_digest, enc}
use agent_orchestrator_publi.Tests.Files.{FileWorld, file_sys, file_disk, mkdir_at}
use agent_orchestrator_publi.Tests.Table.{table-IsFaithful}
use agent_orchestrator_publi.Tests.OnDisk.{
  root, able_agent, able_engine, codec, host, journal, events, state, elsewhere, agent-Confined,
  waiting_run, completed_run, empty, nothing_yet,
}

abbrev repository : Repository
repository = record { root = codes "/r"; common_dir = codes "/r/.git"; head = new_commit }

admitted :
    admit host able_engine task approved_digest empty ≡ (going (repository, able_agent), empty)
unfolding admit Execute.the_adapter Execute.check_commands ◌>>=◌ bare Process.run Workspace.resolve
    Workspace.git_output Clean.clean Clean.join_path Clean.is_abs Clean.element Clean.base fields
    trim_space is_blank text_eq any all member validate_approved_task validate_command
    validate_write_role validate_execution validate_action digest_task validate_task
    Task.matches_task_id Task.is_abs_clean Task.matches_commit Task.validate_required_strings
    Task.validate_allowed_paths Task.check_acceptance Task.validate_delegation Task.validate_budget
admitted = refl

rooted : store_root host able_engine task approved_digest repository ≡ root
unfolding Clean.join_path Clean.clean Clean.is_abs Clean.element any text_eq
rooted = refl

abbrev dir : Text
dir = run_dir file_sys codec root (codes "r1")

abbrev lock : Text
lock = lock_path file_sys codec dir

made_in : (b : Bool) (w : FileWorld) → (mkdir_at lock b w).1.files ≡ w.files
made_in true w = refl
made_in false w = refl

differ : {a b : Text} → text_eq a b ≡ false → a ≢ b
differ {a} {b} h e = absurd (ground (arith, text_eq_iff a b, e))

apart :
    ((events ≢ lock) × (state ≢ lock))
    × ((events ≢ Clean.join_path lock (codes "owner.json"))
        × (state ≢ Clean.join_path lock (codes "owner.json")))
unfolding run_dir Clean.join_paths Clean.join_path Clean.clean Clean.is_abs Clean.element split any
    text_eq
apart = ((differ refl, differ refl), (differ refl, differ refl))

unmoved :
    (w w' : FileWorld)
    → w'.files ≡ w.files
    → (journal.log w' ≡ journal.log w) × (journal.state w' ≡ journal.state w)
unmoved w w' e =
    untouched file_disk codec (table-IsFaithful _ _) root (codes "r1") w w' (ap (λ f. f events) e)
      (ap (λ f. f state) e)

beside : Beside journal file_sys codec dir
beside = record {
  mkdir_all = λ w. (refl, refl);
  mkdir = λ w. unmoved w (mkdir_at lock (w.dirs lock) w).1 (made_in (w.dirs lock) w);
  write_file = λ b w. elsewhere (Clean.join_path lock (codes "owner.json")) (some b) w apart.1;
  remove = λ w. elsewhere lock none w apart.0;
  remove_all = λ w. (refl, refl);
}

around :
    Around file_sys enc able_engine task approved_digest file_disk codec
      (table-IsFaithful _ _)
      root
      (codes "r1")
      able_agent
unfolding run_id
around = record {
  probe = λ w. (refl, refl);
  draw = λ w. (refl, refl);
  now = λ w. (refl, refl);
  beside = beside;
}

named : Named host able_engine task approved_digest root (codes "r1") journal able_agent empty
unfolding run_id
named a w₁ e =
    let same : repository ≡ a.0 = cc (sym admitted ∙ e) in
    (subst (λ r. store_root host able_engine task approved_digest r ≡ root) same rooted, refl)

confined : Confined journal file_sys able_agent (Clean.join_path dir (codes "evidence"))
unfolding run_dir Clean.join_paths Clean.join_path Clean.clean Clean.is_abs Clean.element split any
    text_eq
confined = agent-Confined able_agent (λ job w. refl) (λ session w. refl)

run_task-Consistent-on_disk_example :
    let (r, w') = run_task host able_engine task approved_digest empty in
    Consistent journal w' × (r.1 ≡ none → Recorded journal r.0 w')
run_task-Consistent-on_disk_example =
    run_task-Consistent-on_disk file_sys enc able_engine task approved_digest file_disk codec
      (table-IsFaithful _ _) root (codes "r1") able_agent empty confined around refl named
      nothing_yet.0 nothing_yet.1

abbrev after : FileWorld
after = (run_task host able_engine task approved_digest empty).1

ran : run_task host able_engine task approved_digest empty ≡ ((waiting_run, none), after)
unfolding run_task run_id Execute.admit Execute.the_adapter Execute.check_commands
    Execute.verification_environment Execute.write_evidence Execute.write_evidence_json
    Execute.verify Execute.conclude Execute.check_commit Execute.write_effect Execute.implement
    Execute.make_work_root Execute.locked_run ◌>>=◌ bare finally unless_kept returned or_failed
    or_recovery transition_run failed recover transition artifact_from_bytes digest run_commands
    run_command Process.run Workspace.resolve Workspace.add Workspace.remove Workspace.head_of
    Workspace.validate_result_commit Workspace.changed_paths Workspace.diff
    Workspace.validate_allowed_paths Workspace.permits Workspace.git_output Clean.clean
    Clean.join_path Clean.join_paths Clean.is_abs Clean.element Clean.base fields split trim_space
    is_blank text_eq any all member insert validate_approved_task validate_command
    validate_write_role validate_execution validate_action digest_task validate_task
    Task.matches_task_id Task.is_abs_clean Task.matches_commit Task.validate_required_strings
    Task.validate_allowed_paths Task.check_acceptance Task.validate_delegation Task.validate_budget
    Files.append_event Files.write_state Files.replace_state Files.or_close Files.sync_directory
    Files.read_events Files.decode_log Files.fence Files.write_event cut drop_cr decode_events
    decode_lines decode_line run_dir wrapping releasing text_discrete Table.encode Table.decode
    Table.member_at ℕ_discrete Files.acquire_lock Files.release Files.release_lock Files.take_lock
    Files.write_owner
ran = refl

abbrev approval : Approval
approval = record {
  actor = codes "ann";
  decision = approve;
  task_digest = approved_digest;
  decision_packet_digest = codes "ab04";
  at = some 9;
}

resolved : (w : FileWorld) → Workspace.resolve file_sys (codes "/r") w ≡ (ok repository, w)
unfolding Workspace.resolve Workspace.git_output Process.run text_eq Clean.clean trim_space
    Clean.element Clean.join_path
resolved w = refl

opens : (w : FileWorld) → Opens host root (codes "r1") journal (codes "/r") w
unfolding Clean.join_path Clean.clean Clean.is_abs Clean.element any text_eq
opens w r w₁ e =
    let same : repository ≡ r = cc (sym (resolved w) ∙ e) in
    subst (λ q. Clean.join_path q.common_dir (codes "agent-orchestrator") ≡ root) same refl

-- The decision completes the run.
completes : (decide host (codes "/r") (codes "r1") approval after).0 ≡ ok completed_run
unfolding run_task run_id Execute.admit Execute.the_adapter Execute.check_commands
    Execute.verification_environment Execute.write_evidence Execute.write_evidence_json
    Execute.verify Execute.conclude Execute.check_commit Execute.write_effect Execute.implement
    Execute.make_work_root Execute.locked_run ◌>>=◌ bare finally unless_kept returned or_failed
    or_recovery transition_run failed recover transition artifact_from_bytes digest run_commands
    run_command Process.run Workspace.resolve Workspace.add Workspace.remove Workspace.head_of
    Workspace.validate_result_commit Workspace.changed_paths Workspace.diff
    Workspace.validate_allowed_paths Workspace.permits Workspace.git_output Clean.clean
    Clean.join_path Clean.join_paths Clean.is_abs Clean.element Clean.base fields split trim_space
    is_blank text_eq any all member insert validate_approved_task validate_command
    validate_write_role validate_execution validate_action digest_task validate_task
    Task.matches_task_id Task.is_abs_clean Task.matches_commit Task.validate_required_strings
    Task.validate_allowed_paths Task.check_acceptance Task.validate_delegation Task.validate_budget
    Files.append_event Files.write_state Files.replace_state Files.or_close Files.sync_directory
    Files.read_events Files.decode_log Files.fence Files.write_event cut drop_cr decode_events
    decode_lines decode_line run_dir wrapping releasing text_discrete Table.encode Table.decode
    Table.member_at ℕ_discrete Files.acquire_lock Files.release Files.release_lock Files.take_lock
    Files.write_owner decide store_of decide_read decide_recorded judge is_awaiting
    event_of_decision validate_approval Files.read_state Files.decode_state
completes = refl

run_then_decide-Consistent_example :
    let (r, w') = decide host (codes "/r") (codes "r1") approval after in
    Consistent journal w' × ((run' : Run) → r ≡ ok run' → Recorded journal run' w')
run_then_decide-Consistent_example =
    run_then_decide-Consistent file_sys enc able_engine task approved_digest file_disk codec
      (table-IsFaithful _ _) root (codes "r1") able_agent confined around (codes "/r") approval
      empty after refl named nothing_yet.0 nothing_yet.1 ran (opens after)
