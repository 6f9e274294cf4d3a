-- ===== src/Orchestrator/Execute.antt =====
-- `Engine.Run`, in the phases that its deferred calls divide it into.
pub mod Concluded
pub mod Recorded
pub mod Throughout
pub mod OnDisk
pub mod Setting
use agent_orchestrator_publi.Base.{
  ℕ, zero, suc, Bool, true, false, not, if◌then◌else◌, Option, none, some, List, [], ◌∷◌, ◌++◌, map,
  Text, codes, text_eq,
}
use agent_orchestrator_publi.Base.Errors.{
  Error, Result, ok, err, refuse_if, require, adapter_required, root_not_canonical, commit_mismatch,
  no_new_commit, verify_commit, wrapped,
}
use agent_orchestrator_publi.Base.Errors
use agent_orchestrator_publi.FilePath.Clean.{join_path}
use agent_orchestrator_publi.Domain.Task.{Task, CommandSpec, hex}
use agent_orchestrator_publi.Domain.Run.{
  created, preparation_started, implementation_started, implementation_finished,
  verification_finished,
}
use agent_orchestrator_publi.Policy.{
  ExecutionMode, mode_text, Policy, validate_approved_task, validate_command, validate_write_role,
  validate_execution,
}
use agent_orchestrator_publi.Runtime.{M, System, lift}
use agent_orchestrator_publi.Workspace
use agent_orchestrator_publi.Workspace.{Repository}
use agent_orchestrator_publi.Verification.{CommandResult, run_commands}
use agent_orchestrator_publi.Evidence.{
  EvidenceBundle, DecisionPacket, Value, task_value, results_value, bundle_value, packet_value,
  Encoding, artifact_from_bytes, digest,
}
use agent_orchestrator_publi.Adapters.{AdapterResult, Job, Adapter}
use agent_orchestrator_publi.Store.{Event, effect_intent, effect_settlement, LockOwner, RunStore}
use agent_orchestrator_publi.Orchestrator.{Run, transition_run}
use agent_orchestrator_publi.Orchestrator.Exits.{
  Exit, going, E, ◌>>=◌, ◌>>◌, going_on, bare, finally, unless_kept, returned, or_failed,
  or_recovery,
}
pub use agent_orchestrator_publi.Orchestrator.Execute.Setting.{
  Engine, Host, run_policy, writer_effect, effect_event,
}
unfoldable pub use agent_orchestrator_publi.Orchestrator.Execute.Setting.{
  check_commands, verification_environment,
}

module _ {W Session : Type 0} (h : Host W) (engine : Engine W Session) (task : Task)
    (approved : Text) where
  unfoldable pub the_adapter : E W (Adapter W Session)
  the_adapter = bare (lift (elim engine.adapter [ none ↦ err adapter_required | some a ↦ ok a ]))

  -- Up to `ValidateExecution`: nothing has been recorded yet.
  unfoldable pub admit : E W (Repository × Adapter W Session)
  admit = do
    adapter ← the_adapter
    bare (
        lift
          (validate_approved_task (λ t. h.enc.marshal (task_value t)) h.enc.sum256 task approved))
    bare (lift (check_commands task.acceptance))
    repository ← bare (Workspace.resolve h.sys task.repository.root)
    bare (
        lift (
          require (text_eq repository.root task.repository.root)
            (root_not_canonical task.repository.root repository.root)))
    capabilities ← bare adapter.probe
    bare (lift (validate_write_role run_policy (codes "writer")))
    bare (
        lift (
          validate_execution engine.mode (record {
            workspace_write = capabilities.workspace_write;
            native_sandbox = capabilities.native_sandbox;
          })))
    going_on (repository, adapter)

  -- `runID`
  unfoldable pub run_id : E W Text
  unfolding hex
  run_id w = elim engine.new_run_id [
    | some new_id ↦ let (id, w') = new_id w in (going id, w')
    | none ↦ let (bytes, w') = h.sys.random_bytes w in (going (hex bytes), w')
  ]

  abbrev pub new_run : Text → Text → Text → Run
  new_run id root evidence_dir = record {
    id = id;
    state = created;
    task_digest = approved;
    decision_packet_digest = [];
    evidence_digest = [];
    verification_digest = [];
    repository_root = root;
    base_commit = task.repository.base_ref;
    result_commit = [];
    recovery_workspace = [];
    execution_mode = engine.mode;
    generation = 1;
    evidence_dir = evidence_dir;
  }

  -- `writeEvidence` and `writeEvidenceJSON`
  unfoldable pub write_evidence : Text → Text → Text → E W (Unit {0})
  write_evidence directory name bytes = do
    bare (h.sys.mkdir_all directory)
    bare (h.sys.create_new (join_path directory name))
    finally (h.sys.close (join_path directory name)) (
        bare (h.sys.write (join_path directory name) bytes)
        >> bare (h.sys.sync (join_path directory name)))

  unfoldable pub write_evidence_json : Text → Text → Value → E W (Unit {0})
  unfolding write_evidence
  write_evidence_json directory name value = do
    bytes ← bare (lift (h.enc.marshal_indent value))
    write_evidence directory name (bytes ++ (10 ∷ []))

  abbrev pub redacted : CommandResult → CommandResult
  redacted r = record r { stdout = engine.redact r.stdout; stderr = engine.redact r.stderr }

  abbrev pub bundle_of : Run → Text → List CommandResult → EvidenceBundle
  bundle_of run diff results = record {
    run_id = run.id;
    task_digest = approved;
    execution_mode = mode_text engine.mode;
    base_commit = task.repository.base_ref;
    result_commit = run.result_commit;
    artifacts = artifact_from_bytes h.enc (codes "diff.patch") diff ∷ [];
    verification = results;
  }

  abbrev pub packet_of : Text → Text → DecisionPacket
  packet_of evidence_digest verification_digest = record {
    task_digest = approved;
    evidence_digest = evidence_digest;
    review_digest = [];
    verification_digest = verification_digest;
  }

  -- `verification.Run` with the error that `Run` makes of its error.
  unfoldable pub verify : Text → Text → List Text → M W (List CommandResult)
  unfolding run_commands
  verify verifier_dir commit changed w =
      let env = verification_environment (λ key. h.sys.lookup_env key w) in
      let (r, w') = run_commands h.sys verifier_dir env [] task.acceptance w in
      (elim r.1 [ none ↦ ok r.0 | some e ↦ err (verify_commit commit changed e) ], w')

  -- From the verification of the commit to the end, in the verifier's worktree.
  unfoldable pub conclude : RunStore W Run → Run → Text → Text → List Text → E W Run
  conclude store run verifier_dir diff changed = do
    results ← or_failed store run (verify verifier_dir run.result_commit changed)
    let clean_results = map redacted results
    let clean_diff = engine.redact diff
    verification_digest ← bare (lift (digest h.enc (results_value clean_results)))
    evidence_digest ←
        bare (lift (digest h.enc (bundle_value (bundle_of run clean_diff clean_results))))
    packet_digest ←
        bare (lift (digest h.enc (packet_value (packet_of evidence_digest verification_digest))))
    write_evidence run.evidence_dir (codes "diff.patch") clean_diff
    write_evidence_json run.evidence_dir (codes "evidence-bundle.json")
        (bundle_value (bundle_of run clean_diff clean_results))
    write_evidence_json run.evidence_dir (codes "decision-packet.json")
        (packet_value (packet_of evidence_digest verification_digest))
    bare (
        transition_run store
          (record run {
            verification_digest = verification_digest;
            evidence_digest = evidence_digest;
            decision_packet_digest = packet_digest;
          })
          verification_finished)

  -- The checks on what the writer left behind: the paths that it changed, and its diff.
  unfoldable pub check_commit : RunStore W Run → Run → Text → AdapterResult → E W (List Text × Text)
  check_commit store run writer_dir result = do
    let base = task.repository.base_ref
    head ← or_failed store run (Workspace.head_of h.sys writer_dir)
    or_failed store run (
        lift
          (require (text_eq head result.result_commit) (commit_mismatch result.result_commit head)))
    or_failed store run (lift (refuse_if (text_eq result.result_commit base) no_new_commit))
    or_failed store run
        (Workspace.validate_result_commit h.sys writer_dir base result.result_commit)
    changed ←
        or_failed store run (Workspace.changed_paths h.sys writer_dir base result.result_commit)
    or_failed store run (lift (Workspace.validate_allowed_paths changed task.allowed_paths))
    diff ← or_failed store run (Workspace.diff h.sys writer_dir base result.result_commit)
    going_on (changed, diff)

  abbrev job_of : Run → Text → Job
  job_of run writer_dir = record {
    task = task;
    task_digest = approved;
    role = codes "writer";
    execution_mode = engine.mode;
    workspace_dir = writer_dir;
    evidence_dir = run.evidence_dir;
    budget = task.budget;
    generation = run.generation;
  }

  -- The writer's effect, between its intent and its settlement in the log.
  unfoldable pub write_effect : RunStore W Run → Adapter W Session → Run → Text → E W AdapterResult
  write_effect store adapter run writer_dir = do
    bare (store.append_event run.id (effect_event effect_intent run.generation))
    session ← or_recovery store run writer_dir (adapter.start (job_of run writer_dir))
    result ← or_recovery store run writer_dir (adapter.wait session)
    or_recovery store run writer_dir
        (store.append_event run.id (effect_event effect_settlement run.generation))
    going_on result

  -- From `EventImplementationStarted` on, in the writer's worktree.
  unfoldable pub implement : RunStore W Run → Adapter W Session → Run → Text → Text → E W Run
  implement store adapter run writer_dir verifier_dir = do
    run₁ ← bare (transition_run store run implementation_started)
    result ← write_effect store adapter run₁ writer_dir
    checked ← check_commit store run₁ writer_dir result
    run₂ ← bare (
        transition_run store (record run₁ { result_commit = result.result_commit })
          implementation_finished)
    or_failed store run₂ (Workspace.add h.sys run.repository_root verifier_dir result.result_commit)
    finally (Workspace.remove h.sys run.repository_root verifier_dir)
        (conclude store run₂ verifier_dir checked.1 checked.0)

  unfoldable pub make_work_root : Text → M W Text
  make_work_root id w =
      let (r, w') = h.sys.make_temp_dir (codes "agent-orchestrator-" ++ (id ++ codes "-")) w in
      (
        elim r [ ok root ↦ ok root | err e ↦ err (wrapped (codes "create run workspace root") e) ],
        w',
      )

  -- Under the lock of the run.
  unfoldable pub locked_run : RunStore W Run → Adapter W Session → Run → E W Run
  locked_run store adapter run = do
    bare (store.write_state run.id run)
    run₁ ← bare (transition_run store run preparation_started)
    work_root ← or_failed store run₁ (make_work_root run.id)
    let writer_dir = join_path work_root (codes "writer")
    let verifier_dir = join_path work_root (codes "verifier")
    or_failed store run₁
        (Workspace.add h.sys run.repository_root writer_dir task.repository.base_ref)
    unless_kept (Workspace.remove h.sys run.repository_root writer_dir)
        (implement store adapter run₁ writer_dir verifier_dir)

  abbrev pub store_root : Repository → Text
  store_root repository = join_path repository.common_dir (codes "agent-orchestrator")

  -- `Engine.Run`
  unfoldable pub run_task : W → (Run × Option Error) × W
  run_task = returned do
    admitted ← admit
    id ← run_id
    let store = h.new_store (store_root admitted.0)
    let run = new_run id admitted.0.root (join_path (store.run_dir id) (codes "evidence"))
    now ← bare h.sys.now
    lock ← bare (
        store.acquire_lock (store.run_dir id)
          (record { pid = h.sys.pid; command = codes "run"; generation = 1; acquired_at = now }))
    finally (store.release_lock lock) (locked_run store admitted.1 run)
