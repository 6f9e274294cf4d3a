-- ===== src/Orchestrator/Decide.antt =====
-- `Engine.Decide` and `Engine.Status`: a human's decision on a run that awaits it.
pub mod Binding
pub mod Stale
pub mod Whole
pub mod Recorded
pub mod OnDisk
use agent_orchestrator_publi.Base.{Bool, true, false, Text, codes}
use agent_orchestrator_publi.Base.Errors.{
  Error, Result, ok, err, require, not_awaiting_approval, unsupported_decision,
}
use agent_orchestrator_publi.Base.Errors
use agent_orchestrator_publi.FilePath.Clean.{join_path}
use agent_orchestrator_publi.Domain.Run.{
  RunState, awaiting_approval, HumanDecision, approve, request_rework, reject, cancel,
  other_decision, Approval, EventType, approved, rework_requested, rejection, cancellation,
  validate_approval,
}
use agent_orchestrator_publi.Runtime.{releasing, M, pure, lift, ◌>>=◌, ◌>>◌}
use agent_orchestrator_publi.Workspace
use agent_orchestrator_publi.Store.{RunStore}
use agent_orchestrator_publi.Orchestrator.{Run, transition_run}
use agent_orchestrator_publi.Orchestrator.Execute.{Host}

unfoldable pub is_awaiting : RunState → Bool
is_awaiting awaiting_approval = true
is_awaiting _ = false

unfoldable pub event_of_decision : HumanDecision → Result EventType
event_of_decision approve = ok approved
event_of_decision request_rework = ok rework_requested
event_of_decision reject = ok rejection
event_of_decision cancel = ok cancellation
event_of_decision (other_decision s) = err (unsupported_decision s)

-- The checks of `Decide` on the run that it has read, and the event to record.
unfoldable pub judge : Text → Run → Approval → Result EventType
unfolding is_awaiting event_of_decision
judge run_id run approval =
    Errors.◌>>=◌ (require (is_awaiting run.state) (not_awaiting_approval run_id)) λ _.
      Errors.◌>>=◌ (validate_approval approval run.task_digest run.decision_packet_digest)
        λ _. event_of_decision approval.decision

module _ {W : Type 0} where
  -- Under the lock; `run` was read before the lock was taken.
  unfoldable pub decide_recorded : RunStore W Run → Text → Run → Approval → M W Run
  unfolding judge
  decide_recorded store run_id run approval = do
    event ← lift (judge run_id run approval)
    transition_run store run event

module _ {W : Type 0} (h : Host W) where
  unfoldable pub store_of : Text → M W (RunStore W Run)
  store_of repository_root = do
    repository ← Workspace.resolve h.sys repository_root
    pure (h.new_store (join_path repository.common_dir (codes "agent-orchestrator")))

  -- `Decide` after `ReadState`.
  unfoldable pub decide_read : RunStore W Run → Text → Approval → Run → M W Run
  unfolding releasing decide_recorded
  decide_read store run_id approval run = do
    now ← h.sys.now
    lock ← store.acquire_lock (store.run_dir run_id) (record {
      pid = h.sys.pid;
      command = codes "decide";
      generation = run.generation;
      acquired_at = now;
    })
    releasing (store.release_lock lock) (decide_recorded store run_id run approval)

  unfoldable pub decide : Text → Text → Approval → M W Run
  unfolding decide_read
  decide repository_root run_id approval = do
    store ← store_of repository_root
    run ← store.read_state run_id
    decide_read store run_id approval run

  unfoldable pub status : Text → Text → M W Run
  status repository_root run_id = do store ← store_of repository_root; store.read_state run_id
