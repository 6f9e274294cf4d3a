-- ===== src/Orchestrator.antt =====
-- internal/orchestrator/engine.go: a run, how it changes state, and how its functions return.
pub mod Exits
pub mod Execute
pub mod Journal
pub mod Decide
use agent_orchestrator_publi.Base.{ℕ, List, [], Text, codes, Option, none, some}
use agent_orchestrator_publi.Base.Errors.{Error, Result, ok, err, joined}
use agent_orchestrator_publi.Domain.Run.{
  RunState, other_state, EventType, event_text, failure, write_ambiguous, transition,
}
use agent_orchestrator_publi.Policy.{ExecutionMode, other_mode}
use agent_orchestrator_publi.Runtime.{M, pure, lift, ◌>>=◌, ◌>>◌}
use agent_orchestrator_publi.Store.{Event, RunStore}

pub record Run : Type 0 where
  pub id : Text
  pub state : RunState
  pub task_digest : Text
  pub decision_packet_digest : Text
  pub evidence_digest : Text
  pub verification_digest : Text
  pub repository_root : Text
  pub base_commit : Text
  pub result_commit : Text
  pub recovery_workspace : Text
  pub execution_mode : ExecutionMode
  pub generation : ℕ
  pub evidence_dir : Text

-- `Run{}`
abbrev pub empty_run : Run
empty_run = record {
  id = [];
  state = other_state [];
  task_digest = [];
  decision_packet_digest = [];
  evidence_digest = [];
  verification_digest = [];
  repository_root = [];
  base_commit = [];
  result_commit = [];
  recovery_workspace = [];
  execution_mode = other_mode [];
  generation = 0;
  evidence_dir = [];
}

abbrev pub event_of : EventType → ℕ → Event
event_of event generation = record {
  type = event_text event;
  effect_id = [];
  payload = [];
  generation = generation;
}

module _ {W : Type 0} (store : RunStore W Run) where
  -- `transition`: the event is logged before the new state is written.
  unfoldable pub transition_run : Run → EventType → M W Run
  transition_run run event = do
    next ← lift (transition run.state event)
    store.append_event run.id (event_of event run.generation)
    store.write_state run.id (record run { state = next })
    pure (record run { state = next })

  -- `failed` and `recoveryRequired`: the run, if its last transition was recorded, and the error.
  unfoldable pub failed : Run → Error → W → (Run × Error) × W
  failed run cause w =
      let (r, w') = transition_run run failure w in
      (elim r [ ok run' ↦ (run', cause) | err e ↦ (empty_run, joined cause e) ], w')

  unfoldable pub recovery_required : Run → Text → Error → W → (Run × Error) × W
  recovery_required run recovery_workspace cause w =
      let (r, w') =
        transition_run (record run { recovery_workspace = recovery_workspace }) write_ambiguous w in
      (elim r [ ok run' ↦ (run', cause) | err e ↦ (empty_run, joined cause e) ], w')
