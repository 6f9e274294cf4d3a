-- ===== src/Orchestrator/Execute/Setting.antt =====
-- What `Engine.Run` is given, and its constants.
use agent_orchestrator_publi.Base.{ℕ, Option, List, [], ◌∷◌, Text, codes}
use agent_orchestrator_publi.Base.Errors.{
  Error, Result, ok, err, refuse_if, require, adapter_required, root_not_canonical, commit_mismatch,
  no_new_commit, verify_commit, wrapped,
}
use agent_orchestrator_publi.Base.Errors
use agent_orchestrator_publi.Domain.Task.{CommandSpec}
use agent_orchestrator_publi.Policy.{ExecutionMode, Policy, validate_command}
use agent_orchestrator_publi.Runtime.{System}
use agent_orchestrator_publi.Workspace
use agent_orchestrator_publi.Workspace.{Repository}
use agent_orchestrator_publi.Evidence.{Encoding}
use agent_orchestrator_publi.Adapters.{Adapter}
use agent_orchestrator_publi.Store.{Event, RunStore}
use agent_orchestrator_publi.Orchestrator.{Run}

-- An `Engine` with no `NewRunID` takes random bytes. `Redact` is a function on texts here.
pub record Engine (W Session : Type 0) : Type 0 where
  pub adapter : Option (Adapter W Session)
  pub mode : ExecutionMode
  pub redact : Text → Text
  pub new_run_id : Option (W → Text × W)

-- What the engine uses: the system, the encodings, and `store.New`.
pub record Host (W : Type 0) : Type 0 where
  pub sys : System W
  pub enc : Encoding
  pub new_store : Text → RunStore W Run

abbrev pub run_policy : Policy
run_policy = record {
  allowed_env = [];
  allow_write_role = codes "writer";
  denied_actions = codes "deploy" ∷ codes "merge" ∷ codes "push" ∷ [];
}

unfoldable pub check_commands : List CommandSpec → Result (Unit {0})
check_commands [] = ok tt
check_commands (command ∷ commands) =
    Errors.◌>>=◌ (validate_command run_policy command.argv) (λ _. check_commands commands)

unfoldable pub verification_environment : (Text → Option Text) → List (Text × Text)
verification_environment env =
    Workspace.pass_env env (codes "PATH" ∷ codes "HOME" ∷ codes "TMPDIR" ∷ codes "GOCACHE" ∷ []) []

abbrev pub writer_effect : Text
writer_effect = codes "writer-1"

abbrev pub effect_event : Text → ℕ → Event
effect_event type generation = record {
  type = type;
  effect_id = writer_effect;
  payload = [];
  generation = generation;
}
