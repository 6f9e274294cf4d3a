-- ===== src/Adapters.antt =====
-- internal/adapters/adapter.go: the boundary to the agent that writes.
pub mod Results
pub mod Codex
use agent_orchestrator_publi.Base.{ℕ, Bool, Text}
use agent_orchestrator_publi.Domain.Task.{Task, Budget}
use agent_orchestrator_publi.Policy.{ExecutionMode}
use agent_orchestrator_publi.Runtime.{M}

pub record AdapterCapabilities : Type 0 where
  pub structured_output : Bool
  pub cancellation : Bool
  pub session_resume : Bool
  pub read_only : Bool
  pub workspace_write : Bool
  pub native_sandbox : Bool
  pub streaming : Bool

pub record Usage : Type 0 where
  pub input_tokens : ℕ
  pub output_tokens : ℕ
  pub wall_time : ℕ

pub record AdapterResult : Type 0 where
  pub session_id : Text
  pub result_commit : Text
  pub structured_value : Text
  pub usage : Usage

pub record Job : Type 0 where
  pub task : Task
  pub task_digest : Text
  pub role : Text
  pub execution_mode : ExecutionMode
  pub workspace_dir : Text
  pub evidence_dir : Text
  pub budget : Budget
  pub generation : ℕ

-- An adapter, with the two operations of a session that a caller waits for.
pub record Adapter (W Session : Type 0) : Type 0 where
  pub probe : M W AdapterCapabilities
  pub start : Job → M W Session
  pub wait : Session → M W AdapterResult

-- What a session tells while it runs; `data` is left empty by the code.
pub record AdapterEvent : Type 0 where
  pub type : Text
  pub message : Text
  pub at : ℕ
  pub generation : ℕ
