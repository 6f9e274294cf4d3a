-- ===== src/Evidence.antt =====
-- internal/evidence: artifacts, the bundle and the packet that a human decides on, and digests.
use agent_orchestrator_publi.Base.{ℕ, ℤ, List, Text, length}
use agent_orchestrator_publi.Base.Errors.{Result, ok, ◌>>=◌}
use agent_orchestrator_publi.Domain.Task.{Task, hex}
use agent_orchestrator_publi.Verification.{CommandResult}

pub record Artifact : Type 0 where
  pub name : Text
  pub sha256 : Text
  pub size : ℕ

pub record EvidenceBundle : Type 0 where
  pub run_id : Text
  pub task_digest : Text
  pub execution_mode : Text
  pub base_commit : Text
  pub result_commit : Text
  pub artifacts : List Artifact
  pub verification : List CommandResult

-- What a reviewer reports; no code of the repository makes one yet.
pub record Finding : Type 0 where
  pub severity : Text
  pub file : Text
  pub line : ℤ
  pub evidence : Text
  pub recommendation : Text

pub record ReviewResult : Type 0 where
  pub evidence_digest : Text
  pub findings : List Finding

pub record DecisionPacket : Type 0 where
  pub task_digest : Text
  pub evidence_digest : Text
  pub review_digest : Text
  pub verification_digest : Text

-- What the program encodes as JSON to take a digest of it.
pub data Value : Type 0 where
  task_value : Task → Value
  results_value : List CommandResult → Value
  bundle_value : EvidenceBundle → Value
  packet_value : DecisionPacket → Value

-- `json.Marshal`, `json.MarshalIndent` and `sha256.Sum256`.
pub record Encoding : Type 0 where
  pub marshal : Value → Result Text
  pub marshal_indent : Value → Result Text
  pub sum256 : Text → Text

module _ (enc : Encoding) where
  -- `ArtifactFromBytes`
  unfoldable pub artifact_from_bytes : Text → Text → Artifact
  unfolding hex
  artifact_from_bytes name bytes = record {
    name = name;
    sha256 = hex (enc.sum256 bytes);
    size = length bytes;
  }

  unfoldable pub digest : Value → Result Text
  unfolding hex
  digest value = do bytes ← enc.marshal value; ok (hex (enc.sum256 bytes))
