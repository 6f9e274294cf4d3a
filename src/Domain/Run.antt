-- ===== src/Domain/Run.antt =====
-- internal/domain/run.go: the states of a run, its events, and the approval of a human.
pub mod Graph
pub mod History
pub mod Approvals
use agent_orchestrator_publi.Base.{
  ℕ, Bool, true, false, not, ◌&&◌, ◌||◌, if◌then◌else◌, Option, none, some, Text, codes, text_eq,
  is_empty,
}
use agent_orchestrator_publi.Base.Errors.{
  Result, ok, err, ◌>>=◌, ◌>>◌, refuse_if, require, state_terminal, invalid_transition,
  actor_required, time_required, unknown_decision, task_digest_mismatch, packet_digest_mismatch,
}
use agent_orchestrator_publi.FilePath.Space.{is_blank}

-- A `RunState` is a string: one of the constants, or what a state file says in their place.
pub data RunState : Type 0 where
  created preparing implementing verifying awaiting_approval reworking : RunState
  completed rejected failed canceled recovery_required : RunState
  other_state : Text → RunState

abbrev pub state_text : RunState → Text
state_text created = codes "CREATED"
state_text preparing = codes "PREPARING"
state_text implementing = codes "IMPLEMENTING"
state_text verifying = codes "VERIFYING"
state_text awaiting_approval = codes "AWAITING_APPROVAL"
state_text reworking = codes "REWORKING"
state_text completed = codes "COMPLETED"
state_text rejected = codes "REJECTED"
state_text failed = codes "FAILED"
state_text canceled = codes "CANCELED"
state_text recovery_required = codes "RECOVERY_REQUIRED"
state_text (other_state s) = s

pub data HumanDecision : Type 0 where
  approve request_rework reject cancel : HumanDecision
  other_decision : Text → HumanDecision

-- `At` is a time, or the zero time.
pub record Approval : Type 0 where
  pub actor : Text
  pub decision : HumanDecision
  pub task_digest : Text
  pub decision_packet_digest : Text
  pub at : Option ℕ

-- The declared constants of type `EventType`. Every call of `Transition` passes one of them.
pub data EventType : Type 0 where
  preparation_started implementation_started implementation_finished : EventType
  verification_finished approved rework_requested rejection cancellation failure : EventType
  write_ambiguous : EventType

abbrev pub event_text : EventType → Text
event_text preparation_started = codes "preparation_started"
event_text implementation_started = codes "implementation_started"
event_text implementation_finished = codes "implementation_finished"
event_text verification_finished = codes "verification_finished"
event_text approved = codes "approved"
event_text rework_requested = codes "rework_requested"
event_text rejection = codes "rejected"
event_text cancellation = codes "canceled"
event_text failure = codes "failed"
event_text write_ambiguous = codes "write_ambiguous"

-- The map `transitions`.
unfoldable pub transitions : RunState → EventType → Option RunState
transitions created preparation_started = some preparing
transitions preparing implementation_started = some implementing
transitions implementing implementation_finished = some verifying
transitions verifying verification_finished = some awaiting_approval
transitions awaiting_approval approved = some completed
transitions awaiting_approval rework_requested = some reworking
transitions awaiting_approval rejection = some rejected
transitions reworking implementation_started = some implementing
transitions _ _ = none

unfoldable pub is_terminal : RunState → Bool
is_terminal completed = true
is_terminal rejected = true
is_terminal failed = true
is_terminal canceled = true
is_terminal recovery_required = true
is_terminal _ = false

-- The lookup at the end of `Transition`.
unfoldable pub table_transition : RunState → EventType → Result RunState
unfolding transitions
table_transition current event = elim (transitions current event) [
  | some next ↦ ok next
  | none ↦ err (invalid_transition (state_text current) (event_text event))
]

-- The three events that every state which is not terminal takes, then the table.
unfoldable pub live_transition : RunState → EventType → Result RunState
unfolding table_transition
live_transition current cancellation = ok canceled
live_transition current failure = ok failed
live_transition current write_ambiguous = ok recovery_required
live_transition current event = table_transition current event

-- `Transition`; on an error the Go function also returns `current`, which no caller reads.
unfoldable pub transition : RunState → EventType → Result RunState
unfolding is_terminal live_transition
transition current event =
    if is_terminal current
    then err (state_terminal (state_text current))
    else live_transition current event

unfoldable pub validate_decision : HumanDecision → Result (Unit {0})
validate_decision (other_decision s) = err (unknown_decision s)
validate_decision approve = ok tt
validate_decision request_rework = ok tt
validate_decision reject = ok tt
validate_decision cancel = ok tt

abbrev is_zero_time : Option ℕ → Bool
is_zero_time none = true
is_zero_time (some _) = false

unfoldable pub validate_approval : Approval → Text → Text → Result (Unit {0})
unfolding validate_decision text_eq
validate_approval approval expected_task expected_packet = do
  refuse_if (is_blank approval.actor) actor_required
  refuse_if (is_zero_time approval.at) time_required
  validate_decision approval.decision
  refuse_if (is_empty approval.task_digest || not (text_eq approval.task_digest expected_task))
      task_digest_mismatch
  refuse_if
      (is_empty approval.decision_packet_digest
        || not (text_eq approval.decision_packet_digest expected_packet))
      packet_digest_mismatch
