-- ===== src/Domain/Run/Approvals.antt =====
-- What an accepted approval says.
use agent_orchestrator_publi.Base.{◌≡◌, ◌≢◌, ◌↔◌, ◌⊎◌, false, none, Text, [], text_eq_iff, arith}
use agent_orchestrator_publi.Base.Errors.{ok}
use agent_orchestrator_publi.FilePath.Space.{is_blank}
use agent_orchestrator_publi.Domain.Run.{
  HumanDecision, approve, request_rework, reject, cancel, Approval, validate_approval,
}

abbrev pub IsDecision : HumanDecision → Type 0
IsDecision d = (d ≡ approve) ⊎ ((d ≡ request_rework) ⊎ ((d ≡ reject) ⊎ (d ≡ cancel)))

pub record IsBinding (a : Approval) (task_digest packet_digest : Text) : Type 0 where
  pub by_someone : is_blank a.actor ≡ false
  pub dated : a.at ≢ none
  pub decided : IsDecision a.decision
  pub of_task : a.task_digest ≡ task_digest
  pub of_packet : a.decision_packet_digest ≡ packet_digest
  pub task_named : task_digest ≢ []
  pub packet_named : packet_digest ≢ []

IsBinding-of_validate :
    (a : Approval) (t p : Text) → validate_approval a t p ≡ ok tt → IsBinding a t p
unfolding validate_approval
IsBinding-of_validate a t p h =
    ground (arith, text_eq_iff a.task_digest t, text_eq_iff a.decision_packet_digest p)

validate_of_IsBinding :
    (a : Approval) (t p : Text) → IsBinding a t p → validate_approval a t p ≡ ok tt
unfolding validate_approval
validate_of_IsBinding a t p h =
    ground (arith, text_eq_iff a.task_digest t, text_eq_iff a.decision_packet_digest p)

-- `ValidateApproval` accepts an approval exactly if it has an actor that is not blank, a time and
-- one of the four decisions, and carries the two digests that are expected, neither of them empty.
pub validate_approval-IsBinding :
    (a : Approval) (t p : Text) → (validate_approval a t p ≡ ok tt) ↔ IsBinding a t p
validate_approval-IsBinding a t p = (IsBinding-of_validate a t p, validate_of_IsBinding a t p)
