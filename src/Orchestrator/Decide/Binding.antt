-- ===== src/Orchestrator/Decide/Binding.antt =====
-- A decision that is recorded binds the run that was read, and the packet that was approved.
use agent_orchestrator_publi.Base.{◌≡◌, inl, inr, arith, ap, ◌∙◌, Text}
use agent_orchestrator_publi.Base.Errors.{ok, Result-cases}
use agent_orchestrator_publi.Domain.Run.{
  RunState, awaiting_approval, reworking, completed, rejected, canceled, HumanDecision, approve,
  request_rework, reject, cancel, other_decision, Approval, EventType, validate_approval,
  transition,
}
use agent_orchestrator_publi.Domain.Run.Approvals.{IsBinding, validate_approval-IsBinding}
use agent_orchestrator_publi.Store.{RunStore}
use agent_orchestrator_publi.Orchestrator.{Run, transition_run}
use agent_orchestrator_publi.Orchestrator.Execute.Concluded.Phases.{transition_run-ok}
use agent_orchestrator_publi.Orchestrator.Decide.{judge, decide_recorded}

-- What a human decided.
abbrev pub verdict : HumanDecision → RunState → RunState
verdict approve s = completed
verdict request_rework s = reworking
verdict reject s = rejected
verdict cancel s = canceled
verdict (other_decision _) s = s

judge-ok :
    (asked : Text) (run : Run) (a : Approval) {e : EventType} {s : RunState}
    → judge asked run a ≡ ok e
    → transition run.state e ≡ ok s
    → (run.state ≡ awaiting_approval)
      × (validate_approval a run.task_digest run.decision_packet_digest ≡ ok tt)
      × (s ≡ verdict a.decision run.state)
unfolding judge transition
judge-ok asked run a h t = ground arith

-- A decision that `Decide` records was taken on a run that awaited approval, by an approval that
-- binds the run's two digests, and moves the run to the state that the decision stands for,
-- leaving all else in it alone.
pub decide_recorded-IsBinding :
    {W : Type 0} (store : RunStore W Run) (asked : Text) (run : Run) (a : Approval) (w : W)
    {run' : Run} {w' : W}
    → decide_recorded store asked run a w ≡ (ok run', w')
    → (run.state ≡ awaiting_approval)
      × IsBinding a run.task_digest run.decision_packet_digest
      × (run' ≡ record run { state = verdict a.decision run.state })
unfolding decide_recorded
decide_recorded-IsBinding store asked run a w {run'} {w'} h =
    elim (Result-cases (judge asked run a)) [
      | inl (e, judged) ↦
          let step : transition_run store run e w ≡ (ok run', w') = ground arith in
          let (s, t, new) = transition_run-ok store run e w step in
          let (waiting, valid, there) = judge-ok asked run a judged t in
          (
            waiting,
            (validate_approval-IsBinding a _ _).0 valid,
            new ∙ ap (λ s. record run { state = s }) there,
          )
      | inr (x, refused) ↦ absurd (ground arith)
    ]
