-- ===== src/Domain/Run/Graph.antt =====
-- The diagram of `transitions` with the three events that leave every live state, and the
-- histories that end in COMPLETED.
use agent_orchestrator_publi.Base.{ℕ, zero, suc, ◌≡◌, ◌≢◌, true, false, List, [], ◌∷◌, arith}
use agent_orchestrator_publi.Base.Errors.{Result, ok, ◌>>=◌}
use agent_orchestrator_publi.Domain.Run.{
  RunState, created, preparing, implementing, verifying, awaiting_approval, reworking, completed,
  rejected, failed, canceled, recovery_required, EventType, preparation_started,
  implementation_started, implementation_finished, verification_finished, approved,
  rework_requested, rejection, cancellation, failure, write_ambiguous, transition, is_terminal,
}

-- `Edge s e t`: in state `s` the event `e` leads to `t`.
pub data Edge : RunState → EventType → RunState → Type 0 where
  prepare : Edge created preparation_started preparing
  implement : Edge preparing implementation_started implementing
  finish : Edge implementing implementation_finished verifying
  verify : Edge verifying verification_finished awaiting_approval
  accept : Edge awaiting_approval approved completed
  rework : Edge awaiting_approval rework_requested reworking
  refuse : Edge awaiting_approval rejection rejected
  again : Edge reworking implementation_started implementing
  stop : {s : RunState} → is_terminal s ≡ false → Edge s cancellation canceled
  fail : {s : RunState} → is_terminal s ≡ false → Edge s failure failed
  doubt : {s : RunState} → is_terminal s ≡ false → Edge s write_ambiguous recovery_required

ruleset edges =
    (prepare, implement, finish, verify, accept, rework, refuse, again, stop, fail, doubt)

-- The states that a list of events leads through, as `Transition` takes them one by one.
unfoldable pub replay : RunState → List EventType → Result RunState
replay s [] = ok s
replay s (e ∷ es) = transition s e >>= λ t. replay t es

-- A terminal state takes no further event.
pub replay_terminal :
    (s : RunState) (e : EventType) (es : List EventType) (t : RunState)
    → is_terminal s ≡ true
    → replay s (e ∷ es) ≢ ok t
unfolding replay transition
replay_terminal s e es t h r = ground arith

abbrev round : List EventType → List EventType
round es = implementation_started ∷ implementation_finished ∷ verification_finished ∷ es

-- `n` rounds that a human sent back, and one more, with an approval at the end.
abbrev pub approved_after : ℕ → List EventType
approved_after zero = round (approved ∷ [])
approved_after (suc n) = round (rework_requested ∷ approved_after n)
