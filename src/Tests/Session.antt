-- ===== src/Tests/Session.antt =====
-- A session in which the turns of the goroutine and of the caller alternate.
use agent_orchestrator_publi.Base.{
  ◌≤◌, ◌≡◌, refl, true, Option, none, some, List, [], ◌∷◌, ◌++◌, length, codes, arith, ◌⊎◌,
}
use agent_orchestrator_publi.Base.Errors.{Error, Result, ok}
use agent_orchestrator_publi.Adapters.{AdapterResult}
use agent_orchestrator_publi.Adapters.Codex.Session
use agent_orchestrator_publi.Adapters.Codex.Session.{
  no_result, Outcome, finished, SessionState, waits, Turn, works, takes, cancels, started, turn,
  play, Waited, by_done, outcome_of,
}
use agent_orchestrator_publi.Adapters.Codex.Session.Turns.{all_sent}
use agent_orchestrator_publi.Adapters.Codex.Session.Ends.{play-bounds, play-ends, Waited-outcome}

abbrev result : AdapterResult
result = record no_result { session_id = codes "s"; result_commit = codes "b" }

abbrev work : Result AdapterResult
work = ok result

abbrev order : List Turn
order = works ∷ takes ∷ works ∷ takes ∷ cancels ∷ works ∷ works ∷ takes ∷ works ∷ works ∷ takes ∷ []

-- The session before its last turn of the goroutine.
abbrev last : SessionState
last = record {
  place = finished;
  events = [];
  events_closed = true;
  done_closed = true;
  outcome = (result, none);
  cancelled = true;
  received = all_sent 3 7 9 work;
}

plays : play 3 7 9 work order (started 3 7 9) ≡ some last
unfolding play turn Session.go_on Session.take_event Session.send Session.close_done
    Session.close_events
plays = refl

play-bounds_example :
    (s : SessionState) × (play 3 7 9 work order (started 3 7 9) ≡ some s)
    × (length s.events ≤ 2)
    × (turn 3 7 9 work works s ≡ waits → s.place ≡ finished)
play-bounds_example = play-bounds 3 7 9 work order

play-ends_example :
    (s : SessionState) × (play 3 7 9 work order (started 3 7 9) ≡ some s)
    × (s.done_closed ≡ true)
    × (s.events_closed ≡ true)
    × (s.outcome ≡ outcome_of work)
    × (s.received ++ s.events ≡ all_sent 3 7 9 work)
play-ends_example = play-ends 3 7 9 work order (omega arith)

abbrev reported : Outcome
reported = (result, none)

abbrev no_error : Option Error
no_error = none

Waited-outcome_example :
    (reported ≡ outcome_of work)
    ⊎ ((e : Error) × (no_error ≡ some e) × (reported ≡ (no_result, some e)))
Waited-outcome_example = Waited-outcome 3 7 9 work order last no_error plays (by_done refl refl)
