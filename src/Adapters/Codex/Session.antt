-- ===== src/Adapters/Codex/Session.antt =====
-- The session of internal/adapters/codex/adapter.go: its goroutine, which computes the outcome, and
-- the calls of its methods, in any order of their steps.
pub mod Turns
pub mod Ends
use agent_orchestrator_publi.Base.{
  ℕ, ◌≡◌, Bool, true, false, ltb, if◌then◌else◌, Option, none, some, List, [], ◌∷◌, ◌++◌, Text,
  codes, length,
}
use agent_orchestrator_publi.Base.Errors.{Error, Result, ok, err}
use agent_orchestrator_publi.Adapters.{AdapterResult, AdapterEvent}

-- `adapters.Result{}`
abbrev pub no_result : AdapterResult
no_result = record {
  session_id = [];
  result_commit = [];
  structured_value = [];
  usage = record { input_tokens = 0; output_tokens = 0; wall_time = 0 };
}

abbrev pub Outcome : Type 0
Outcome = AdapterResult × Option Error

-- Where the goroutine is: at work up to the head that git names, about to send its last event, about
-- to set the outcome, in its deferred calls, which run from the last one to the first, or at its end.
pub data Place : Type 0 where
  working : Place
  notifying : AdapterResult → Place
  reporting : Outcome → Place
  closing_done closing_events removing finished : Place

-- `received` is what the caller has taken from the channel of events so far.
pub record SessionState : Type 0 where
  pub place : Place
  pub events : List AdapterEvent
  pub events_closed : Bool
  pub done_closed : Bool
  pub outcome : Outcome
  pub cancelled : Bool
  pub received : List AdapterEvent

-- What a turn of a goroutine does: it goes on, it waits, or a channel makes it panic.
pub data Turned : Type 0 where
  moved : SessionState → Turned
  waits : Turned
  panics : Turned

abbrev pub events_capacity : ℕ
events_capacity = 8

-- `events <- event`
unfoldable pub send : AdapterEvent → Place → SessionState → Turned
send event next s =
    if s.events_closed
    then panics
    else if ltb (length s.events) events_capacity
    then moved (record s { events = s.events ++ (event ∷ []); place = next })
    else waits

unfoldable pub close_done : SessionState → Turned
close_done s =
    if s.done_closed
    then panics
    else moved (record s { done_closed = true; place = closing_events })

unfoldable pub close_events : SessionState → Turned
close_events s =
    if s.events_closed then panics else moved (record s { events_closed = true; place = removing })

-- A turn of the caller: it takes an event, or cancels the session.
pub data Turn : Type 0 where
  works takes cancels : Turn

module _ (generation started_at finished_at : ℕ) where
  abbrev pub started_event : AdapterEvent
  started_event = record {
    type = codes "session_started";
    message = codes "Codex writer started";
    at = started_at;
    generation = generation;
  }

  abbrev pub finished_event : AdapterEvent
  finished_event = record {
    type = codes "session_finished";
    message = codes "Codex writer finished";
    at = finished_at;
    generation = generation;
  }

  -- The end of `Start`: the first event is sent before the goroutine is there.
  abbrev pub started : SessionState
  started = record {
    place = working;
    events = started_event ∷ [];
    events_closed = false;
    done_closed = false;
    outcome = (no_result, none);
    cancelled = false;
    received = [];
  }

  -- One step of `session.run`; its work comes to `work`.
  unfoldable pub go_on : Result AdapterResult → Place → SessionState → Turned
  unfolding send close_done close_events
  go_on (err e) working s = moved (record s { place = reporting (no_result, some e) })
  go_on (ok result) working s = moved (record s { place = notifying result })
  go_on work (notifying result) s = send finished_event (reporting (result, none)) s
  go_on work (reporting outcome) s = moved (record s { outcome = outcome; place = closing_done })
  go_on work closing_done s = close_done s
  go_on work closing_events s = close_events s
  go_on work removing s = moved (record s { place = finished })
  go_on work finished s = waits

  -- `<-session.Events()`, where there is an event.
  unfoldable pub take_event : List AdapterEvent → SessionState → Turned
  take_event [] s = waits
  take_event (event ∷ events) s =
      moved (record s { events = events; received = s.received ++ (event ∷ []) })

  unfoldable pub turn : Result AdapterResult → Turn → SessionState → Turned
  unfolding go_on take_event
  turn work works s = go_on work s.place s
  turn work takes s = take_event s.events s
  turn work cancels s = moved (record s { cancelled = true })

  -- What a list of turns comes to, unless one panics; who has to wait passes the turn on.
  unfoldable pub play : Result AdapterResult → List Turn → SessionState → Option SessionState
  unfolding turn
  play work [] s = some s
  play work (t ∷ turns) s = elim (turn work t s) [
    | moved s' ↦ play work turns s'
    | waits ↦ play work turns s
    | panics ↦ none
  ]

-- `Wait`: of the cases of its `select` that are ready, either one is taken.
pub data Waited (context_error : Option Error) (s : SessionState) : Outcome → Type 0 where
  by_done : {out : Outcome} → s.done_closed ≡ true → out ≡ s.outcome → Waited context_error s out
  by_context :
      {e : Error} {out : Outcome}
      → context_error ≡ some e
      → out ≡ (no_result, some e)
      → Waited context_error s out

-- What the work comes to as an outcome.
abbrev pub outcome_of : Result AdapterResult → Outcome
outcome_of (ok result) = (result, none)
outcome_of (err e) = (no_result, some e)
