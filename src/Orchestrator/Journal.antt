-- ===== src/Orchestrator/Journal.antt =====
-- The log and the state file of one run, as the engine relies on them, and what it means that the
-- two agree. The log of a run can become unreadable (`none`) when a write to it is cut short.
pub mod Steps
pub mod Keeps
pub mod Rules
pub mod Confined
pub mod Lockable
pub mod OnDisk
use mathlib.Core.Option
use agent_orchestrator_publi.Base.{
  ◌≡◌, refl, sym, ◌∙◌, arith, ◌⊎◌, inl, inr, Bool, true, false, if◌then◌else◌, Option, none, some,
  List, [], ◌∷◌, ◌++◌, Text, text_eq,
}
use agent_orchestrator_publi.Base.Errors.{Error, Result, ok, err}
use agent_orchestrator_publi.Domain.Run.{
  RunState, created, EventType, event_text, preparation_started, implementation_started,
  implementation_finished, verification_finished, approved, rework_requested, rejection,
  cancellation, failure, write_ambiguous,
}
use agent_orchestrator_publi.Domain.Run.Graph.{replay}
use agent_orchestrator_publi.Runtime.{M}
use agent_orchestrator_publi.Store.{Event, Longer, RunStore}
use agent_orchestrator_publi.Orchestrator.{Run}

abbrev all_events : List EventType
all_events =
    preparation_started ∷ implementation_started ∷ implementation_finished ∷ verification_finished
    ∷ approved ∷ rework_requested ∷ rejection ∷ cancellation ∷ failure ∷ write_ambiguous ∷ []

event_named : Text → List EventType → Option EventType
event_named type [] = none
event_named type (e ∷ es) = if text_eq (event_text e) type then some e else event_named type es

-- The events of a log that `Transition` knows; the records of effects are left out.
unfoldable pub lifecycle : List Event → List EventType
unfolding event_named
lifecycle [] = []
lifecycle (e ∷ es) = elim (event_named e.type all_events) [
  | some t ↦ t ∷ lifecycle es
  | none ↦ lifecycle es
]

abbrev pub Ends : List Event → RunState → Type 0
Ends log s = replay created (lifecycle log) ≡ ok s

-- A state that the log leads to, or that all but its last event lead to.
abbrev pub InStep : List Event → RunState → Type 0
InStep log s =
    Ends log s ⊎ ((before : List Event) × (e : Event) × (log ≡ before ++ (e ∷ [])) × Ends before s)

-- One run in a store: its log and its state, and what the store's operations do to them. An
-- operation that fails may have had its effect or not. An event that is appended, by an operation
-- that succeeds too, may leave the log unreadable: where a line is too long, or where the line
-- before it was cut short.
pub record Journal {W : Type 0} (store : RunStore W Run) (id : Text) : Type 0 where
  pub log : W → Option (List Event)
  pub state : W → Option Run
  pub appended :
      (e : Event) (w w' : W)
      → store.append_event id e w ≡ (ok tt, w')
      → Longer e (log w) (log w') × (state w' ≡ state w)
  pub not_appended :
      (e : Event) (w w' : W) (x : Error)
      → store.append_event id e w ≡ (err x, w')
      → ((log w' ≡ log w) ⊎ Longer e (log w) (log w')) × (state w' ≡ state w)
  pub written :
      (r : Run) (w w' : W)
      → store.write_state id r w ≡ (ok tt, w')
      → (log w' ≡ log w) × (state w' ≡ some r)
  pub not_written :
      (r : Run) (w w' : W) (x : Error)
      → store.write_state id r w ≡ (err x, w')
      → (log w' ≡ log w) × ((state w' ≡ state w) ⊎ (state w' ≡ some r))

module _ {W : Type 0} {store : RunStore W Run} {id : Text} (j : Journal store id) where
  -- The log, where it can be read, and the state file both say what the run in memory says.
  pub record Recorded (run : Run) (w : W) : Type 0 where
    pub is_run : run.id ≡ id
    pub logged : (log : List Event) → j.log w ≡ some log → Ends log run.state
    pub saved : (r : Run) × (j.state w ≡ some r) × (r.state ≡ run.state) × (r.id ≡ id)

  -- The state file is never ahead of the log, and at most one event behind it.
  pub record Consistent (w : W) : Type 0 where
    pub in_step :
        (log : List Event) (r : Run) → j.log w ≡ some log → j.state w ≡ some r → InStep log r.state

  -- An operation that leaves the log and the state of the run alone.
  abbrev pub Quiet : {A : Type 0} → (W → A × W) → Type 0
  Quiet m = (w : W) → (j.log (m w).1 ≡ j.log w) × (j.state (m w).1 ≡ j.state w)

  pub Quiet-Consistent :
      {A : Type 0} (m : W → A × W) → Quiet m → (w : W) → Consistent w → Consistent (m w).1
  Quiet-Consistent m q w c = record {
    in_step = λ log r l s. c.in_step log r (sym (q w).0 ∙ l) (sym (q w).1 ∙ s);
  }

  pub Quiet-Recorded :
      {A : Type 0} (m : W → A × W)
      → Quiet m
      → (run : Run) (w : W) → Recorded run w
      → Recorded run (m w).1
  Quiet-Recorded m q run w c = record {
    is_run = c.is_run;
    logged = λ log l. c.logged log (sym (q w).0 ∙ l);
    saved = (c.saved.0, (q w).1 ∙ c.saved.1, c.saved.2, c.saved.3);
  }

  pub Recorded-Consistent : (run : Run) (w : W) → Recorded run w → Consistent w
  Recorded-Consistent run w c = record {
    in_step = λ log r l s. inl (ground (arith, c.logged log l));
  }
