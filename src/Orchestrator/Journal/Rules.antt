-- ===== src/Orchestrator/Journal/Rules.antt =====
-- Rules for the bodies of `Engine.Run`: what each way of calling an operation ensures.
use agent_orchestrator_publi.Base.{◌≡◌, sym, subst, ◌∙◌, Text}
use agent_orchestrator_publi.Base.Errors.{Error, Result, ok, err}
use agent_orchestrator_publi.Domain.Run.{EventType, failure, write_ambiguous}
use agent_orchestrator_publi.Runtime.{M}
use agent_orchestrator_publi.Store.{RunStore}
use agent_orchestrator_publi.Orchestrator.{
  Run, empty_run, transition_run, failed, recovery_required,
}
use agent_orchestrator_publi.Orchestrator.Exits.{
  Exit, going, left, kept, E, ◌>>=◌, bare, finally, unless_kept, or_failed, or_recovery,
}
use agent_orchestrator_publi.Orchestrator.Journal.{
  Ends, Journal, Recorded, Consistent, Quiet, Quiet-Consistent, Quiet-Recorded, Recorded-Consistent,
}
use agent_orchestrator_publi.Orchestrator.Journal.Keeps.{Keeps}
use agent_orchestrator_publi.Orchestrator.Journal.Steps.{
  Ensures, Ensures-bind, AfterTransition, transition_run-Recorded,
}

module _ {W : Type 0} {store : RunStore W Run} {id : Text} (j : Journal store id) where
  abbrev pub Holds : Run → {A : Type 0} → A → W → Type 0
  Holds run a w = Recorded j run w

  abbrev pub Moved : Run → Run → W → Type 0
  Moved run run' w = Recorded j run' w × (run'.id ≡ run.id) × (run'.evidence_dir ≡ run.evidence_dir)

  pub bare-Keeps :
      {A : Type 0} (m : M W A)
      → Keeps j m
      → (run : Run) (w : W) → Recorded j run w
      → Ensures j (Holds run) (bare m w)
  unfolding bare
  bare-Keeps {A} m k run w c = go (m w) (k.keeps run w c)
    where
      go :
          (r : Result A × W)
          → Recorded j run r.1
          → Ensures j {A = A}
              (Holds run)
              (elim r.0 [ ok a ↦ going a | err e ↦ left empty_run e ], r.1)
      go (ok a, w') c = c
      go (err e, w') c = Recorded-Consistent j run w' c

  pub bare-transition :
      (run : Run) (e : EventType) (w : W)
      → Recorded j run w
      → Ensures j (Moved run) (bare (transition_run store run e) w)
  unfolding bare
  bare-transition run e w c =
      go (transition_run store run e w) (transition_run-Recorded j run e w c)
    where
      go :
          (r : Result Run × W)
          → AfterTransition j run r
          → Ensures j (Moved run) (elim r.0 [ ok a ↦ going a | err e ↦ left empty_run e ], r.1)
      go (ok a, w') c = c
      go (err e, w') c = c

  AfterTransition-Consistent :
      (run : Run) (r : Result Run × W) → AfterTransition j run r → Consistent j r.1
  AfterTransition-Consistent run (ok run', w) c = Recorded-Consistent j run' w c.0
  AfterTransition-Consistent run (err x, w) c = c

  failed-Consistent :
      (run : Run) (e : Error) (w : W) → Recorded j run w → Consistent j (failed store run e w).1
  unfolding failed
  failed-Consistent run e w c =
      AfterTransition-Consistent run _ (transition_run-Recorded j run failure w c)

  recovery-Consistent :
      (run : Run) (dir : Text) (e : Error) (w : W)
      → Recorded j run w
      → Consistent j (recovery_required store run dir e w).1
  unfolding recovery_required
  recovery-Consistent run dir e w c =
      AfterTransition-Consistent (record run { recovery_workspace = dir }) _
        (transition_run-Recorded j (record run { recovery_workspace = dir }) write_ambiguous w
          (record { is_run = c.is_run; logged = c.logged; saved = c.saved }))

  pub or_failed-Keeps :
      {A : Type 0} (m : M W A)
      → Keeps j m
      → (run : Run) (w : W) → Recorded j run w
      → Ensures j (Holds run) (or_failed store run m w)
  unfolding or_failed
  or_failed-Keeps {A} m k run w c = go (m w) (k.keeps run w c)
    where
      go :
          (r : Result A × W)
          → Recorded j run r.1
          → Ensures j {A = A} (Holds run) (elim r.0 [
            | ok a ↦ (going a, r.1)
            | err e ↦ (
              left (failed store run e r.1).0.0 (failed store run e r.1).0.1,
              (failed store run e r.1).1,
            )
          ])
      go (ok a, w') c = c
      go (err e, w') c = failed-Consistent run e w' c

  pub or_recovery-Keeps :
      {A : Type 0} (m : M W A)
      → Keeps j m
      → (dir : Text) (run : Run) (w : W) → Recorded j run w
      → Ensures j (Holds run) (or_recovery store run dir m w)
  unfolding or_recovery
  or_recovery-Keeps {A} m k dir run w c = go (m w) (k.keeps run w c)
    where
      go :
          (r : Result A × W)
          → Recorded j run r.1
          → Ensures j {A = A} (Holds run) (elim r.0 [
            | ok a ↦ (going a, r.1)
            | err e ↦ (
              kept
                  (recovery_required store run dir e r.1).0.0
                  (recovery_required store run dir e r.1).0.1,
              (recovery_required store run dir e r.1).1,
            )
          ])
      go (ok a, w') c = c
      go (err e, w') c = recovery-Consistent run dir e w' c

  abbrev pub Final : Run → W → Type 0
  Final run w = Recorded j run w

  pub finally-Quiet :
      {B : Type 0} (cleanup : M W B) (m : E W Run)
      → Quiet j cleanup
      → (w : W) → Ensures j Final (m w)
      → Ensures j Final (finally cleanup m w)
  unfolding finally
  finally-Quiet cleanup m q w c = go (m w) c
    where
      go : (r : Exit Run × W) → Ensures j Final r → Ensures j Final (r.0, (cleanup r.1).1)
      go (going run, w') c = Quiet-Recorded j cleanup q run w' c
      go (left run e, w') c = Quiet-Consistent j cleanup q w' c
      go (kept run e, w') c = Quiet-Consistent j cleanup q w' c

  pub finally-Holds :
      {A B : Type 0} (cleanup : M W B) (m : E W A)
      → Quiet j cleanup
      → (run : Run) (w : W) → Ensures j (Holds run) (m w)
      → Ensures j (Holds run) (finally cleanup m w)
  unfolding finally
  finally-Holds {A} cleanup m q run w c = go (m w) c
    where
      go :
          (r : Exit A × W)
          → Ensures j (Holds run) r
          → Ensures j {A = A} (Holds run) (r.0, (cleanup r.1).1)
      go (going a, w') c = Quiet-Recorded j cleanup q run w' c
      go (left run' e, w') c = Quiet-Consistent j cleanup q w' c
      go (kept run' e, w') c = Quiet-Consistent j cleanup q w' c

  pub unless_kept-Quiet :
      {B : Type 0} (cleanup : M W B) (m : E W Run)
      → Quiet j cleanup
      → (w : W) → Ensures j Final (m w)
      → Ensures j Final (unless_kept cleanup m w)
  unfolding unless_kept
  unless_kept-Quiet cleanup m q w c = go (m w) c
    where
      go :
          (r : Exit Run × W)
          → Ensures j Final r
          → Ensures j Final (elim r.0 [
            | going a ↦ (going a, (cleanup r.1).1)
            | left run e ↦ (left run e, (cleanup r.1).1)
            | kept run e ↦ (kept run e, r.1)
          ])
      go (going run, w') c = Quiet-Recorded j cleanup q run w' c
      go (left run e, w') c = Quiet-Consistent j cleanup q w' c
      go (kept run e, w') c = c

  -- A quiet step, from a run that is recorded, and then the rest.
  module _ {A B : Type 0} (run : Run) (Q : B → W → Type 0) where
    pub bare_step :
        (m : M W A) (f : A → E W B) (w : W)
        → Recorded j run w
        → Keeps j m
        → ((a : A) (w' : W) → Recorded j run w' → Ensures j Q (f a w'))
        → Ensures j Q ((bare m >>= f) w)
    bare_step m f w c k = Ensures-bind j (Holds run) Q (bare m) f w (bare-Keeps m k run w c)

    pub failed_step :
        (m : M W A) (f : A → E W B) (w : W)
        → Recorded j run w
        → Keeps j m
        → ((a : A) (w' : W) → Recorded j run w' → Ensures j Q (f a w'))
        → Ensures j Q ((or_failed store run m >>= f) w)
    failed_step m f w c k =
        Ensures-bind j (Holds run) Q (or_failed store run m) f w (or_failed-Keeps m k run w c)

    pub recovery_step :
        (dir : Text) (m : M W A) (f : A → E W B) (w : W)
        → Recorded j run w
        → Keeps j m
        → ((a : A) (w' : W) → Recorded j run w' → Ensures j Q (f a w'))
        → Ensures j Q ((or_recovery store run dir m >>= f) w)
    recovery_step dir m f w c k =
        Ensures-bind j (Holds run) Q (or_recovery store run dir m) f w
          (or_recovery-Keeps m k dir run w c)

  pub transition_step :
      {B : Type 0} (run : Run) (Q : B → W → Type 0) (e : EventType) (f : Run → E W B) (w : W)
      → Recorded j run w
      → ((run' : Run) (w' : W) → Moved run run' w' → Ensures j Q (f run' w'))
      → Ensures j Q ((bare (transition_run store run e) >>= f) w)
  transition_step run Q e f w c =
      Ensures-bind j (Moved run) Q (bare (transition_run store run e)) f w
        (bare-transition run e w c)

  -- Fields other than the ID and the state do not matter to the record.
  pub Recorded-relabel :
      (run run' : Run) (w : W)
      → run'.id ≡ run.id
      → run'.state ≡ run.state
      → Recorded j run w
      → Recorded j run' w
  Recorded-relabel run run' w i s c = record {
    is_run = i ∙ c.is_run;
    logged = λ log l. subst (Ends log) (sym s) (c.logged log l);
    saved = (c.saved.0, c.saved.1, c.saved.2 ∙ sym s, c.saved.3);
  }

  pub Moved-Final : (run : Run) (r : Exit Run × W) → Ensures j (Moved run) r → Ensures j Final r
  Moved-Final run (going run', w) c = c.0
  Moved-Final run (left run' e, w) c = c
  Moved-Final run (kept run' e, w) c = c
