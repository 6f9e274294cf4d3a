-- ===== src/Orchestrator/Journal/Keeps.antt =====
-- Operations after which the log and the state file still say what the run in memory says.
use mathlib.Core.Option
use mathlib.Core.List.{append-nil}
use agent_orchestrator_publi.Base.{
  ◌≡◌, refl, sym, ap, subst, ◌∙◌, arith, inl, inr, none, some, Option-cases, List, [], ◌∷◌, ◌++◌,
  Text,
}
use agent_orchestrator_publi.Base.Errors.{Result, ok, err}
use agent_orchestrator_publi.Runtime.{M}
use agent_orchestrator_publi.Store.{Event, Longer, RunStore}
use agent_orchestrator_publi.Orchestrator.{Run}
use agent_orchestrator_publi.Orchestrator.Journal.{
  lifecycle, Ends, Journal, Recorded, Quiet, Quiet-Recorded,
}
use agent_orchestrator_publi.Orchestrator.Journal.Steps.{lifecycle-append}

module _ {W : Type 0} {store : RunStore W Run} {id : Text} (j : Journal store id) where
  -- An operation after which the run is recorded as before, whatever it returns.
  pub record Keeps {A : Type 0} (m : M W A) : Type 0 where
    pub keeps : (run : Run) (w : W) → Recorded j run w → Recorded j run (m w).1

  pub Quiet-Keeps : {A : Type 0} (m : M W A) → Quiet j m → Keeps m
  Quiet-Keeps m q = record { keeps = λ run w c. Quiet-Recorded j m q run w c }

  append_kept :
      (e : Event)
      → lifecycle (e ∷ []) ≡ []
      → (run : Run) (w : W) → Recorded j run w
      → Recorded j run (store.append_event id e w).1
  append_kept e silent run w c = go (store.append_event id e w) refl
    where
      longer :
          (w' : W)
          → j.log w' ≡ Option.map (λ es. es ++ (e ∷ [])) (j.log w)
          → j.state w' ≡ j.state w
          → Recorded j run w'
      longer w' l s = record {
        is_run = c.is_run;
        logged = λ log f. elim (Option-cases (j.log w)) [
          | inl gone ↦
              let gone' : j.log w' ≡ none = l ∙ ap (Option.map (λ es. es ++ (e ∷ []))) gone in
              absurd (ground arith)
          | inr (old, found) ↦
              let more : j.log w' ≡ some (old ++ (e ∷ [])) =
                l ∙ ap (Option.map (λ es. es ++ (e ∷ []))) found in
              let same : old ++ (e ∷ []) ≡ log = ground arith in
              subst (λ (es : List Event). Ends es run.state) same
                (rw (lifecycle-append old (e ∷ []), silent, append-nil) (c.logged old found))
        ];
        saved = (c.saved.0, s ∙ c.saved.1, c.saved.2, c.saved.3);
      }

      grown : (w' : W) → Longer e (j.log w) (j.log w') → j.state w' ≡ j.state w → Recorded j run w'
      grown w' (inl l) s = longer w' l s
      grown w' (inr gone) s = record {
        is_run = c.is_run;
        logged = λ log f. absurd (ground arith);
        saved = (c.saved.0, s ∙ c.saved.1, c.saved.2, c.saved.3);
      }

      go : (r : Result (Unit {0}) × W) → store.append_event id e w ≡ r → Recorded j run r.1
      go (ok _, w') m = let (l, s) = j.appended e w w' m in grown w' l s
      go (err x, w') m =
          let (cases, s) = j.not_appended e w w' x m in
          elim cases [
            | inl same ↦ record {
              is_run = c.is_run;
              logged = λ log f. c.logged log (sym same ∙ f);
              saved = (c.saved.0, s ∙ c.saved.1, c.saved.2, c.saved.3);
            }
            | inr l ↦ grown w' l s
          ]

  -- An event that records an effect leaves the states that the log leads to.
  pub append-Keeps : (e : Event) → lifecycle (e ∷ []) ≡ [] → Keeps (store.append_event id e)
  append-Keeps e silent = record { keeps = append_kept e silent }
