-- ===== src/Orchestrator/Decide/Stale.antt =====
-- Two decisions on one run. `Decide` reads the run before it takes the lock, and does not read it
-- again, so a second decision can be recorded after the first one has ended the run.
use mathlib.Core.Option
use mathlib.Core.Option.{some-injective, none-ne-some}
use agent_orchestrator_publi.Base.{
  ℕ, ◌≡◌, refl, sym, ap, subst, ◌∙◌, inl, inr, Option, some, List, [], ◌∷◌, ◌++◌, Text, true, arith,
}
use agent_orchestrator_publi.Base.Errors.{ok, Result-cases}
use agent_orchestrator_publi.Domain.Run.{
  RunState, created, awaiting_approval, completed, approve, Approval, EventType, approved,
  transition, is_terminal,
}
use agent_orchestrator_publi.Domain.Run.Graph.{replay}
use agent_orchestrator_publi.Runtime.{pure, lift, ◌>>◌, >>=-ok}
use agent_orchestrator_publi.Store.{Event, Longer, RunStore}
use agent_orchestrator_publi.Orchestrator.{Run, event_of, transition_run}
use agent_orchestrator_publi.Orchestrator.Decide.{judge, decide_recorded}
use agent_orchestrator_publi.Orchestrator.Decide.Binding.{verdict, decide_recorded-IsBinding}
use agent_orchestrator_publi.Orchestrator.Journal.{lifecycle, Ends, Journal, Recorded}
use agent_orchestrator_publi.Orchestrator.Journal.Steps.{
  lifecycle-append, lifecycle_event, Ends-append,
}

-- After a terminal state there is no further transition.
no_more :
    (c s t : RunState) (es : List EventType) (e : EventType)
    → replay c es ≡ ok s
    → is_terminal s ≡ true
    → replay c (es ++ (e ∷ [])) ≡ ok t
    → ⊥
unfolding replay transition
no_more c s t [] e h k r = ground arith
no_more c s t (f ∷ es) e h k r = elim (Result-cases (transition c f)) [
  | inl (v, step) ↦ no_more v s t es e (rw step at h) k (rw step at r)
  | inr (x, stop) ↦ absurd (ground arith)
]

module _ {W : Type 0} {store : RunStore W Run} {id : Text} (j : Journal store id) where
  -- What a transition that succeeds leaves in the log and the state file.
  transition_run-files :
      (run : Run) (e : EventType) (w : W) {run' : Run} {w' : W}
      → run.id ≡ id
      → transition_run store run e w ≡ (ok run', w')
      → Longer (event_of e run.generation) (j.log w) (j.log w') × (j.state w' ≡ some run')
  unfolding transition_run
  transition_run-files run e w {run'} {w'} same h =
      let moved = λ (s : RunState). record run { state = s } in
      let event = event_of e run.generation in
      let (s, w₁, t, h₁) =
        >>=-ok (lift (transition run.state e))
          (λ s.
            store.append_event run.id event
            >> (store.write_state run.id (moved s) >> pure (moved s)))
          w h in
      let (_, w₂, a, h₂) =
        >>=-ok (store.append_event run.id event)
          (λ _. store.write_state run.id (moved s) >> pure (moved s)) w₁ h₁ in
      let (_, w₃, b, h₃) =
        >>=-ok (store.write_state run.id (moved s)) (λ _. pure (moved s)) w₂ h₂ in
      let (l₁, s₁) =
        j.appended event w₁ w₂ (subst (λ i. store.append_event i event w₁ ≡ (ok tt, w₂)) same a) in
      let (l₂, s₂) =
        j.written (moved s) w₂ w₃
          (subst (λ i. store.write_state i (moved s) w₂ ≡ (ok tt, w₃)) same b) in
      let start : w₁ ≡ w = ground arith in
      let last : w₃ ≡ w' = ground arith in
      let new : moved s ≡ run' = ground arith in
      (
        subst (λ o. Longer event (j.log w) o) (sym l₂ ∙ ap j.log last)
            (subst (λ v. Longer event (j.log v) (j.log w₂)) start l₁),
        ap j.state (sym last) ∙ s₂ ∙ ap some new,
      )

  judged :
      (asked : Text) (run : Run) (a : Approval) (w : W) {run' : Run} {w' : W}
      → decide_recorded store asked run a w ≡ (ok run', w')
      → (e : EventType) × (judge asked run a ≡ ok e)
        × (transition_run store run e w ≡ (ok run', w'))
  unfolding decide_recorded
  judged asked run a w h = elim (Result-cases (judge asked run a)) [
    | inl (e, j) ↦ (e, j, ground arith)
    | inr (x, j) ↦ absurd (ground arith)
  ]

  approves :
      (asked : Text) (run : Run) (a : Approval) {e : EventType}
      → a.decision ≡ approve
      → judge asked run a ≡ ok e
      → e ≡ approved
  unfolding judge
  approves asked run a d h = ground arith

  -- Two deciders have read the same run, which the log and the state file agree on, and decide one
  -- after the other, the first to approve. If both return without an error, then the state file
  -- holds the run in the state that the second decision stands for, and the log, where it can be
  -- read, is no history of `Transition`: it has an event after the one that completed the run.
  pub decide_recorded-stale :
      (asked : Text) (run : Run) (a b : Approval) (w : W) {run₁ run₂ : Run} {w₁ w₂ : W}
      (log : List Event)
      → Recorded j run w
      → j.log w ≡ some log
      → a.decision ≡ approve
      → decide_recorded store asked run a w ≡ (ok run₁, w₁)
      → decide_recorded store asked run b w₁ ≡ (ok run₂, w₂)
      → (j.state w₂ ≡ some run₂)
        × (run₂.state ≡ verdict b.decision awaiting_approval)
        × ((log' : List Event) (s : RunState) → j.log w₂ ≡ some log' → ¬ Ends log' s)
  unfolding is_terminal
  decide_recorded-stale asked run a b w log c found ap_a first second =
      let (wait, bind₁, new₁) = decide_recorded-IsBinding store asked run a w first in
      let (_, bind₂, new₂) = decide_recorded-IsBinding store asked run b _ second in
      let (e₁, j₁, t₁) = judged asked run a w first in
      let (e₂, j₂, t₂) = judged asked run b _ second in
      let (l₁, s₁) = transition_run-files run e₁ w c.is_run t₁ in
      let (l₂, s₂) = transition_run-files run e₂ _ c.is_run t₂ in
      let g = run.generation in
      let ends : Ends (log ++ (event_of e₁ g ∷ [])) completed =
        Ends-append log e₁ g (c.logged log found) (completes wait (approves asked run a ap_a j₁)) in
      (
        s₂,
        ap (λ r. r.state) new₂ ∙ ap (verdict b.decision) wait,
        λ log' s l e.
            no_more created completed s (lifecycle (log ++ (event_of e₁ g ∷ []))) e₂ ends refl (
              append_back (log ++ (event_of e₁ g ∷ [])) e₂ g s (
                subst (λ (es : List Event). Ends es s)
                  (logs (event_of e₁ g) (event_of e₂ g) l₁ l₂ l) e)),
      )
    where
      completes :
          {s : RunState} {e : EventType}
          → s ≡ awaiting_approval
          → e ≡ approved
          → transition s e ≡ ok completed
      completes p q = unfold transition in ground arith

      append_back :
          (es : List Event) (e : EventType) (g : ℕ) (s : RunState)
          → Ends (es ++ (event_of e g ∷ [])) s
          → replay created (lifecycle es ++ (e ∷ [])) ≡ ok s
      append_back es e g s h =
          rw (lifecycle-append es (event_of e g ∷ []), lifecycle_event e g) at h

      logs :
          (x y : Event) {o₁ o₂ : Option (List Event)} {log' : List Event}
          → Longer x (j.log w) o₁
          → Longer y o₁ o₂
          → o₂ ≡ some log'
          → log' ≡ (log ++ (x ∷ [])) ++ (y ∷ [])
      logs x y (inl p) (inl q) r = some-injective _ _ (
          sym r
          ∙ q
          ∙ ap (Option.map (λ es. es ++ (y ∷ [])))
              (p ∙ ap (Option.map (λ es. es ++ (x ∷ []))) found))
      logs x y (inr gone) (inl q) r =
          absurd (none-ne-some _ (sym (ap (Option.map (λ es. es ++ (y ∷ []))) gone) ∙ sym q ∙ r))
      logs x y p (inr gone) r = absurd (none-ne-some _ (sym gone ∙ r))
