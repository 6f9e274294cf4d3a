-- ===== src/Orchestrator/Journal/Steps.antt =====
-- Each kind of step of the engine keeps the log and the state of its run together.
use mathlib.Core.Option
use agent_orchestrator_publi.Base.{
  ℕ, ◌≡◌, refl, sym, ap, subst, ◌∙◌, arith, inl, inr, none, some, Option-cases, List, [], ◌∷◌, ◌++◌,
  Text, text_eq,
}
use agent_orchestrator_publi.Base.Errors.{Result, ok, err, Result-cases}
use agent_orchestrator_publi.Domain.Run.{
  RunState, created, EventType, preparation_started, transition,
}
use agent_orchestrator_publi.Domain.Run.Graph.{replay}
use agent_orchestrator_publi.Store.{Event, Longer, RunStore}
use agent_orchestrator_publi.Orchestrator.{Run, event_of, transition_run}
use agent_orchestrator_publi.Orchestrator.Exits.{Exit, going, left, kept, E, ◌>>=◌}
use agent_orchestrator_publi.Orchestrator.Journal.{
  lifecycle, Ends, Journal, Recorded, Consistent, Recorded-Consistent,
}

pub lifecycle-append : (xs ys : List Event) → lifecycle (xs ++ ys) ≡ lifecycle xs ++ lifecycle ys
unfolding lifecycle
lifecycle-append [] ys = refl
lifecycle-append (x ∷ xs) ys = ground (arith, lifecycle-append xs ys)

pub lifecycle_event : (e : EventType) (g : ℕ) → lifecycle (event_of e g ∷ []) ≡ e ∷ []
unfolding lifecycle text_eq
lifecycle_event preparation_started g = refl
lifecycle_event _ g = refl

replay-append_one :
    (s : RunState) (es : List EventType) (e : EventType) {t u : RunState}
    → replay s es ≡ ok t
    → transition t e ≡ ok u
    → replay s (es ++ (e ∷ [])) ≡ ok u
unfolding replay
replay-append_one s [] e h k = ground arith
replay-append_one s (f ∷ es) e h k = elim (Result-cases (transition s f)) [
  | inl (v, step) ↦ rw step (replay-append_one v es e (ground arith) k)
  | inr (x, stop) ↦ absurd (ground arith)
]

pub Ends-append :
    (log : List Event) (e : EventType) (g : ℕ) {t u : RunState}
    → Ends log t
    → transition t e ≡ ok u
    → Ends (log ++ (event_of e g ∷ [])) u
Ends-append log e g h k =
    rw (lifecycle-append log (event_of e g ∷ []), lifecycle_event e g)
      (replay-append_one created (lifecycle log) e h k)

module _ {W : Type 0} {store : RunStore W Run} {id : Text} (j : Journal store id) where
  -- What is known after a body: `P` where it goes on, and that the files agree where it returns.
  abbrev pub Ensures : {A : Type 0} → (A → W → Type 0) → Exit A × W → Type 0
  Ensures P (going a, w) = P a w
  Ensures P (left run e, w) = Consistent j w
  Ensures P (kept run e, w) = Consistent j w

  pub Ensures-bind :
      {A B : Type 0} (P : A → W → Type 0) (Q : B → W → Type 0) (m : E W A) (f : A → E W B) (w : W)
      → Ensures P (m w)
      → ((a : A) (w' : W) → P a w' → Ensures Q (f a w'))
      → Ensures Q ((m >>= f) w)
  unfolding ◌>>=◌
  Ensures-bind {A} P Q m f w h k = go (m w) h
    where
      go :
          (r : Exit A × W)
          → Ensures P r
          → Ensures Q (elim r.0 [
            | going a ↦ f a r.1
            | left run e ↦ (left run e, r.1)
            | kept run e ↦ (kept run e, r.1)
          ])
      go (going a, w') p = k a w' p
      go (left run e, w') p = p
      go (kept run e, w') p = p

  -- After a transition: the run with its new state, or files that agree.
  abbrev pub AfterTransition : Run → Result Run × W → Type 0
  AfterTransition run (ok run', w) =
      Recorded j run' w × (run'.id ≡ run.id) × (run'.evidence_dir ≡ run.evidence_dir)
  AfterTransition run (err x, w) = Consistent j w

  Recorded-saved :
      (run : Run) (w : W) → Recorded j run w → (r : Run) → j.state w ≡ some r → r.state ≡ run.state
  Recorded-saved run w c r e = ground (arith, c.saved)

  module _ (run : Run) (next : RunState) where
    abbrev moved : Run
    moved = record run { state = next }

    after_write :
        (w : W) (r : Result (Unit {0}) × W)
        → run.id ≡ id
        → store.write_state run.id moved w ≡ r
        → ((log : List Event) → j.log w ≡ some log → Ends log next)
        → Consistent j w
        → AfterTransition run (elim r.0 [ ok _ ↦ (ok moved, r.1) | err x ↦ (err x, r.1) ])
    after_write w (ok _, w') same m logged behind =
        let (l, s) =
          j.written moved w w' (subst (λ i. store.write_state i moved w ≡ (ok tt, w')) same m) in
        (
          record {
            is_run = same;
            logged = λ log e. logged log (sym l ∙ e);
            saved = (moved, s, refl, same);
          },
          refl,
          refl,
        )
    after_write w (err x, w') same m logged behind =
        let (l, cases) =
          j.not_written moved w w' x
            (subst (λ i. store.write_state i moved w ≡ (err x, w')) same m) in
        record {
          in_step = λ log r e f. elim cases [
            | inl old ↦ behind.in_step log r (sym l ∙ e) (sym old ∙ f)
            | inr new ↦
                let now : r.state ≡ next = ground arith in
                inl (subst (Ends log) (sym now) (logged log (sym l ∙ e)))
          ];
        }

    -- The log has the event, and the state file is still as it was.
    behind_exactly :
        (e : EventType) (g : ℕ) (w w' : W)
        → Recorded j run w
        → transition run.state e ≡ ok next
        → j.log w' ≡ Option.map (λ es. es ++ (event_of e g ∷ [])) (j.log w)
        → j.state w' ≡ j.state w
        → Consistent j w' × ((log : List Event) → j.log w' ≡ some log → Ends log next)
    behind_exactly e g w w' c t l s = elim (Option-cases (j.log w)) [
      | inl gone ↦
          let gone' : j.log w' ≡ none =
            l ∙ ap (Option.map (λ es. es ++ (event_of e g ∷ []))) gone in
          (record { in_step = λ log r f h. absurd (ground arith) }, λ log f. absurd (ground arith))
      | inr (old, found) ↦
          let longer : j.log w' ≡ some (old ++ (event_of e g ∷ [])) =
            l ∙ ap (Option.map (λ es. es ++ (event_of e g ∷ []))) found in
          (
            record {
              in_step = λ log r f h.
                  let same = Recorded-saved run w c r (sym s ∙ h) in
                  inr (
                    old,
                    event_of e g,
                    ground arith,
                    subst (Ends old) (sym same) (c.logged old found),
                  );
            },
            λ log f.
                let same : old ++ (event_of e g ∷ []) ≡ log = ground arith in
                subst (λ (es : List Event). Ends es next) same
                  (Ends-append old e g (c.logged old found) t),
          )
    ]

    behind_by_one :
        (e : EventType) (g : ℕ) (w w' : W)
        → Recorded j run w
        → transition run.state e ≡ ok next
        → Longer (event_of e g) (j.log w) (j.log w')
        → j.state w' ≡ j.state w
        → Consistent j w' × ((log : List Event) → j.log w' ≡ some log → Ends log next)
    behind_by_one e g w w' c t (inl l) s = behind_exactly e g w w' c t l s
    behind_by_one e g w w' c t (inr gone) s =
        (record { in_step = λ log r f h. absurd (ground arith) }, λ log f. absurd (ground arith))

    unchanged :
        (w w' : W)
        → Recorded j run w
        → j.log w' ≡ j.log w
        → j.state w' ≡ j.state w
        → Consistent j w'
    unchanged w w' c l s = record {
      in_step = λ log r e f. inl (
          subst (Ends log) (sym (Recorded-saved run w c r (sym s ∙ f))) (c.logged log (sym l ∙ e)));
    }

    after_append :
        (e : EventType) (w : W) (r : Result (Unit {0}) × W)
        → Recorded j run w
        → transition run.state e ≡ ok next
        → store.append_event run.id (event_of e run.generation) w ≡ r
        → AfterTransition run (elim r.0 [
          | ok _ ↦ elim (store.write_state run.id moved r.1).0 [
            | ok _ ↦ (ok moved, (store.write_state run.id moved r.1).1)
            | err x ↦ (err x, (store.write_state run.id moved r.1).1)
          ]
          | err x ↦ (err x, r.1)
        ])
    after_append e w (ok _, w') c t m =
        let ev = event_of e run.generation in
        let (l, s) =
          j.appended ev w w' (subst (λ i. store.append_event i ev w ≡ (ok tt, w')) c.is_run m) in
        let (behind, logged) = behind_by_one e run.generation w w' c t l s in
        after_write w' (store.write_state run.id moved w') c.is_run refl logged behind
    after_append e w (err x, w') c t m =
        let ev = event_of e run.generation in
        let (cases, s) =
          j.not_appended ev w w' x
            (subst (λ i. store.append_event i ev w ≡ (err x, w')) c.is_run m) in
        elim cases [
          | inl same ↦ unchanged w w' c same s
          | inr longer ↦ (behind_by_one e run.generation w w' c t longer s).0
        ]

  pub transition_run-Recorded :
      (run : Run) (e : EventType) (w : W)
      → Recorded j run w
      → AfterTransition run (transition_run store run e w)
  unfolding transition_run
  transition_run-Recorded run e w c = elim (Result-cases (transition run.state e)) [
    | inl (next, t) ↦ rw t (
        after_append run next e w (store.append_event run.id (event_of e run.generation) w) c t
          refl)
    | inr (x, t) ↦ rw t (Recorded-Consistent j run w c)
  ]
