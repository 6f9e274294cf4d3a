-- ===== src/Domain/Run/History.antt =====
-- The lists of events after which a run is COMPLETED.
use agent_orchestrator_publi.Base.{
  ℕ, zero, suc, ◌<◌, ◌≡◌, refl, ◌≢◌, ◌↔◌, ◌⊎◌, inl, inr, true, List, [], ◌∷◌, length, text_discrete,
  arith, ap₂, subst, ap,
}
use agent_orchestrator_publi.Base.Errors.{ok, >>=-eq-ok}
use agent_orchestrator_publi.Domain.Run.{
  RunState, created, preparing, implementing, verifying, awaiting_approval, reworking, completed,
  EventType, preparation_started, implementation_started, implementation_finished,
  verification_finished, approved, rework_requested, transition, is_terminal,
}
use agent_orchestrator_publi.Domain.Run.Graph.{replay, replay_terminal, approved_after}

RunState-discrete : Discrete RunState
RunState-discrete = hlevel text_discrete

abbrev Completes : RunState → List EventType → Type 0
Completes s es = replay s es ≡ ok completed

-- A terminal state other than COMPLETED never becomes COMPLETED.
dead :
    (s : RunState) (es : List EventType) → is_terminal s ≡ true → s ≢ completed → Completes s es → ⊥
unfolding replay
dead s [] h n c = n (ground arith)
dead s (e ∷ es) h n c = replay_terminal s e es completed h c

after_completed : (es : List EventType) → Completes completed es → es ≡ []
unfolding is_terminal
after_completed [] c = refl
after_completed (e ∷ es) c = absurd (replay_terminal completed e es completed refl c)

alive : (t : RunState) (es : List EventType) → Completes t es → is_terminal t ≡ true → t ≡ completed
alive t es c h = elim (RunState-discrete t completed) [
  | yes e ↦ e
  | no n ↦ absurd (dead t es h n c)
]

abbrev Next : EventType → RunState → List EventType → Type 0
Next e t es = (rest : List EventType) × (es ≡ e ∷ rest) × Completes t rest

-- Where the only edge from `s` that does not end the run is that of `e` to `t`, a history that
-- completes takes it.
follow :
    (s : RunState) {e : EventType} {t : RunState} (es : List EventType)
    → s ≢ completed
    → ((f : EventType) (u : RunState)
        → transition s f ≡ ok u
        → (is_terminal u ≡ true → u ≡ completed)
        → (f ≡ e) × (u ≡ t))
    → Completes s es
    → Next e t es
unfolding replay
follow s [] n only c = absurd (n (ground arith))
follow s (f ∷ es) n only c =
    let (u, step, rest) = >>=-eq-ok (transition s f) (λ t. replay t es) c in
    let (same, there) = only f u step (alive u es rest) in
    (es, rw same, subst (λ v. Completes v es) there rest)

from_created : (es : List EventType) → Completes created es → Next preparation_started preparing es
unfolding transition
from_created es = follow created es (λ e. cc) (λ f u step live. ground arith)

from_preparing :
    (es : List EventType) → Completes preparing es → Next implementation_started implementing es
unfolding transition
from_preparing es = follow preparing es (λ e. cc) (λ f u step live. ground arith)

from_reworking :
    (es : List EventType) → Completes reworking es → Next implementation_started implementing es
unfolding transition
from_reworking es = follow reworking es (λ e. cc) (λ f u step live. ground arith)

from_implementing :
    (es : List EventType) → Completes implementing es → Next implementation_finished verifying es
unfolding transition
from_implementing es = follow implementing es (λ e. cc) (λ f u step live. ground arith)

from_verifying :
    (es : List EventType) → Completes verifying es → Next verification_finished awaiting_approval es
unfolding transition
from_verifying es = follow verifying es (λ e. cc) (λ f u step live. ground arith)

verdict :
    (f : EventType) (u : RunState)
    → transition awaiting_approval f ≡ ok u
    → (is_terminal u ≡ true → u ≡ completed)
    → ((f ≡ approved) × (u ≡ completed)) ⊎ ((f ≡ rework_requested) × (u ≡ reworking))
unfolding transition
verdict f u step live = ground arith

from_awaiting :
    (es : List EventType)
    → Completes awaiting_approval es
    → (es ≡ approved ∷ []) ⊎ Next rework_requested reworking es
unfolding replay
from_awaiting [] c = cc
from_awaiting (f ∷ es) c =
    let (u, step, rest) = >>=-eq-ok (transition awaiting_approval f) (λ t. replay t es) c in
    elim (verdict f u step (alive u es rest)) [
      | inl (same, there) ↦
          inl
            (ap₂ (λ x y. x ∷ y) same (after_completed es (subst (λ v. Completes v es) there rest)))
      | inr (same, there) ↦ inr (es, rw same, subst (λ v. Completes v es) there rest)
    ]

abbrev Rounds : List EventType → Type 0
Rounds es = (n : ℕ) × (es ≡ approved_after n)

rounds :
    (k : ℕ) (es : List EventType)
    → length es < k
    → Next implementation_started implementing es
    → Rounds es
rounds zero es h next = absurd (omega arith)
rounds (suc k) es h (r₁, e₁, c₁) =
    let (r₂, e₂, c₂) = from_implementing r₁ c₁ in
    let (r₃, e₃, c₃) = from_verifying r₂ c₂ in
    elim (from_awaiting r₃ c₃) [
      | inl e₄ ↦ (0, cc)
      | inr (r₄, e₄, c₄) ↦
          let shorter : length r₄ < k = omega (
            arith,
            ap (length {0}) e₁,
            ap (length {0}) e₂,
            ap (length {0}) e₃,
            ap (length {0}) e₄,
          ) in
          let (n, e₅) = rounds k r₄ shorter (from_reworking r₄ c₄) in (suc n, cc)
    ]

rounds_complete :
    (n : ℕ)
    → (s : RunState) → transition s implementation_started ≡ ok implementing
    → Completes s (approved_after n)
unfolding replay transition
rounds_complete zero s h = rw h refl
rounds_complete (suc n) s h = rw h (rounds_complete n reworking refl)

-- From CREATED, a list of events leads to COMPLETED exactly if it is a preparation, then rounds
-- that were implemented, verified and sent back for rework, any number of them (`Transition`
-- sets no bound), and one more such round, which was approved, with no event after the approval.
pub replay-completed :
    (es : List EventType)
    → (replay created es ≡ ok completed) ↔ ((n : ℕ) × (es ≡ preparation_started ∷ approved_after n))
replay-completed es = (there, back)
  where
    there : Completes created es → (n : ℕ) × (es ≡ preparation_started ∷ approved_after n)
    there c =
        let (r, e, c₁) = from_created es c in
        let (n, e₁) = rounds (suc (length r)) r (omega arith) (from_preparing r c₁) in (n, cc)

    back : ((n : ℕ) × (es ≡ preparation_started ∷ approved_after n)) → Completes created es
    back (n, e) = rw e (unfold replay transition in rounds_complete n preparing refl)
