-- ===== src/Orchestrator/Execute/Recorded.antt =====
-- Through every run of `Engine.Run`, and however it ends, the log and the state file agree.
pub mod Concluding
use agent_orchestrator_publi.Base.{
  ℕ, ◌≡◌, refl, sym, subst, ◌∙◌, arith, inl, inr, none, some, List, [], ◌∷◌, Text, codes, text_eq,
}
use agent_orchestrator_publi.Base.Errors.{Result, ok, err}
use agent_orchestrator_publi.FilePath.Clean.{join_path}
use agent_orchestrator_publi.Domain.Task.{Task}
use agent_orchestrator_publi.Domain.Run.{
  RunState, created, preparation_started, implementation_started, implementation_finished,
  verification_finished,
}
use agent_orchestrator_publi.Domain.Run.Graph.{replay}
use agent_orchestrator_publi.Runtime.{M, lift}
use agent_orchestrator_publi.Evidence.{Value}
use agent_orchestrator_publi.Adapters.{AdapterResult, Adapter}
use agent_orchestrator_publi.Store.{Event, RunStore, effect_intent, effect_settlement}
use agent_orchestrator_publi.Orchestrator.{Run, empty_run}
use agent_orchestrator_publi.Orchestrator.Exits.{Exit, going, left, kept, bare}
use agent_orchestrator_publi.Orchestrator.Execute.{
  Engine, Host, effect_event, write_evidence, write_evidence_json, conclude, check_commit,
  write_effect, implement, locked_run,
}
use agent_orchestrator_publi.Orchestrator.Journal.{
  lifecycle, Ends, Journal, Recorded, Consistent, Quiet, Recorded-Consistent,
}
use agent_orchestrator_publi.Orchestrator.Journal.Steps.{Ensures, Ensures-bind}
use agent_orchestrator_publi.Orchestrator.Journal.Keeps.{Keeps, Quiet-Keeps, append-Keeps}
use agent_orchestrator_publi.Orchestrator.Journal.Rules.{
  bare_step, failed_step, recovery_step, transition_step, Recorded-relabel, Moved-Final, Holds,
  Final, bare-Keeps, bare-transition, finally-Quiet, unless_kept-Quiet,
}
use agent_orchestrator_publi.Orchestrator.Journal.Confined.{
  Confined, EvidenceName, diff_patch, evidence_bundle, decision_packet, lift-Quiet, head_of-Quiet,
  add-Quiet, remove-Quiet, validate_result_commit-Quiet, changed_paths-Quiet, diff-Quiet,
  verify-Quiet, make_work_root-Quiet,
}
use agent_orchestrator_publi.Orchestrator.Execute.Recorded.Concluding.{conclude-Recorded}

module _ {W Session : Type 0} (h : Host W) (engine : Engine W Session) (task : Task)
    (approved : Text) (store : RunStore W Run) (id : Text) (j : Journal store id)
    (adapter : Adapter W Session) (dir : Text) (confined : Confined j h.sys adapter dir) where
  quiet : {A : Type 0} (m : M W A) → Quiet j m → Keeps j m
  quiet m q = Quiet-Keeps j m q

  checks : {A : Type 0} (r : Result A) → Keeps j (lift r)
  checks r = Quiet-Keeps j (lift r) (lift-Quiet j r)

  check_commit-Recorded :
      (run : Run) (writer : Text) (result : AdapterResult) (w : W)
      → Recorded j run w
      → Ensures j (Holds j run) (check_commit h engine task approved store run writer result w)
  unfolding check_commit
  check_commit-Recorded run writer result w c =
      let base = task.repository.base_ref in
      let commit = result.result_commit in
      failed_step j run (Holds j run) _ _ w c
        (quiet _ (head_of-Quiet j h.sys confined.execute writer))
        λ head w₁ c₁. failed_step j run (Holds j run) _ _ w₁ c₁ (checks _) λ _ w₂ c₂.
          failed_step j run (Holds j run) _ _ w₂ c₂ (checks _) λ _ w₃ c₃.
            failed_step j run (Holds j run) _ _ w₃ c₃
              (quiet _ (validate_result_commit-Quiet j h.sys confined.execute writer base commit))
              λ _ w₄ c₄.
                failed_step j run (Holds j run) _ _ w₄ c₄
                  (quiet _ (changed_paths-Quiet j h.sys confined.execute writer base commit))
                  λ changed w₅ c₅. failed_step j run (Holds j run) _ _ w₅ c₅ (checks _) λ _ w₆ c₆.
                    failed_step j run (Holds j run) _ _ w₆ c₆
                      (quiet _ (diff-Quiet j h.sys confined.execute writer base commit))
                      λ diff w₇ c₇. c₇

  silent_intent : (g : ℕ) → lifecycle (effect_event effect_intent g ∷ []) ≡ []
  unfolding lifecycle text_eq
  silent_intent g = refl

  silent_settlement : (g : ℕ) → lifecycle (effect_event effect_settlement g ∷ []) ≡ []
  unfolding lifecycle text_eq
  silent_settlement g = refl

  logs :
      (run : Run) (type : Text)
      → lifecycle (effect_event type run.generation ∷ []) ≡ []
      → run.id ≡ id
      → Keeps j (store.append_event run.id (effect_event type run.generation))
  logs run type silent same =
      subst (λ i. Keeps j (store.append_event i (effect_event type run.generation))) (sym same)
        (append-Keeps j (effect_event type run.generation) silent)

  write_effect-Recorded :
      (run : Run) (writer : Text) (w : W)
      → Recorded j run w
      → Ensures j (Holds j run) (write_effect h engine task approved store adapter run writer w)
  unfolding write_effect
  write_effect-Recorded run writer w c =
      bare_step j run (Holds j run) _ _ w c
        (logs run effect_intent (silent_intent run.generation) c.is_run)
        λ _ w₁ c₁.
          recovery_step j run (Holds j run) writer _ _ w₁ c₁ (quiet _ (confined.start _))
            λ session w₂ c₂.
              recovery_step j run (Holds j run) writer _ _ w₂ c₂ (quiet _ (confined.wait session))
                λ result w₃ c₃.
                  recovery_step j run (Holds j run) writer _ _ w₃ c₃
                    (logs run effect_settlement (silent_settlement run.generation) c.is_run)
                    λ _ w₄ c₄. c₄

  implement-Recorded :
      (run : Run) (writer verifier : Text) (w : W)
      → run.evidence_dir ≡ dir
      → Recorded j run w
      → Ensures j (Final j) (implement h engine task approved store adapter run writer verifier w)
  unfolding implement
  implement-Recorded run writer verifier w at c =
      transition_step j run (Final j) implementation_started _ w c λ run₁ w₁ (c₁, i₁, d₁).
        Ensures-bind j (Holds j run₁) (Final j) _ _ w₁ (write_effect-Recorded run₁ writer w₁ c₁)
          λ result w₂ c₂.
            Ensures-bind j (Holds j run₁) (Final j) _ _ w₂
              (check_commit-Recorded run₁ writer result w₂ c₂)
              λ checked w₃ c₃.
                let built = record run₁ { result_commit = result.result_commit } in
                transition_step j built (Final j) implementation_finished _ w₃
                  (Recorded-relabel j run₁ built w₃ refl refl c₃)
                  λ run₂ w₄ (c₄, i₄, d₄).
                    failed_step j run₂ (Final j) _ _ w₄ c₄
                      (quiet _ (
                        add-Quiet j h.sys confined.execute run.repository_root verifier
                          result.result_commit))
                      λ _ w₅ c₅.
                        finally-Quiet j _ _
                          (remove-Quiet j h.sys confined.execute run.repository_root verifier) w₅
                          (conclude-Recorded h engine task approved store id j adapter dir confined
                            run₂ verifier checked.1 checked.0 w₅ (d₄ ∙ d₁ ∙ at) c₅)

  first_write :
      (run : Run) (w : W)
      → run.id ≡ id
      → run.state ≡ created
      → j.log w ≡ some []
      → j.state w ≡ none
      → Ensures j (Holds j run) (bare (store.write_state run.id run) w)
  unfolding bare
  first_write run w is_id is_new log state = go (store.write_state run.id run w) refl
    where
      start : (s : RunState) → s ≡ created → (es : List Event) → some [] ≡ some es → Ends es s
      start s new es e = unfold replay lifecycle in ground arith

      go :
          (r : Result (Unit {0}) × W)
          → store.write_state run.id run w ≡ r
          → Ensures j (Holds j run) (elim r.0 [ ok a ↦ going a | err e ↦ left empty_run e ], r.1)
      go (ok _, w') m =
          let (l, s) =
            j.written run w w' (subst (λ i. store.write_state i run w ≡ (ok tt, w')) is_id m) in
          record {
            is_run = is_id;
            logged = λ es e. start run.state is_new es (sym log ∙ sym l ∙ e);
            saved = (run, s, refl, is_id);
          }
      go (err x, w') m =
          let (l, cases) =
            j.not_written run w w' x
              (subst (λ i. store.write_state i run w ≡ (err x, w')) is_id m) in
          record {
            in_step = λ es r e f. elim cases [
              | inl old ↦ absurd (ground arith)
              | inr new ↦
                  let same : r.state ≡ created = ground arith in
                  inl (start r.state same es (sym log ∙ sym l ∙ e))
            ];
          }

  pub locked_run-Ensures :
      (run : Run) (w : W)
      → run.id ≡ id
      → run.state ≡ created
      → run.evidence_dir ≡ dir
      → j.log w ≡ some []
      → j.state w ≡ none
      → Ensures j (Final j) (locked_run h engine task approved store adapter run w)
  unfolding locked_run
  locked_run-Ensures run w is_id is_new at log state =
      Ensures-bind j (Holds j run) (Final j) _ _ w (first_write run w is_id is_new log state)
        λ _ w₁ c₁.
          transition_step j run (Final j) preparation_started _ w₁ c₁ λ run₁ w₂ (c₂, i₂, d₂).
            failed_step j run₁ (Final j) _ _ w₂ c₂
              (quiet _ (
                make_work_root-Quiet j h confined.execute engine task approved
                  confined.make_temp_dir run.id))
              λ root w₃ c₃.
                failed_step j run₁ (Final j) _ _ w₃ c₃
                  (quiet _ (
                    add-Quiet j h.sys confined.execute run.repository_root _
                      task.repository.base_ref))
                  λ _ w₄ c₄.
                    unless_kept-Quiet j _ _
                      (remove-Quiet j h.sys confined.execute run.repository_root _) w₄
                      (implement-Recorded run₁ _ _ w₄ (d₂ ∙ at) c₄)

  settled :
      (r : Exit Run × W)
      → Ensures j (Final j) r
      → Consistent j r.1 × ((run' : Run) → r.0 ≡ going run' → Recorded j run' r.1)
  settled (going run', w') c =
      (Recorded-Consistent j run' w' c, λ run e. subst (λ q. Recorded j q w') (ground arith) c)
  settled (left run e, w') c = (c, λ run p. absurd (ground arith))
  settled (kept run e, w') c = (c, λ run p. absurd (ground arith))

  -- `Engine.Run` under the lock of a run that is new, with an empty log and no state file, over a
  -- store that obeys the laws of `Journal`, and where what the engine calls is `Confined`:
  -- whichever step fails, the log, if it can be read, leads `Transition` from CREATED to the
  -- state that the state file holds, or does so without its last event; and where the function
  -- returns a run and no error, both files hold the state of that run.
  pub locked_run-Consistent :
      (run : Run) (w : W)
      → run.id ≡ id
      → run.state ≡ created
      → run.evidence_dir ≡ dir
      → j.log w ≡ some []
      → j.state w ≡ none
      → let (r, w') = locked_run h engine task approved store adapter run w in
        Consistent j w' × ((run' : Run) → r ≡ going run' → Recorded j run' w')
  locked_run-Consistent run w is_id is_new at log state =
      settled _ (locked_run-Ensures run w is_id is_new at log state)
