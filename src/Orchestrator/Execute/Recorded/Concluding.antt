-- ===== src/Orchestrator/Execute/Recorded/Concluding.antt =====
-- The last phase of `Engine.Run` keeps the log and the state file together.
use agent_orchestrator_publi.Base.{◌≡◌, refl, sym, subst, List, Text, codes}
use agent_orchestrator_publi.Base.Errors.{Result}
use agent_orchestrator_publi.FilePath.Clean.{join_path}
use agent_orchestrator_publi.Domain.Task.{Task}
use agent_orchestrator_publi.Domain.Run.{verification_finished}
use agent_orchestrator_publi.Runtime.{M, lift}
use agent_orchestrator_publi.Evidence.{Value}
use agent_orchestrator_publi.Adapters.{Adapter}
use agent_orchestrator_publi.Store.{RunStore}
use agent_orchestrator_publi.Orchestrator.{Run}
use agent_orchestrator_publi.Orchestrator.Execute.{
  Engine, Host, write_evidence, write_evidence_json, conclude,
}
use agent_orchestrator_publi.Orchestrator.Journal.{Journal, Recorded, Quiet}
use agent_orchestrator_publi.Orchestrator.Journal.Steps.{Ensures, Ensures-bind}
use agent_orchestrator_publi.Orchestrator.Journal.Keeps.{Keeps, Quiet-Keeps}
use agent_orchestrator_publi.Orchestrator.Journal.Rules.{
  bare_step, failed_step, Recorded-relabel, Moved-Final, Holds, Final, bare-Keeps, bare-transition,
  finally-Holds,
}
use agent_orchestrator_publi.Orchestrator.Journal.Confined.{
  Confined, EvidenceName, diff_patch, evidence_bundle, decision_packet, lift-Quiet, verify-Quiet,
}

module _ {W Session : Type 0} (h : Host W) (engine : Engine W Session) (task : Task)
    (approved : Text) (store : RunStore W Run) (id : Text) (j : Journal store id)
    (adapter : Adapter W Session) (dir : Text) (confined : Confined j h.sys adapter dir) where
  quiet : {A : Type 0} (m : M W A) → Quiet j m → Keeps j m
  quiet m q = Quiet-Keeps j m q

  checks : {A : Type 0} (r : Result A) → Keeps j (lift r)
  checks r = Quiet-Keeps j (lift r) (lift-Quiet j r)

  write_evidence-Recorded :
      (name : Text) (given : EvidenceName name) (bytes : Text) (run : Run) (w : W)
      → Recorded j run w
      → Ensures j (Holds j run) (write_evidence h engine task approved dir name bytes w)
  unfolding write_evidence
  write_evidence-Recorded name given bytes run w c =
      bare_step j run (Holds j run) _ _ w c (quiet (h.sys.mkdir_all dir) confined.mkdir_all)
        λ _ w₁ c₁.
          bare_step j run (Holds j run) _ _ w₁ c₁
            (quiet (h.sys.create_new (join_path dir name)) (confined.create_new name given))
            λ _ w₂ c₂. finally-Holds j _ _ (confined.close name given) run w₂ (
              bare_step j run (Holds j run) _ _ w₂ c₂
                (quiet (h.sys.write (join_path dir name) bytes) (confined.write name given bytes))
                λ _ w₃ c₃.
                  bare-Keeps j _
                    (quiet (h.sys.sync (join_path dir name)) (confined.sync name given)) run w₃ c₃)

  write_evidence_json-Recorded :
      (name : Text) (given : EvidenceName name) (value : Value) (run : Run) (w : W)
      → Recorded j run w
      → Ensures j (Holds j run) (write_evidence_json h engine task approved dir name value w)
  unfolding write_evidence_json
  write_evidence_json-Recorded name given value run w c =
      bare_step j run (Holds j run) _ _ w c (checks (h.enc.marshal_indent value))
        λ bytes w₁ c₁. write_evidence-Recorded name given _ run w₁ c₁

  pub conclude-Recorded :
      (run : Run) (verifier diff : Text) (changed : List Text) (w : W)
      → run.evidence_dir ≡ dir
      → Recorded j run w
      → Ensures j (Final j) (conclude h engine task approved store run verifier diff changed w)
  unfolding conclude
  conclude-Recorded run verifier diff changed w at c =
      failed_step j run (Final j) _ _ w c
        (quiet _ (
          verify-Quiet j h confined.execute engine task approved verifier run.result_commit
            changed))
        λ results w₁ c₁. bare_step j run (Final j) _ _ w₁ c₁ (checks _) λ vd w₂ c₂.
          bare_step j run (Final j) _ _ w₂ c₂ (checks _) λ ed w₃ c₃.
            bare_step j run (Final j) _ _ w₃ c₃ (checks _) λ pd w₄ c₄.
              Ensures-bind j (Holds j run) (Final j) _ _ w₄
                (evidence (codes "diff.patch") diff_patch _ w₄ c₄)
                λ _ w₅ c₅.
                  Ensures-bind j (Holds j run) (Final j) _ _ w₅
                    (evidence_json (codes "evidence-bundle.json") evidence_bundle _ w₅ c₅)
                    λ _ w₆ c₆.
                      Ensures-bind j (Holds j run) (Final j) _ _ w₆
                        (evidence_json (codes "decision-packet.json") decision_packet _ w₆ c₆)
                        λ _ w₇ c₇.
                          let digested = record run {
                            verification_digest = vd;
                            evidence_digest = ed;
                            decision_packet_digest = pd;
                          } in
                          Moved-Final j digested _ (
                            bare-transition j digested verification_finished w₇
                              (Recorded-relabel j run digested w₇ refl refl c₇))
    where
      evidence :
          (name : Text) (given : EvidenceName name) (bytes : Text) (w : W)
          → Recorded j run w
          → Ensures j
              (Holds j run)
              (write_evidence h engine task approved run.evidence_dir name bytes w)
      evidence name given bytes w c =
          subst
            (λ d. Ensures j (Holds j run) (write_evidence h engine task approved d name bytes w))
            (sym at) (write_evidence-Recorded name given bytes run w c)

      evidence_json :
          (name : Text) (given : EvidenceName name) (value : Value) (w : W)
          → Recorded j run w
          → Ensures j
              (Holds j run)
              (write_evidence_json h engine task approved run.evidence_dir name value w)
      evidence_json name given value w c =
          subst
            (λ d.
              Ensures j (Holds j run) (write_evidence_json h engine task approved d name value w))
            (sym at) (write_evidence_json-Recorded name given value run w c)
