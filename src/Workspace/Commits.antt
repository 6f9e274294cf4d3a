-- ===== src/Workspace/Commits.antt =====
-- The line of `git rev-list --parents` that a writer's commit must have.
use agent_orchestrator_publi.Base.{
  ◌≡◌, ap, ◌∙◌, ◌↔◌, List, [], ◌∷◌, Text, codes, text_eq_iff, arith,
}
use agent_orchestrator_publi.Base.Errors.{Result, ok, err}
use agent_orchestrator_publi.FilePath.Fields.{fields}
use agent_orchestrator_publi.Runtime.{System, lift, >>=-ok}
use agent_orchestrator_publi.Workspace.{check_parents, git_output, validate_result_commit}

check_parents-single :
    (base result : Text) (words : List Text)
    → (check_parents base result words ≡ ok tt) ↔ (words ≡ result ∷ base ∷ [])
unfolding check_parents
check_parents-single base result [] = (λ h. absurd (ground arith), λ h. absurd (ground arith))
check_parents-single base result (a ∷ []) = (λ h. absurd (ground arith), λ h. absurd (ground arith))
check_parents-single base result (a ∷ b ∷ []) = (
  λ h. ground (arith, text_eq_iff a result, text_eq_iff b base),
  λ h. ground (arith, text_eq_iff a result, text_eq_iff b base),
)
check_parents-single base result (a ∷ b ∷ c ∷ words) =
    (λ h. absurd (ground arith), λ h. absurd (ground arith))

abbrev pub parents_of : Text → List Text
parents_of commit = codes "rev-list" ∷ codes "--parents" ∷ codes "-n" ∷ codes "1" ∷ commit ∷ []

-- `ValidateResultCommit` accepts a commit exactly if git lists its parents, and the words of what
-- it prints are the commit and the base alone: the base is the only parent.
pub validate_result_commit-single :
    {W : Type 0} (sys : System W) (worktree base result : Text) (w : W) {w' : W}
    → (validate_result_commit sys worktree base result w ≡ (ok tt, w')) ↔ (
        (line : Text) × (git_output sys worktree (parents_of result) w ≡ (ok line, w'))
        × (fields line ≡ result ∷ base ∷ []))
unfolding validate_result_commit
validate_result_commit-single {W} sys worktree base result w {w'} = (there, back)
  where
    there :
        validate_result_commit sys worktree base result w ≡ (ok tt, w')
        → (line : Text) × (git_output sys worktree (parents_of result) w ≡ (ok line, w'))
          × (fields line ≡ result ∷ base ∷ [])
    there h =
        let (line, w₁, a, b) =
          >>=-ok (git_output sys worktree (parents_of result))
            (λ line. lift (check_parents base result (fields line))) w h in
        (
          line,
          a ∙ ap (λ q. (ok line, q.1)) b,
          (check_parents-single base result (fields line)).0 (ap (λ q. q.0) b),
        )

    back :
        (line : Text) × (git_output sys worktree (parents_of result) w ≡ (ok line, w'))
          × (fields line ≡ result ∷ base ∷ [])
        → validate_result_commit sys worktree base result w ≡ (ok tt, w')
    back (line, a, f) =
        ap
          (λ (q : Result Text × W). elim q.0 [
            | ok line ↦ (check_parents base result (fields line), q.1)
            | err e ↦ (err e, q.1)
          ])
          a
        ∙ ap (λ r. (r, w')) ((check_parents-single base result (fields line)).1 f)
