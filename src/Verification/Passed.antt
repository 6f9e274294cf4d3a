-- ===== src/Verification/Passed.antt =====
-- What it means that the acceptance commands have passed.
use mathlib.Core.List.{append-nil, append_assoc}
use agent_orchestrator_publi.Base.{
  ◌≡◌, refl, sym, ◌∙◌, ap, subst, Option, none, some, List, [], ◌∷◌, ◌++◌, Text, arith,
}
use agent_orchestrator_publi.Base.Errors.{Error}
use agent_orchestrator_publi.Domain.Task.{CommandSpec}
use agent_orchestrator_publi.Runtime.{Spec, System}
use agent_orchestrator_publi.Runtime.Process.{ProcessResult, run}
use agent_orchestrator_publi.Verification.{CommandResult, run_argv, run_command, run_commands}

module _ {W : Type 0} (sys : System W) (dir : Text) (env : List (Text × Text)) where
  abbrev spec_of : CommandSpec → Text → List Text → Spec
  spec_of c program args = record {
    path = program;
    args = args;
    dir = dir;
    env = env;
    timeout = c.timeout_seconds;
  }

  -- Each command in turn is started in the directory, with the world that the one before it left,
  -- and ends without an error.
  pub data Passes : List CommandSpec → W → List CommandResult → W → Type 0 where
    done : {w : W} → Passes [] w [] w
    then_run :
        {c : CommandSpec} {cs : List CommandSpec} {program : Text} {args : List Text}
        {r : ProcessResult} {w w₁ w₂ : W} {results : List CommandResult}
        → c.argv ≡ program ∷ args
        → run sys (spec_of c program args) w ≡ ((r, none), w₁)
        → Passes cs w₁ results w₂
        → Passes
            (c ∷ cs)
            w
            ((record {
              argv = program ∷ args;
              exit_code = r.exit_code;
              stdout = r.stdout;
              stderr = r.stderr;
              started_at = r.started_at;
              finished_at = r.finished_at;
            })
              ∷ results)
            w₂

  ran :
      (c : CommandSpec) (argv : List Text) (w : W) {more : List CommandResult} {w₁ : W}
      → run_argv sys dir env c argv w ≡ ((more, none), w₁)
      → (program : Text) × (args : List Text) × (r : ProcessResult) × (argv ≡ program ∷ args)
        × (run sys (spec_of c program args) w ≡ ((r, none), w₁))
        × (more
            ≡ (record {
              argv = program ∷ args;
              exit_code = r.exit_code;
              stdout = r.stdout;
              stderr = r.stderr;
              started_at = r.started_at;
              finished_at = r.finished_at;
            })
              ∷ [])
  unfolding run_argv
  ran c [] w h = absurd (ground arith)
  ran c (program ∷ args) w h =
      (program, args, (run sys (spec_of c program args) w).0.0, refl, ground arith, ground arith)

  -- If `verification.Run` reports no error, every command was run to its end without one, in order,
  -- and the results are theirs, behind those that were there before.
  pub run_commands-Passes :
      (cs : List CommandSpec) (before : List CommandResult) (w : W) {results : List CommandResult}
      {w' : W}
      → run_commands sys dir env before cs w ≡ ((results, none), w')
      → (new : List CommandResult) × (results ≡ before ++ new) × Passes cs w new w'
  unfolding run_commands run_command
  run_commands-Passes [] before w h = (
    [],
    sym (ap (λ p. p.0.0) h) ∙ sym (append-nil before),
    subst (λ v. Passes [] w [] v) (ap (λ p. p.1) h) done,
  )
  run_commands-Passes (c ∷ cs) before w {results} {w'} h =
      go _ _ _ refl (λ more w₁. run_commands-Passes cs (before ++ more) w₁) h
    where
      go :
          (more : List CommandResult) (e : Option Error) (w₁ : W)
          → run_argv sys dir env c c.argv w ≡ ((more, e), w₁)
          → ((more : List CommandResult) (w₁ : W)
              → run_commands sys dir env (before ++ more) cs w₁ ≡ ((results, none), w')
              → (new : List CommandResult) × (results ≡ before ++ more ++ new)
                × Passes cs w₁ new w')
          → elim e [
            | some cause ↦ ((before ++ more, some cause), w₁)
            | none ↦ run_commands sys dir env (before ++ more) cs w₁
          ]
            ≡ ((results, none), w')
          → (new : List CommandResult) × (results ≡ before ++ new) × Passes (c ∷ cs) w new w'
      go more none w₁ e rest h =
          let (program, args, r, p, q, m) = ran c c.argv w e in
          let (new, same, ps) = rest more w₁ h in
          (
            _,
            same ∙ append_assoc before more new ∙ ap (λ l. before ++ (l ++ new)) m,
            then_run p q ps,
          )
      go more (some x) w₁ e rest h = absurd (ground arith)
