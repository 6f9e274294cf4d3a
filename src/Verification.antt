-- ===== src/Verification.antt =====
-- internal/verification/verifier.go: the acceptance commands, run in order until one fails.
pub mod Passed
use agent_orchestrator_publi.Base.{ℕ, ℤ, pos, Option, none, some, List, [], ◌∷◌, ◌++◌, Text}
use agent_orchestrator_publi.Base.Errors.{Error, verification_argv_empty, verification_failed}
use agent_orchestrator_publi.Domain.Task.{CommandSpec}
use agent_orchestrator_publi.Runtime.{Spec, System}
use agent_orchestrator_publi.Runtime.Process.{ProcessResult, run}

-- Of the two times, `none` is `time.Time{}`.
pub record CommandResult : Type 0 where
  pub argv : List Text
  pub exit_code : ℤ
  pub stdout : Text
  pub stderr : Text
  pub started_at : Option ℕ
  pub finished_at : Option ℕ

abbrev result_of : List Text → ProcessResult → CommandResult
result_of argv r = record {
  argv = argv;
  exit_code = r.exit_code;
  stdout = r.stdout;
  stderr = r.stderr;
  started_at = r.started_at;
  finished_at = r.finished_at;
}

module _ {W : Type 0} (sys : System W) (workspace_dir : Text) (env : List (Text × Text)) where
  -- One command: its result, if it was tried, and its error.
  unfoldable pub run_argv : CommandSpec → List Text → W → (List CommandResult × Option Error) × W
  run_argv command [] w = (([], some verification_argv_empty), w)
  run_argv command (program ∷ args) w =
      let (r, w') =
        run sys
          (record {
            path = program;
            args = args;
            dir = workspace_dir;
            env = env;
            timeout = command.timeout_seconds;
          })
          w in
      (
        (
          result_of (program ∷ args) r.0 ∷ [],
          elim r.1 [ none ↦ none | some e ↦ some (verification_failed program e) ],
        ),
        w',
      )

  unfoldable pub run_command : CommandSpec → W → (List CommandResult × Option Error) × W
  unfolding run_argv
  run_command command w = run_argv command command.argv w

  -- The loop of `Run`, after the results so far.
  unfoldable pub run_commands :
      List CommandResult → List CommandSpec → W → (List CommandResult × Option Error) × W
  run_commands results [] w = ((results, none), w)
  run_commands results (command ∷ commands) w =
      let ((more, e), w') = run_command command w in
      let rest = run_commands (results ++ more) commands w' in
      elim e [ some cause ↦ ((results ++ more, some cause), w') | none ↦ rest ]
