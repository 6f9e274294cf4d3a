-- ===== src/Lib.antt =====
-- Verification library of the orchestrator: a program that has a coding agent make one commit for
-- an approved task, checks that commit, and leaves the decision on it to a human.
--
-- Parts, and the files that model them (paths from the repository's root):
-- - Base: shared names, lists, maps, bytes and the errors; FilePath: what the code uses of Go's
--   path/filepath and strings.
-- - Domain.Task: internal/domain/task.go. `validate_task` is `ValidateTask`, `digest_task` is
--   `DigestTask`.
-- - Domain.Run: internal/domain/run.go. `transition` is `Transition`, `validate_approval` is
--   `ValidateApproval`.
-- - Policy: internal/policy/policy.go, one function per method.
-- - Runtime: operations on a world `W`, and the operating system as the record `System`;
--   Runtime.Process: `process.Run` of internal/runtime/process/runner.go, where the outcome of its
--   `select` is a `Launch`.
-- - Workspace: internal/workspace/git.go, one function per git command.
-- - Verification: internal/verification/verifier.go. `run_commands` is the loop of `Run`.
-- - Evidence: internal/evidence, with JSON and SHA-256 as the record `Encoding`.
-- - Adapters: the types of internal/adapters/adapter.go; an adapter is a record of operations.
--   Adapters.Results: internal/adapters/result.go; Adapters.Codex: internal/adapters/codex/adapter.go,
--   with `codex_probe`, `codex_start` and, for the goroutine of a session, `codex_run`;
--   Adapters.Codex.Session: the channels and the outcome of that session, which its goroutine and its
--   caller (`Events`, `Wait`, `Cancel`) change in turns of any order.
-- - Redaction: internal/redaction/redactor.go, with `sort.Slice` and the replacement by the regular
--   expressions as parameters. The engine takes it as a function on texts.
-- - Store: the types of internal/store and the interface `RunStore` that the engine uses.
--   Store.Files: the methods of `FileStore` in internal/store/file.go and the lock of
--   internal/store/lock.go, `release` being `Release`; Store.Log: the lines of the event log. Store.Disk and Store.Lock say what
--   they rely on of files and directories.
-- - Orchestrator: internal/orchestrator/engine.go. `transition_run`, `failed` and
--   `recovery_required` are `transition`, `failed` and `recoveryRequired`; Orchestrator.Exits has
--   the ways in which the body of `Run` returns and its deferred calls; Orchestrator.Execute has
--   `run_task`, which is `Engine.Run`, in the phases that the deferred calls make, and
--   Orchestrator.Execute.Setting what it is given;
--   Orchestrator.Decide has `decide` and `status`. Orchestrator.Journal says what the engine
--   relies on of the log and the state file of a run, and Orchestrator.Journal.OnDisk that the
--   file store does so.
-- - Service: internal/host/service.go. `prepare` is `Prepare`, the others call the engine.
-- - Cli: cmd/orch/main.go. `execute` is `execute`, with one function per command; package flag, the
--   JSON decoder and what is printed are the record `Library`.
-- - Tests: a small world in which the engine runs, and the properties on concrete inputs.
--
-- How the parts interact: the engine checks the task by Policy and Domain.Task, takes the lock of a
-- new run, and records each event by `transition_run`, first in the log and then in the state
-- file. Workspace makes a worktree for the agent, who is an Adapter, and one for the acceptance
-- commands, which Verification runs. The digests of Evidence bind a human's decision to the run.
--
-- Conventions: a text is a list of bytes, a Go `int` is an integer of Base, an error is a
-- constructor of `Error` for each place that makes one, and a function that can fail and touches the
-- world returns a `Result` and the next world. All loops are structural, so there is no fuel; a
-- session is played for a list of turns, of which the goroutine needs six.
--
-- Assumptions, all of them parameters: git, the acceptance commands and the agent may answer
-- anything; deadlines, the context's among them, show as what they answer. For Orchestrator.Journal
-- they and the evidence files do not touch the log and the state file (`Confined`), and the store
-- obeys the laws of `Journal`, which let any operation fail with its effect or without it, and let
-- a log become unreadable. For Store.Disk each call on a file does to its bytes what `Disk` says,
-- where one that fails may have had its effect, or a part of it; no other process writes to the
-- files of the run, and a name that `os.CreateTemp` makes has digits for its star. For Store.Lock
-- `os.Mkdir` succeeds only where there is no directory (`Directories`). For both, encoding/json
-- reads back what it has written, and no value goes on behind its end (`IsFaithful`); the texts are
-- valid UTF-8. For a run as a whole, the calls that take the lock and release it touch neither of
-- the run's two files (`Lockable`, `Beside`, `Around`), and the store and the run are the ones that
-- are spoken of (`Named`, `Opens`). For Redaction the sorting loses no secret and the patterns only
-- replace parts of a text (`IsReplacing`). For Runtime.Process `Wait` returns no error only where
-- the program exited with code 0 (`Exits`). For Service.Approved a checksum consists of bytes, two
-- encodings of tasks do not share one, and one encoding is of one task.
--
-- Not modelled: how package flag reads arguments, and the JSON text itself. For the engine, the
-- goroutine of a codex session runs when the session is waited for, and the wait is not cut short:
-- its context is the one that cmd/orch makes by `context.Background()`, which is never done, and
-- Adapters.Codex.Session has the wait with any context. The mutex of the session shows as its
-- outcome being set in one turn.
pub mod Base
pub mod FilePath
pub mod Domain
pub mod Policy
pub mod Runtime
pub mod Workspace
pub mod Verification
pub mod Evidence
pub mod Adapters
pub mod Redaction
pub mod Store
pub mod Orchestrator
pub mod Service
pub mod Cli
pub mod Tests
