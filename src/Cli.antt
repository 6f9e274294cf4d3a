-- ===== src/Cli.antt =====
-- cmd/orch/main.go: the commands of the program `orch`.
pub mod Loads
pub mod Exits
use agent_orchestrator_publi.Base.{
  ℕ, Bool, true, false, not, ◌&&◌, if◌then◌else◌, Option, none, some, List, [], ◌∷◌, Text, codes,
  text_eq, is_empty,
}
use agent_orchestrator_publi.Base.Errors.{
  Error, Result, ok, err, refuse_if, require, wrapped, external, unknown_command,
  unsupported_strategy, unsupported_writer, unsupported_mode, run_id_required, decision_required,
  task_required, one_object_required,
}
use agent_orchestrator_publi.Domain.Task.{Task}
use agent_orchestrator_publi.Domain.Run.{
  HumanDecision, approve, request_rework, reject, cancel, other_decision, Approval,
}
use agent_orchestrator_publi.Policy.{ExecutionMode, trusted_local, strict, other_mode, mode_text}
use agent_orchestrator_publi.Runtime.{
  M, pure, lift, fails, ◌>>=◌, ◌>>◌, wrap_error, Reading, contents, absent, unopened, broken,
  System,
}
use agent_orchestrator_publi.Redaction.{Patterns, new_redactor, redact}
use agent_orchestrator_publi.Adapters.Results.{Decoder}
use agent_orchestrator_publi.Adapters.Codex.{CodexSession, default_codex, codex_adapter}
use agent_orchestrator_publi.Orchestrator.{Run}
use agent_orchestrator_publi.Orchestrator.Execute.{Engine, Host}
use agent_orchestrator_publi.Service.{prepare, service_run, service_status, service_decide}

-- `policy.ExecutionMode(s)` and `domain.HumanDecision(s)`
unfoldable pub mode_of : Text → ExecutionMode
unfolding text_eq
mode_of s =
    if text_eq s (mode_text trusted_local)
    then trusted_local
    else if text_eq s (mode_text strict)
    then strict
    else other_mode s

unfoldable pub decision_of : Text → HumanDecision
unfolding text_eq
decision_of s =
    if text_eq s (codes "approve")
    then approve
    else if text_eq s (codes "request_rework")
    then request_rework
    else if text_eq s (codes "reject")
    then reject
    else if text_eq s (codes "cancel")
    then cancel
    else other_decision s

pub record RunFlags : Type 0 where
  pub task_path : Text
  pub approved_digest : Text
  pub strategy : Text
  pub writer : Text
  pub mode : Text

pub record DecideFlags : Type 0 where
  pub repository : Text
  pub packet_digest : Text
  pub actor : Text

-- What a command prints as JSON.
pub data Output : Type 0 where
  prepared_task : Task → Text → Output
  a_run : Run → Output

-- The library functions that the commands call: `flag`, which fills in the defaults of each command and
-- prints what is wrong to the standard error, the JSON decoder, which gives a task and the bytes behind
-- it, or an error, and the writers. `at_end` is `io.EOF` from a second call of the decoder.
pub record Library (W : Type 0) : Type 0 where
  pub prepare_flags : List Text → M W Text
  pub run_flags : List Text → M W RunFlags
  pub status_flags : List Text → M W Text
  pub decide_flags : Text → List Text → M W DecideFlags
  pub decode_task : Text → Result (Task × Text)
  pub at_end : Text → Bool
  pub write_json : Output → M W (Unit {0})
  pub print_usage : W → W
  pub print_error : Error → W → W
  pub sort_slice : (Text → Text → Bool) → List Text → List Text
  pub patterns : Patterns
  pub decode_result : Decoder

unfoldable pub require_mode : ExecutionMode → Result (Unit {0})
require_mode trusted_local = ok tt
require_mode strict = ok tt
require_mode (other_mode s) = err (unsupported_mode s)

module _ {W : Type 0} (h : Host W) (lib : Library W) where
  abbrev pub env_of : W → Text → Option Text
  env_of w key = h.sys.lookup_env key w

  unfoldable pub secrets_from : List Text → W → List Text
  secrets_from [] w = []
  secrets_from (key ∷ keys) w =
      let rest = secrets_from keys w in
      elim (env_of w key) [ some value ↦ value ∷ rest | none ↦ rest ]

  unfoldable pub authentication_secrets : W → List Text
  unfolding secrets_from
  authentication_secrets w = secrets_from (codes "OPENAI_API_KEY" ∷ codes "CODEX_API_KEY" ∷ []) w

  -- The two calls of the decoder, on bytes that may be cut by a read error.
  unfoldable pub decode_only : Bool → Text → Result Task
  decode_only whole bytes = elim (lib.decode_task bytes) [
    | err e ↦ err (wrapped (codes "decode task") e)
    | ok (task, rest) ↦ if whole && lib.at_end rest then ok task else err one_object_required
  ]

  unfoldable pub decode_file : Reading → Result Task
  unfolding decode_only
  decode_file (contents bytes) = decode_only true bytes
  decode_file (absent m) = err (wrapped (codes "open task") (external m))
  decode_file (unopened m) = err (wrapped (codes "open task") (external m))
  decode_file (broken bytes m) = decode_only false bytes

  unfoldable pub load_task : Text → M W Task
  unfolding decode_file
  load_task path w =
      if is_empty path
      then (err task_required, w)
      else let (reading, w') = h.sys.read path w in (decode_file reading, w')

  unfoldable pub prepare_command : List Text → M W (Unit {0})
  unfolding load_task
  prepare_command args = do
    path ← lib.prepare_flags args
    task ← load_task path
    ready ← prepare h task
    lib.write_json (prepared_task ready.0 ready.1)

  unfoldable pub engine_of : ExecutionMode → W → Engine W CodexSession
  unfolding authentication_secrets default_codex new_redactor redact
  engine_of mode w = record {
    adapter = some (codex_adapter h.sys h.enc lib.decode_result (default_codex (env_of w)));
    mode = mode;
    redact = redact lib.patterns (new_redactor lib.sort_slice (authentication_secrets w));
    new_run_id = none;
  }

  -- `service.Run` with the engine made of the environment.
  unfoldable pub run_engine : ExecutionMode → W → Task → Text → M W Run
  unfolding service_run engine_of
  run_engine mode made task approved_digest w =
      let (out, w') = service_run h (engine_of mode made) task approved_digest w in
      (elim out.1 [ none ↦ ok out.0 | some e ↦ err e ], w')

  unfoldable pub run_command : List Text → M W (Unit {0})
  unfolding load_task mode_of require_mode run_engine
  run_command args = do
    flags ← lib.run_flags args
    lift (require (text_eq flags.strategy (codes "single")) (unsupported_strategy flags.strategy))
    lift (require (text_eq flags.writer (codes "codex")) (unsupported_writer flags.writer))
    lift (require_mode (mode_of flags.mode))
    task ← load_task flags.task_path
    made ← (λ w. (ok w, w))
    ready ← prepare h task
    run ← run_engine (mode_of flags.mode) made ready.0 flags.approved_digest
    lib.write_json (a_run run)

  unfoldable pub status_command : List Text → M W (Unit {0})
  status_command [] = fails run_id_required
  status_command (run_id ∷ args) = do
    repository ← lib.status_flags args
    run ← service_status h repository run_id
    lib.write_json (a_run run)

  unfoldable pub status_task_digest : Text → Text → W → Text × W
  status_task_digest repository run_id w =
      let (r, w') = service_status h repository run_id w in
      (elim r [ ok run ↦ run.task_digest | err _ ↦ [] ], w')

  abbrev pub approval_of : DecideFlags → HumanDecision → Text → ℕ → Approval
  approval_of flags decision task_digest now = record {
    actor = flags.actor;
    decision = decision;
    task_digest = task_digest;
    decision_packet_digest = flags.packet_digest;
    at = some now;
  }

  abbrev user : W → Text
  user w = elim (env_of w (codes "USER")) [ some name ↦ name | none ↦ [] ]

  unfoldable pub decide_command : List Text → M W (Unit {0})
  unfolding decision_of status_task_digest
  decide_command [] = fails decision_required
  decide_command (run_id ∷ []) = fails decision_required
  decide_command (run_id ∷ decision ∷ args) = do
    flags ← (λ w. lib.decide_flags (user w) args w)
    digest ← (λ w. let (d, w') = status_task_digest flags.repository run_id w in (ok d, w'))
    now ← h.sys.now
    run ←
        service_decide h flags.repository run_id
          (approval_of flags (decision_of decision) digest now)
    lib.write_json (a_run run)

  unfoldable pub dispatch : Text → List Text → M W (Unit {0})
  unfolding prepare_command run_command status_command decide_command
  dispatch command args =
      if text_eq command (codes "prepare")
      then prepare_command args
      else if text_eq command (codes "run")
      then run_command args
      else if text_eq command (codes "status")
      then status_command args
      else if text_eq command (codes "decide")
      then decide_command args
      else fails (unknown_command command)

  -- `execute`: the exit code.
  unfoldable pub execute : List Text → W → ℕ × W
  unfolding dispatch
  execute [] w = (2, lib.print_usage w)
  execute (command ∷ args) w =
      let (r, w') = dispatch command args w in
      elim r [ err e ↦ (1, lib.print_error e w') | ok _ ↦ (0, w') ]
