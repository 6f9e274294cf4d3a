-- ===== src/Adapters/Codex.antt =====
-- internal/adapters/codex/adapter.go: the agent that runs the program `codex`.
pub mod Outcome
pub mod Session
use agent_orchestrator_publi.Base.{
  ℕ, ◌-◌, pos, Bool, true, false, ◌||◌, if◌then◌else◌, Option, none, some, List, [], ◌∷◌, ◌++◌,
  Text, codes, is_empty, insert,
}
use agent_orchestrator_publi.Base.Errors.{
  Error, Result, ok, err, require, refuse_if, wrapped, external, directories_required, probe_failed,
  codex_failed,
}
use agent_orchestrator_publi.FilePath.Clean.{join_path}
use agent_orchestrator_publi.Domain.Task.{Task}
use agent_orchestrator_publi.Runtime.{
  M, pure, lift, ◌>>=◌, ◌>>◌, wrapping, releasing, Reading, contents, absent, unopened, broken,
  Spec, System,
}
use agent_orchestrator_publi.Runtime.Process.{ProcessResult, run}
use agent_orchestrator_publi.Workspace.{pass_env, head_of}
use agent_orchestrator_publi.Evidence.{task_value, Encoding}
use agent_orchestrator_publi.Adapters.{AdapterCapabilities, AdapterResult, Job, Adapter}
use agent_orchestrator_publi.Adapters.Results.{Decoder, parse_structured_result}

pub record CodexOptions (W : Type 0) : Type 0 where
  pub path : Text
  pub prefix_args : List Text
  pub env : List (Text × Text)
  pub resolve_head : Option (Text → M W Text)

-- What the goroutine of a session is started with.
pub record CodexSession : Type 0 where
  pub job : Job
  pub schema_path : Text
  pub last_message_path : Text
  pub prompt : Text

abbrev newline : Text
newline = 10 ∷ []

abbrev result_schema : Text
result_schema =
    codes "{"
    ++ newline
    ++ codes "  \"type\": \"object\","
    ++ newline
    ++ codes "  \"additionalProperties\": false,"
    ++ newline
    ++ codes "  \"properties\": {"
    ++ newline
    ++ codes "    \"sessionId\": {\"type\": \"string\", \"minLength\": 1},"
    ++ newline
    ++ codes "    \"resultCommit\": {\"type\": \"string\", \"pattern\": \"^[0-9a-f]{40}$\"}"
    ++ newline
    ++ codes "  },"
    ++ newline
    ++ codes "  \"required\": [\"sessionId\", \"resultCommit\"]"
    ++ newline
    ++ codes "}"
    ++ newline

abbrev passed_keys : List Text
passed_keys =
    codes "PATH"
    ∷ codes "HOME"
    ∷ codes "TMPDIR"
    ∷ codes "CODEX_HOME"
    ∷ codes "CODEX_API_KEY"
    ∷ codes "OPENAI_API_KEY"
    ∷ codes "HTTPS_PROXY"
    ∷ codes "HTTP_PROXY"
    ∷ codes "NO_PROXY"
    ∷ codes "SSL_CERT_FILE"
    ∷ []

-- The environment of `Default`.
unfoldable pub default_env : (Text → Option Text) → List (Text × Text)
unfolding pass_env insert
default_env env =
    let passed = pass_env env passed_keys [] in
    let named = insert (codes "GIT_AUTHOR_NAME") (codes "agent-orchestrator") passed in
    let mailed = insert (codes "GIT_AUTHOR_EMAIL") (codes "agent-orchestrator@localhost") named in
    let committed = insert (codes "GIT_COMMITTER_NAME") (codes "agent-orchestrator") mailed in
    insert (codes "GIT_COMMITTER_EMAIL") (codes "agent-orchestrator@localhost") committed

module _ {W : Type 0} where
  -- `New`
  unfoldable pub new_codex : CodexOptions W → CodexOptions W
  new_codex options =
      if is_empty options.path then record options { path = codes "codex" } else options

  -- `Default`
  unfoldable pub default_codex : (Text → Option Text) → CodexOptions W
  unfolding new_codex default_env
  default_codex env =
      new_codex (record { path = []; prefix_args = []; env = default_env env; resolve_head = none })

-- What `Probe` reports of every version.
abbrev pub codex_capabilities : AdapterCapabilities
codex_capabilities = record {
  structured_output = true;
  cancellation = true;
  session_resume = false;
  read_only = false;
  workspace_write = true;
  native_sandbox = false;
  streaming = false;
}

module _ {W : Type 0} (sys : System W) (enc : Encoding) (decode : Decoder)
    (options : CodexOptions W) where
  -- A program that has run, with its result, or the error that is made of its own and its output.
  unfoldable pub run_program : (Error → Text → Error) → Spec → M W ProcessResult
  unfolding run
  run_program failure spec w =
      let (r, w') = run sys spec w in
      (elim r.1 [ none ↦ ok r.0 | some e ↦ err (failure e r.0.stderr) ], w')

  abbrev pub version_spec : Spec
  version_spec = record {
    path = options.path;
    args = options.prefix_args ++ (codes "--version" ∷ []);
    dir = [];
    env = options.env;
    timeout = pos 10;
  }

  unfoldable pub codex_probe : M W AdapterCapabilities
  unfolding run_program
  codex_probe = do _ ← run_program probe_failed version_spec; pure codex_capabilities

  unfoldable pub build_prompt : Job → Result Text
  build_prompt job = elim (enc.marshal (task_value job.task)) [
    | err e ↦ err (wrapped (codes "marshal task prompt") e)
    | ok task_json ↦ ok (
        codes "You are the writer for a bounded repository task."
        ++ newline
        ++ codes "Task digest: "
        ++ job.task_digest
        ++ newline
        ++ codes "Task contract: "
        ++ task_json
        ++ newline
        ++ codes "Work exclusively in the current working directory. "
        ++ codes "Repository.Root identifies the source repository, not a writable path."
        ++ newline
        ++ codes
            "Modify only allowed paths. Do not push, merge, deploy, or access production systems."
        ++ newline
        ++ codes
            "Run relevant local checks, create exactly one Git commit, then return the required JSON "
        ++ codes "with a non-empty sessionId and resultCommit equal to git rev-parse HEAD.")
  ]

  -- A step whose failure takes the temporary file away.
  unfoldable pub or_discard : {A : Type 0} → Text → M W A → M W A
  or_discard path m w =
      let (r, w') = m w in elim r [ ok a ↦ (ok a, w') | err e ↦ (err e, (sys.remove path w').1) ]

  unfoldable pub codex_start : Job → M W CodexSession
  unfolding wrapping or_discard build_prompt
  codex_start job = do
    lift (refuse_if (is_empty job.workspace_dir || is_empty job.evidence_dir) directories_required)
    wrapping (codes "create evidence directory") (sys.mkdir_all job.evidence_dir)
    let schema_path = join_path job.evidence_dir (codes "codex-result.schema.json")
    wrapping (codes "write result schema") (sys.write_file schema_path result_schema)
    last ←
        wrapping (codes "create temporary result file")
          (sys.create_temp [] (codes "agent-orchestrator-codex-result-*"))
    or_discard last (wrapping (codes "close temporary result file") (sys.close last))
    prompt ← or_discard last (lift (build_prompt job))
    pure
        (record { job = job; schema_path = schema_path; last_message_path = last; prompt = prompt })

  abbrev pub codex_args : CodexSession → List Text
  codex_args s =
      options.prefix_args
      ++ (codes "exec"
          ∷ codes "--sandbox"
          ∷ codes "workspace-write"
          ∷ codes "--ephemeral"
          ∷ codes "--json"
          ∷ codes "--color"
          ∷ codes "never"
          ∷ codes "--cd"
          ∷ s.job.workspace_dir
          ∷ codes "--output-schema"
          ∷ s.schema_path
          ∷ codes "--output-last-message"
          ∷ s.last_message_path
          ∷ s.prompt
          ∷ [])

  -- `os.ReadFile`
  unfoldable pub read_file : Text → M W Text
  read_file path w =
      let (reading, w') = sys.read path w in
      (
        elim reading [
          | contents bytes ↦ ok bytes
          | absent m ↦ err (external m)
          | unopened m ↦ err (external m)
          | broken _ m ↦ err (external m)
        ],
        w',
      )

  unfoldable pub resolve_with : Text → M W Text
  unfolding head_of
  resolve_with = elim options.resolve_head [ some f ↦ f | none ↦ head_of sys ]

  abbrev pub exec_spec : CodexSession → Spec
  exec_spec s = record {
    path = options.path;
    args = codex_args s;
    dir = s.job.workspace_dir;
    env = options.env;
    timeout = s.job.budget.max_seconds;
  }

  -- The end of `session.run`, for what git resolves as the head.
  unfoldable pub codex_finish : CodexSession → ℕ → AdapterResult → M W AdapterResult
  unfolding wrapping resolve_with
  codex_finish s started result = do
    head ← wrapping (codes "resolve writer HEAD") (resolve_with s.job.workspace_dir)
    finished ← sys.now
    let usage = record result.usage { wall_time = finished - started }
    pure (record result { result_commit = head; usage = usage })

  -- `session.run` from the agent's last message on.
  unfoldable pub codex_report : CodexSession → ℕ → M W AdapterResult
  unfolding wrapping read_file parse_structured_result codex_finish
  codex_report s started = do
    bytes ← wrapping (codes "read codex terminal result") (read_file s.last_message_path)
    result ← lift (parse_structured_result decode bytes)
    codex_finish s started result

  -- `session.run` up to the removal of the temporary file: the outcome that it sets.
  unfoldable pub codex_outcome : CodexSession → M W AdapterResult
  unfolding run_program codex_report
  codex_outcome s = do
    started ← sys.now
    _ ← run_program codex_failed (exec_spec s)
    codex_report s started

  unfoldable pub codex_run : CodexSession → M W AdapterResult
  unfolding releasing codex_outcome
  codex_run s = releasing (sys.remove s.last_message_path) (codex_outcome s)

  -- The adapter; waiting for a session lets its goroutine run, to its end: the wait is not cut short.
  abbrev pub codex_adapter : Adapter W CodexSession
  codex_adapter = record { probe = codex_probe; start = codex_start; wait = codex_run }
