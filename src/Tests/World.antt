-- ===== src/Tests/World.antt =====
-- A small world to run the engine in: one run's log and state file, git and an agent that answer
-- as if the agent had made one commit, and an encoding that is easy to compute.
use agent_orchestrator_publi.Base.{
  ℕ, ◌≡◌, refl, sym, ap, inl, pos, true, false, if◌then◌else◌, Option, none, some, List, [], ◌∷◌,
  ◌++◌, Text, codes, text_eq,
}
use agent_orchestrator_publi.Base.Errors.{Error, Result, ok, err, adapter_required}
use agent_orchestrator_publi.Domain.Task.{Task, execute_reversible}
use agent_orchestrator_publi.Policy.{trusted_local}
use agent_orchestrator_publi.Runtime.{Launch, waited, absent, made, System}
use agent_orchestrator_publi.Evidence.{
  Value, task_value, results_value, bundle_value, packet_value, Encoding,
}
use agent_orchestrator_publi.Adapters.{Job, Adapter}
use agent_orchestrator_publi.Store.{Event, RunStore}
use agent_orchestrator_publi.Orchestrator.{Run}
use agent_orchestrator_publi.Orchestrator.Execute.{Engine, Host}
use agent_orchestrator_publi.Orchestrator.Journal.{Journal}
use agent_orchestrator_publi.Orchestrator.Journal.Confined.{Confined}

pub record World : Type 0 where
  pub log : List Event
  pub state : Option Run

abbrev pub start : World
start = record { log = []; state = none }

abbrev pub base_commit : Text
base_commit = codes "aaaaaaaaaaaaaaaaaaaaaaaaaaaaaaaaaaaaaaaa"

abbrev pub new_commit : Text
new_commit = codes "bbbbbbbbbbbbbbbbbbbbbbbbbbbbbbbbbbbbbbbb"

abbrev pub head_answer : Text → Text
head_answer flag =
    if text_eq flag (codes "--show-toplevel")
    then codes "/r" ++ (10 ∷ [])
    else if text_eq flag (codes "--git-common-dir")
    then codes ".git" ++ (10 ∷ [])
    else if text_eq flag (codes "--verify")
    then base_commit ++ (10 ∷ [])
    else new_commit ++ (10 ∷ [])

abbrev pub diff_answer : Text → Text
diff_answer flag =
    if text_eq flag (codes "--name-only") then codes "src/a.go" ++ (0 ∷ []) else codes "+x"

-- What git writes to its standard output.
abbrev pub answer : List Text → Text
answer (verb ∷ flag ∷ _) =
    if text_eq verb (codes "rev-parse")
    then head_answer flag
    else if text_eq verb (codes "rev-list")
    then new_commit ++ (32 ∷ base_commit ++ (10 ∷ []))
    else if text_eq verb (codes "diff")
    then diff_answer flag
    else []
answer _ = []

abbrev pub ended_well : Text → Launch
ended_well stdout =
    waited
      (record {
        started_at = 100;
        finished_at = 101;
        stdout = stdout;
        stderr = [];
        exit_code = pos 0;
        wait_error = none;
      })
      none

abbrev pub sys : System World
sys = record {
  lookup_env = λ key w. none;
  now = λ w. (ok 7, w);
  pid = 42;
  execute = λ spec env w. (ended_well (answer spec.args), w);
  make_temp_dir = λ name w. (ok (codes "/tmp/x"), w);
  mkdir_all = λ path w. (ok tt, w);
  mkdir = λ path w. (made, w);
  create_new = λ path w. (ok tt, w);
  create_temp = λ dir pattern w. (ok dir, w);
  open_append = λ path w. (ok tt, w);
  open_dir = λ path w. (ok tt, w);
  write = λ path bytes w. (ok tt, w);
  sync = λ path w. (ok tt, w);
  chmod = λ path w. (ok tt, w);
  close = λ path w. (ok tt, w);
  read = λ path w. (absent [], w);
  write_file = λ path bytes w. (ok tt, w);
  rename = λ old new w. (ok tt, w);
  remove = λ path w. (ok tt, w);
  remove_all = λ path w. (ok tt, w);
  random_bytes = λ w. (1 ∷ 2 ∷ [], w);
}

abbrev tag : Value → ℕ
tag (task_value t) = 1
tag (results_value rs) = 2
tag (bundle_value b) = 3
tag (packet_value p) = 4

abbrev pub enc : Encoding
enc = record {
  marshal = λ v. ok (tag v ∷ []);
  marshal_indent = λ v. ok (tag v ∷ []);
  sum256 = λ s. 171 ∷ s;
}

abbrev pub store : RunStore World Run
store = record {
  run_dir = λ id. codes "/s/" ++ id;
  append_event = λ id e w. (ok tt, record w { log = w.log ++ (e ∷ []) });
  write_state = λ id run w. (ok tt, record w { state = some run });
  read_state = λ id w. (elim w.state [ some run ↦ ok run | none ↦ err adapter_required ], w);
  acquire_lock = λ path owner w. (ok path, w);
  release_lock = λ lock w. (ok tt, w);
}

abbrev pub host : Host World
host = record { sys = sys; enc = enc; new_store = λ root. store }

abbrev pub agent : Adapter World (Unit {0})
agent = record {
  probe = λ w. (
    ok (record {
      structured_output = true;
      cancellation = true;
      session_resume = false;
      read_only = true;
      workspace_write = true;
      native_sandbox = false;
      streaming = true;
    }),
    w,
  );
  start = λ job w. (ok tt, w);
  wait = λ session w. (
    ok (record {
      session_id = codes "s";
      result_commit = new_commit;
      structured_value = [];
      usage = record { input_tokens = 1; output_tokens = 1; wall_time = 1 };
    }),
    w,
  );
}

-- The agent that stops before it reports.
abbrev pub lost_agent : Adapter World (Unit {0})
lost_agent = record agent { wait = λ session w. (err adapter_required, w) }

abbrev pub engine_of : Adapter World (Unit {0}) → Engine World (Unit {0})
engine_of adapter = record {
  adapter = some adapter;
  mode = trusted_local;
  redact = λ s. s;
  new_run_id = some (λ w. (codes "r1", w));
}

abbrev pub task : Task
task = record {
  id = codes "t-1";
  repository = record { root = codes "/r"; base_ref = base_commit };
  objective = codes "fix";
  rationale = codes "why";
  deliverables = codes "patch" ∷ [];
  non_goals = [];
  allowed_paths = codes "src/" ∷ [];
  constraints = [];
  acceptance = (record { argv = codes "go" ∷ codes "test" ∷ []; timeout_seconds = pos 60 }) ∷ [];
  delegation = execute_reversible;
  budget = record { max_attempts = pos 1; max_seconds = pos 600 };
}

abbrev pub approved_digest : Text
approved_digest = codes "ab01"

pub succeeds :
    {w w' : World} {x : Error} → ◌≡◌ {A = Result (Unit {0}) × World} (ok tt, w) (err x, w') → ⊥
succeeds p = cc (ap (λ q. q.0) p)

abbrev pub journal : Journal store (codes "r1")
journal = record {
  log = λ w. some w.log;
  state = λ w. w.state;
  appended = λ e w w' p. (inl (sym (ap (λ q. some q.1.log) p)), sym (ap (λ q. q.1.state) p));
  not_appended = λ e w w' x p. absurd (succeeds p);
  written = λ r w w' p. (sym (ap (λ q. some q.1.log) p), sym (ap (λ q. q.1.state) p));
  not_written = λ r w w' x p. absurd (succeeds p);
}

pub agent-Confined :
    (adapter : Adapter World (Unit {0}))
    → ((job : Job) (w : World) → (adapter.start job w).1 ≡ w)
    → ((session : Unit {0}) (w : World) → (adapter.wait session w).1 ≡ w)
    → Confined journal sys adapter (codes "/s/r1/evidence")
agent-Confined adapter starts waits = record {
  execute = λ spec env w. (refl, refl);
  make_temp_dir = λ name w. (refl, refl);
  mkdir_all = λ w. (refl, refl);
  create_new = λ name given w. (refl, refl);
  write = λ name given bytes w. (refl, refl);
  sync = λ name given w. (refl, refl);
  close = λ name given w. (refl, refl);
  start = λ job w. (ap journal.log (starts job w), ap journal.state (starts job w));
  wait = λ session w. (ap journal.log (waits session w), ap journal.state (waits session w));
}
