-- ===== src/Tests/OnDisk.antt =====
-- A run of the engine over the file store, in the small world of files.
use agent_orchestrator_publi.Base.{
  ◌≡◌, ◌≢◌, refl, ap, true, false, Option, none, some, [], ◌∷◌, ◌++◌, Text, codes, any, text_eq,
}
use agent_orchestrator_publi.Base.Errors.{ok, err, adapter_required}
use agent_orchestrator_publi.FilePath.Split.{split}
use agent_orchestrator_publi.FilePath.Clean
use agent_orchestrator_publi.FilePath.Clean.{join_path}
use agent_orchestrator_publi.Domain.Run.{
  preparing, implementing, verifying, awaiting_approval, completed, recovery_required,
  preparation_started, implementation_started, implementation_finished, verification_finished,
  approved,
}
use agent_orchestrator_publi.Policy.{trusted_local}
use agent_orchestrator_publi.Store.{effect_intent, effect_settlement, Codec}
use agent_orchestrator_publi.Store.Files.{run_dir, state_path, events_path, file_store}
use agent_orchestrator_publi.Adapters.{Job, Adapter}
use agent_orchestrator_publi.Orchestrator.{Run, event_of}
use agent_orchestrator_publi.Orchestrator.Exits.{going}
use agent_orchestrator_publi.Orchestrator.Execute.{Engine, Host, locked_run, effect_event, new_run}
use agent_orchestrator_publi.Orchestrator.Journal.{Journal, Consistent, Recorded}
use agent_orchestrator_publi.Orchestrator.Journal.Confined.{
  Confined, EvidenceName, diff_patch, evidence_bundle, decision_packet,
}
use agent_orchestrator_publi.Orchestrator.Journal.OnDisk.{
  on_disk, untouched, locked_run-Consistent-on_disk,
}
use agent_orchestrator_publi.Tests.Table.{table_codec, table-IsFaithful}
use agent_orchestrator_publi.Tests.World
use agent_orchestrator_publi.Tests.World.{task, approved_digest}
use agent_orchestrator_publi.Tests.Files.{FileWorld, put, write_at, set_other, file_sys, file_disk}

abbrev pub root : Text
root = codes "/r/.git/agent-orchestrator"

abbrev pub evidence_dir : Text
evidence_dir = codes "/r/.git/agent-orchestrator/runs/r1/evidence"

-- The agent that stops before it reports.
abbrev pub lost_agent : Adapter FileWorld (Unit {0})
lost_agent = record {
  probe = λ w. (
    ok (record {
      structured_output = true;
      cancellation = true;
      session_resume = false;
      read_only = true;
      workspace_write = true;
      native_sandbox = false;
      streaming = true;
    }),
    w,
  );
  start = λ job w. (ok tt, w);
  wait = λ session w. (err adapter_required, w);
}

abbrev pub engine : Engine FileWorld (Unit {0})
engine = record {
  adapter = some lost_agent;
  mode = trusted_local;
  redact = λ s. s;
  new_run_id = some (λ w. (codes "r1", w));
}

-- The agent that makes the commit.
abbrev pub able_agent : Adapter FileWorld (Unit {0})
able_agent = record lost_agent {
  wait = λ session w. (
    ok (record {
      session_id = codes "s";
      result_commit = World.new_commit;
      structured_value = [];
      usage = record { input_tokens = 1; output_tokens = 1; wall_time = 1 };
    }),
    w,
  );
}

abbrev pub able_engine : Engine FileWorld (Unit {0})
able_engine = record engine { adapter = some able_agent }

abbrev pub no_codec : Codec Run
no_codec = table_codec [] []

abbrev pub bare_host : Host FileWorld
bare_host = record { sys = file_sys; enc = World.enc; new_store = file_store file_sys no_codec }

abbrev pub new : Run
new = new_run bare_host engine task approved_digest (codes "r1") (codes "/r") evidence_dir

abbrev pub verifying_run : Run
verifying_run = record new { state = verifying; result_commit = World.new_commit }

abbrev pub waiting_run : Run
waiting_run = record verifying_run {
  state = awaiting_approval;
  verification_digest = codes "ab02";
  evidence_digest = codes "ab03";
  decision_packet_digest = codes "ab04";
}

abbrev pub completed_run : Run
completed_run = record waiting_run { state = completed }

-- What the two agents' runs write down, and a decision on the second.
abbrev pub codec : Codec Run
codec =
    table_codec
      (event_of preparation_started 1
        ∷ event_of implementation_started 1
        ∷ effect_event effect_intent 1
        ∷ effect_event effect_settlement 1
        ∷ event_of implementation_finished 1
        ∷ event_of verification_finished 1
        ∷ event_of approved 1
        ∷ [])
      (new
        ∷ record new { state = preparing }
        ∷ record new { state = implementing }
        ∷ record new { state = recovery_required; recovery_workspace = codes "/tmp/x/writer" }
        ∷ verifying_run
        ∷ waiting_run
        ∷ completed_run
        ∷ [])

abbrev pub host : Host FileWorld
host = record { sys = file_sys; enc = World.enc; new_store = file_store file_sys codec }

abbrev pub journal : Journal (file_store file_sys codec root) (codes "r1")
journal = on_disk file_disk codec (table-IsFaithful _ _) root (codes "r1")

abbrev pub events : Text
events = events_path file_sys codec root (codes "r1")

abbrev pub state : Text
state = state_path file_sys codec root (codes "r1")

apart :
    (name : Text)
    → EvidenceName name
    → (events ≢ join_path evidence_dir name) × (state ≢ join_path evidence_dir name)
unfolding run_dir Clean.join_paths Clean.join_path Clean.clean Clean.is_abs Clean.element split any
    text_eq
apart _ diff_patch = (λ e. cc e, λ e. cc e)
apart _ evidence_bundle = (λ e. cc e, λ e. cc e)
apart _ decision_packet = (λ e. cc e, λ e. cc e)

pub elsewhere :
    (p : Text) (o : Option Text) (w : FileWorld)
    → (events ≢ p) × (state ≢ p)
    → (journal.log (put p o w) ≡ journal.log w) × (journal.state (put p o w) ≡ journal.state w)
elsewhere p o w (e, s) =
    untouched file_disk codec (table-IsFaithful _ _) root (codes "r1") w (put p o w)
      (set_other p events o w.files e) (set_other p state o w.files s)

written :
    (p b : Text) (w : FileWorld)
    → (events ≢ p) × (state ≢ p)
    → (journal.log (file_sys.write p b w).1 ≡ journal.log w)
      × (journal.state (file_sys.write p b w).1 ≡ journal.state w)
written p b w n = go (w.files p)
  where
    go :
        (o : Option Text)
        → (journal.log (write_at p b o w).1 ≡ journal.log w)
          × (journal.state (write_at p b o w).1 ≡ journal.state w)
    go none = (refl, refl)
    go (some c) = elsewhere p (some (c ++ b)) w n

pub agent-Confined :
    (agent : Adapter FileWorld (Unit {0}))
    → ((job : Job) (w : FileWorld) → (agent.start job w).1 ≡ w)
    → ((session : Unit {0}) (w : FileWorld) → (agent.wait session w).1 ≡ w)
    → Confined journal file_sys agent evidence_dir
agent-Confined agent starts waits = record {
  execute = λ spec env w. (refl, refl);
  make_temp_dir = λ name w. (refl, refl);
  mkdir_all = λ w. (refl, refl);
  create_new =
      λ name given w. elsewhere (join_path evidence_dir name) (some []) w (apart name given);
  write = λ name given b w. written (join_path evidence_dir name) b w (apart name given);
  sync = λ name given w. (refl, refl);
  close = λ name given w. (refl, refl);
  start = λ job w. (ap journal.log (starts job w), ap journal.state (starts job w));
  wait = λ session w. (ap journal.log (waits session w), ap journal.state (waits session w));
}

abbrev pub empty : FileWorld
empty = record { files = λ p. none; dirs = λ p. false }

pub nothing_yet : (file_disk.content events empty ≡ none) × (file_disk.content state empty ≡ none)
nothing_yet = (refl, refl)

locked_run-Consistent-on_disk_example :
    let (r, w') =
      locked_run host engine task approved_digest
        (file_store file_sys codec root)
        lost_agent
        new
        empty in
    Consistent journal w' × ((run' : Run) → r ≡ going run' → Recorded journal run' w')
locked_run-Consistent-on_disk_example =
    locked_run-Consistent-on_disk host engine task approved_digest file_disk codec
      (table-IsFaithful _ _) root lost_agent new empty
      (agent-Confined lost_agent (λ job w. refl) (λ session w. refl)) refl nothing_yet.0
      nothing_yet.1
