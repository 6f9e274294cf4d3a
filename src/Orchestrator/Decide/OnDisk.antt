-- ===== src/Orchestrator/Decide/OnDisk.antt =====
-- A run and the decision on it, over the file store.
use agent_orchestrator_publi.Base.{◌≡◌, refl, ap, subst, arith, none, some, Text, codes}
use agent_orchestrator_publi.Base.Errors.{Result, ok, err}
use agent_orchestrator_publi.FilePath.Clean.{join_path}
use agent_orchestrator_publi.Domain.Task.{Task}
use agent_orchestrator_publi.Domain.Run.{Approval}
use agent_orchestrator_publi.Runtime.{
  Reading as Read, contents, absent, unopened, broken, wrap_error, System,
}
use agent_orchestrator_publi.Evidence.{Encoding}
use agent_orchestrator_publi.Adapters.{Adapter}
use agent_orchestrator_publi.Store.{Codec}
use agent_orchestrator_publi.Store.Log.Grown.{IsFaithful}
use agent_orchestrator_publi.Store.Files.{
  run_dir, state_path, events_path, decode_state, read_state, file_store,
}
use agent_orchestrator_publi.Store.Disk.{Disk}
use agent_orchestrator_publi.Orchestrator.{Run}
use agent_orchestrator_publi.Orchestrator.Execute.{Engine, Host, run_task}
use agent_orchestrator_publi.Orchestrator.Execute.Throughout.{Named}
use agent_orchestrator_publi.Orchestrator.Execute.OnDisk.{
  disk_host, Around, run_task-Consistent-on_disk,
}
use agent_orchestrator_publi.Orchestrator.Journal.{Journal, Consistent, Recorded, Quiet}
use agent_orchestrator_publi.Orchestrator.Journal.Confined.{Confined}
use agent_orchestrator_publi.Orchestrator.Journal.Lockable.{beside-Lockable}
use agent_orchestrator_publi.Orchestrator.Journal.OnDisk.{on_disk, untouched, state_of}
use agent_orchestrator_publi.Orchestrator.Decide.{decide}
use agent_orchestrator_publi.Orchestrator.Decide.Recorded.{Opens, Reading, decide-Consistent}

module _ {W : Type 0} {sys : System W} (disk : Disk sys) (codec : Codec Run)
    (faithful : IsFaithful codec) (root id : Text) where
  abbrev path : Text
  path = state_path sys codec root id

  read_state-Quiet : Quiet (on_disk disk codec faithful root id) (read_state sys codec root id)
  unfolding read_state
  read_state-Quiet w =
      untouched disk codec faithful root id w (sys.read path w).1
        (disk.read path (events_path sys codec root id) w) (disk.read path path w)

  read_state-state :
      (r : Run) (w w' : W)
      → read_state sys codec root id w ≡ (ok r, w')
      → state_of disk codec faithful root id w ≡ some r
  unfolding read_state decode_state
  read_state-state r w w' h = go (sys.read path w) refl h
    where
      decoded :
          (m : Result Run)
          → wrap_error (codes "decode state") m ≡ ok r
          → elim m [ ok s ↦ some s | err x ↦ none ] ≡ some r
      decoded (ok s) e = ground arith
      decoded (err x) e = absurd (ground arith)

      of_bytes :
          (b : Text)
          → wrap_error (codes "decode state") (codec.unmarshal_state b) ≡ ok r
          → disk.content path w ≡ some b
          → state_of disk codec faithful root id w ≡ some r
      of_bytes b e found = rw found (decoded (codec.unmarshal_state b) e)

      go :
          (q : Read × W)
          → sys.read path w ≡ q
          → ◌≡◌ {A = Result Run × W} (decode_state sys codec root q.0, q.1) (ok r, w')
          → state_of disk codec faithful root id w ≡ some r
      go (contents b, v) e h = of_bytes b (ap (λ p. p.0) h) (disk.read_contents path b w v e)
      go (absent m, v) e h = absurd (ground arith)
      go (unopened m, v) e h = absurd (ground arith)
      go (broken b m, v) e h = absurd (ground arith)

module _ {W Session : Type 0} (sys : System W) (enc : Encoding) (engine : Engine W Session)
    (task : Task) (approved : Text) (disk : Disk sys) (codec : Codec Run)
    (faithful : IsFaithful codec) (root id : Text) (adapter : Adapter W Session)
    (confined : Confined
      (on_disk disk codec faithful root id)
      sys
      adapter
      (join_path (run_dir sys codec root id) (codes "evidence")))
    (around : Around sys enc engine task approved disk codec faithful root id adapter) where
  abbrev host : Host W
  host = disk_host sys enc engine task approved disk codec faithful root id adapter

  abbrev files : Journal (file_store sys codec root) id
  files = on_disk disk codec faithful root id

  reading : Reading host root id files
  reading = record {
    execute = confined.execute;
    read = read_state-Quiet disk codec faithful root id;
    reads = read_state-state disk codec faithful root id;
    lockable = beside-Lockable sys codec root id files around.now around.beside;
  }

  -- `Engine.Run` as in `run_task-Consistent-on_disk`, with all that it asks, and then
  -- `Engine.Decide` on the run that it has returned without an error, in the repository that
  -- `Opens` the same store: whatever `Decide` returns, the events that `ReadEvents` finds in the
  -- log, if it can be read, lead `Transition` from CREATED to the state in the state file, or do
  -- so without the last one; and where it returns a run and no error, both files hold the state of
  -- that run.
  pub run_then_decide-Consistent :
      (repository_root : Text) (approval : Approval) (w w₁ : W) {run : Run}
      → engine.adapter ≡ some adapter
      → Named host engine task approved root id files adapter w
      → disk.content (events_path sys codec root id) w ≡ none
      → disk.content (state_path sys codec root id) w ≡ none
      → run_task host engine task approved w ≡ ((run, none), w₁)
      → Opens host root id files repository_root w₁
      → let (r, w₂) = decide host repository_root id approval w₁ in
        Consistent files w₂ × ((run' : Run) → r ≡ ok run' → Recorded files run' w₂)
  run_then_decide-Consistent repository_root approval w w₁ {run} given named no_log no_state ran
        opens =
      decide-Consistent host root id files reading approval repository_root run w₁ opens recorded
    where
      recorded : Recorded files run w₁
      recorded =
          let (_, kept) =
            run_task-Consistent-on_disk sys enc engine task approved disk codec faithful root id
              adapter w confined around given named no_log no_state in
          subst (λ v. Recorded files v.0.0 v.1) ran (kept (ap (λ v. v.0.1) ran))
