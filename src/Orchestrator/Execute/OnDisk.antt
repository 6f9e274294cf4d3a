-- ===== src/Orchestrator/Execute/OnDisk.antt =====
-- `Engine.Run` as a whole over the file store, with its lock.
use agent_orchestrator_publi.Base.{◌≡◌, none, some, Text, codes}
use agent_orchestrator_publi.FilePath.Clean.{join_path}
use agent_orchestrator_publi.Domain.Task.{Task}
use agent_orchestrator_publi.Runtime.{System}
use agent_orchestrator_publi.Evidence.{Encoding}
use agent_orchestrator_publi.Adapters.{Adapter}
use agent_orchestrator_publi.Store.{Codec}
use agent_orchestrator_publi.Store.Log.Grown.{IsFaithful}
use agent_orchestrator_publi.Store.Files.{run_dir, state_path, events_path, file_store}
use agent_orchestrator_publi.Store.Disk.{Disk}
use agent_orchestrator_publi.Orchestrator.{Run}
use agent_orchestrator_publi.Orchestrator.Execute.{Engine, Host, run_id, run_task}
use agent_orchestrator_publi.Orchestrator.Execute.Throughout.{Outside, Named, run_task-Consistent}
use agent_orchestrator_publi.Orchestrator.Journal.{Journal, Consistent, Recorded, Quiet}
use agent_orchestrator_publi.Orchestrator.Journal.Lockable.{Beside, beside-Lockable}
use agent_orchestrator_publi.Orchestrator.Journal.Confined.{Confined}
use agent_orchestrator_publi.Orchestrator.Journal.OnDisk.{on_disk, empty_log, no_state}

module _ {W Session : Type 0} (sys : System W) (enc : Encoding) (engine : Engine W Session)
    (task : Task) (approved : Text) (disk : Disk sys) (codec : Codec Run)
    (faithful : IsFaithful codec) (root id : Text) (adapter : Adapter W Session) where
  -- A host whose `store.New` makes the file store.
  abbrev pub disk_host : Host W
  disk_host = record { sys = sys; enc = enc; new_store = file_store sys codec }

  abbrev pub run_files : Journal (file_store sys codec root) id
  run_files = on_disk disk codec faithful root id

  -- What `Engine.Run` calls of the system and the adapter, besides what `Confined` speaks of.
  pub record Around : Type 0 where
    pub probe : Quiet run_files adapter.probe
    pub draw : Quiet run_files (run_id disk_host engine task approved)
    pub now : Quiet run_files sys.now
    pub beside : Beside run_files sys codec (run_dir sys codec root id)

  outside : Around → Outside disk_host engine task approved root id run_files adapter
  outside around = record {
    probe = around.probe;
    draw = around.draw;
    lockable = beside-Lockable sys codec root id run_files around.now around.beside;
  }

  -- `Engine.Run` as a whole, with an adapter, for the run and over the store that are `Named`,
  -- with no file of the run there at first. On files that obey `Disk`, with a faithful encoding,
  -- and where nothing but the store's own calls writes to the two files (`Confined`, `Around`):
  -- whichever call fails, and whatever it returns, the events that `ReadEvents` finds in the log,
  -- if it can be read, lead `Transition` from CREATED to the state in the state file, or do so
  -- without the last one; and where no error is returned, both files hold the state of the run
  -- returned.
  pub run_task-Consistent-on_disk :
      (w : W)
      → Confined run_files sys adapter (join_path (run_dir sys codec root id) (codes "evidence"))
      → Around
      → engine.adapter ≡ some adapter
      → Named disk_host engine task approved root id run_files adapter w
      → disk.content (events_path sys codec root id) w ≡ none
      → disk.content (state_path sys codec root id) w ≡ none
      → let (r, w') = run_task disk_host engine task approved w in
        Consistent run_files w' × (r.1 ≡ none → Recorded run_files r.0 w')
  run_task-Consistent-on_disk w confined around given named no_log no_file =
      run_task-Consistent disk_host engine task approved root id run_files adapter confined
        (outside around) given w named (empty_log disk codec faithful root id w no_log)
        (no_state disk codec faithful root id w no_file)
