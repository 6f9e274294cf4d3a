-- ===== src/Orchestrator/Journal/OnDisk.antt =====
-- The file store keeps the log and the state of a run as `Journal` says.
use agent_orchestrator_publi.Base.{
  ◌≡◌, refl, ap, subst, ◌∙◌, ◌⊎◌, inl, inr, Option, none, some, List, [], Text,
}
use agent_orchestrator_publi.Base.Errors.{Error, Result, ok, err}
use agent_orchestrator_publi.Domain.Task.{Task}
use agent_orchestrator_publi.Domain.Run.{created}
use agent_orchestrator_publi.Runtime.{System}
use agent_orchestrator_publi.Adapters.{Adapter}
use agent_orchestrator_publi.Store.{Event, Longer, Codec}
use agent_orchestrator_publi.Store.Log.Grown.{IsFaithful}
use agent_orchestrator_publi.Store.Files.{
  state_path, events_path, write_state, append_event, file_store,
}
use agent_orchestrator_publi.Store.Log.{decode_events}
use agent_orchestrator_publi.Store.Disk.{Disk, or_empty}
use agent_orchestrator_publi.Store.Disk.States.{Holds, Replaced, write_state-Replaced}
use agent_orchestrator_publi.Store.Disk.Appends.{append_event-Appended}
use agent_orchestrator_publi.Store.Disk.Appends.Line.{readable, log_of, Appended}
use agent_orchestrator_publi.Orchestrator.{Run}
use agent_orchestrator_publi.Orchestrator.Exits.{going}
use agent_orchestrator_publi.Orchestrator.Execute.{Engine, Host, locked_run}
use agent_orchestrator_publi.Orchestrator.Execute.Recorded.{locked_run-Consistent}
use agent_orchestrator_publi.Orchestrator.Journal.{Journal, Consistent, Recorded}
use agent_orchestrator_publi.Orchestrator.Journal.Confined.{Confined}

-- What is known of the two results of an operation, once they are named.
at_result :
    {W A : Type 0} (P : Result A → W → Type 0) (m : Result A × W) {r : Result A} {w' : W}
    → m ≡ (r, w')
    → P m.0 m.1
    → P r w'
at_result P m q p = subst (λ v. P v.0 v.1) q p

abbrev decoded : Codec Run → Option Text → Option Run
decoded codec none = none
decoded codec (some bytes) = elim (codec.unmarshal_state bytes) [ ok s ↦ some s | err x ↦ none ]

module _ {W : Type 0} {sys : System W} (disk : Disk sys) (codec : Codec Run)
    (faithful : IsFaithful codec) (root id : Text) where
  abbrev pub state_of : W → Option Run
  state_of w = decoded codec (disk.content (state_path sys codec root id) w)

  holds : (s : Run) (w : W) → Holds disk codec root id s w → state_of w ≡ some s
  holds s w (bytes, encoded, found) =
      ap (decoded codec) found
      ∙ ap (λ (r : Result Run). elim r as (λ _. Option Run) [ ok s ↦ some s | err x ↦ none ])
          (faithful.state_read_back s bytes encoded)

  abbrev log_now : W → Option (List Event)
  log_now = log_of disk codec root id

  same_log :
      (w w' : W)
      → disk.content (events_path sys codec root id) w'
        ≡ disk.content (events_path sys codec root id) w
      → log_now w' ≡ log_now w
  same_log w w' l = ap (λ o. readable (decode_events codec (or_empty o))) l

  -- The two files are all that counts.
  pub untouched :
      (w w' : W)
      → disk.content (events_path sys codec root id) w'
        ≡ disk.content (events_path sys codec root id) w
      → disk.content (state_path sys codec root id) w'
        ≡ disk.content (state_path sys codec root id) w
      → (log_now w' ≡ log_now w) × (state_of w' ≡ state_of w)
  untouched w w' l s = (same_log w w' l, ap (decoded codec) s)

  pub empty_log :
      (w : W) → disk.content (events_path sys codec root id) w ≡ none → log_now w ≡ some []
  empty_log w e =
      ap (λ o. readable (decode_events codec (or_empty o))) e ∙ unfold decode_events in refl

  pub no_state : (w : W) → disk.content (state_path sys codec root id) w ≡ none → state_of w ≡ none
  no_state w e = ap (decoded codec) e

  pub appended_on_disk :
      (e : Event) (w w' : W)
      → append_event sys codec root id e w ≡ (ok tt, w')
      → Longer e (log_now w) (log_now w') × (state_of w' ≡ state_of w)
  appended_on_disk e w w' q =
      let (s, l) =
        at_result (Appended disk codec root id e w) (append_event sys codec root id e w) q
          (append_event-Appended disk codec root id faithful e w) in
      (l, ap (decoded codec) s)

  pub not_appended_on_disk :
      (e : Event) (w w' : W) (x : Error)
      → append_event sys codec root id e w ≡ (err x, w')
      → ((log_now w' ≡ log_now w) ⊎ Longer e (log_now w) (log_now w')) × (state_of w' ≡ state_of w)
  not_appended_on_disk e w w' x q =
      let (s, l) =
        at_result (Appended disk codec root id e w) (append_event sys codec root id e w) q
          (append_event-Appended disk codec root id faithful e w) in
      (l, ap (decoded codec) s)

  pub written_on_disk :
      (s : Run) (w w' : W)
      → write_state sys codec root id s w ≡ (ok tt, w')
      → (log_now w' ≡ log_now w) × (state_of w' ≡ some s)
  written_on_disk s w w' q =
      let (l, h) =
        at_result (Replaced disk codec root id s w) (write_state sys codec root id s w) q
          (write_state-Replaced disk codec root id s w) in
      (same_log w w' l, holds s w' h)

  pub not_written_on_disk :
      (s : Run) (w w' : W) (x : Error)
      → write_state sys codec root id s w ≡ (err x, w')
      → (log_now w' ≡ log_now w) × ((state_of w' ≡ state_of w) ⊎ (state_of w' ≡ some s))
  not_written_on_disk s w w' x q =
      let (l, cases) =
        at_result (Replaced disk codec root id s w) (write_state sys codec root id s w) q
          (write_state-Replaced disk codec root id s w) in
      (
        same_log w w' l,
        elim cases [ inl t ↦ inl (ap (decoded codec) t) | inr h ↦ inr (holds s w' h) ],
      )

  abbrev pub on_disk : Journal (file_store sys codec root) id
  on_disk = record {
    log = log_of disk codec root id;
    state = state_of;
    appended = appended_on_disk;
    not_appended = not_appended_on_disk;
    written = written_on_disk;
    not_written = not_written_on_disk;
  }

-- `Engine.Run` under the lock of a new run, over the file store: none of the run's two files is
-- there at first. Whichever call of the operating system fails, the events that `ReadEvents` finds
-- in the log, if it can be read, lead `Transition` from CREATED to the state in the state file, or
-- do so without the last one; and where the function returns a run and no error, both files hold
-- the state of that run. Nothing but the store's own calls writes to the two files (`Confined`).
pub locked_run-Consistent-on_disk :
    {W Session : Type 0} (h : Host W) (engine : Engine W Session) (task : Task) (approved : Text)
    (disk : Disk h.sys) (codec : Codec Run) (faithful : IsFaithful codec) (root : Text)
    (adapter : Adapter W Session) (run : Run) (w : W)
    → Confined (on_disk disk codec faithful root run.id) h.sys adapter run.evidence_dir
    → run.state ≡ created
    → disk.content (events_path h.sys codec root run.id) w ≡ none
    → disk.content (state_path h.sys codec root run.id) w ≡ none
    → let (r, w') = locked_run h engine task approved (file_store h.sys codec root) adapter run w in
      let j = on_disk disk codec faithful root run.id in
      Consistent j w' × ((run' : Run) → r ≡ going run' → Recorded j run' w')
locked_run-Consistent-on_disk h engine task approved disk codec faithful root adapter run w confined
      new no_log no_file =
    locked_run-Consistent h engine task approved (file_store h.sys codec root) run.id
      (on_disk disk codec faithful root run.id) adapter run.evidence_dir confined run w refl new
      refl (empty_log disk codec faithful root run.id w no_log)
      (no_state disk codec faithful root run.id w no_file)
