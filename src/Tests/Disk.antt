-- ===== src/Tests/Disk.antt =====
-- The file store in a small world of files.
use native.Mathlib.Decide.{ℕ_discrete}
use agent_orchestrator_publi.Base.{
  ℕ, ◌≤◌, ◌≡◌, ◌≢◌, refl, false, none, some, [], ◌∷◌, ◌++◌, Text, codes, text_eq, any, length,
  text_discrete,
}
use agent_orchestrator_publi.Base.Errors.{Error, ok, err, locked}
use agent_orchestrator_publi.FilePath.Split.{split}
use agent_orchestrator_publi.FilePath.Clean
use agent_orchestrator_publi.Domain.Run.{preparing, implementing}
use agent_orchestrator_publi.Policy.{trusted_local}
use agent_orchestrator_publi.Runtime.{wrapping, releasing, contents}
use agent_orchestrator_publi.Store.{Event, LockOwner, Codec}
use agent_orchestrator_publi.Store.Log.{cut, drop_cr, decode_line, decode_lines, decode_events}
use agent_orchestrator_publi.Store.Files
use agent_orchestrator_publi.Store.Files.{
  state_path, events_path, run_dir, lock_path, write_state, read_state, append_event, acquire_lock,
  release_lock,
}
use agent_orchestrator_publi.Runtime.Process.{sort_texts}
use agent_orchestrator_publi.Runtime.Process.Sorted.{IsSorted}
use agent_orchestrator_publi.Base.{member, ◌↔◌, List, true}
use agent_orchestrator_publi.Store.{effect_intent, effect_settlement}
use agent_orchestrator_publi.Store.Files.{ambiguous_effects, read_events}
use agent_orchestrator_publi.Store.Effects.{IsUnsettled, ambiguous_effects-IsUnsettled}
use agent_orchestrator_publi.Store.Disk.{or_empty}
use agent_orchestrator_publi.Store.Disk.States.{Replaced, write_state-Replaced}
use agent_orchestrator_publi.Store.Disk.Appends.{append_event-Appended}
use agent_orchestrator_publi.Store.Disk.Appends.Line.{log_of, Appended}
use agent_orchestrator_publi.Store.Disk.Written.{
  IsOrdered, write_state-read_state, append_event-torn, append_event-IsOrdered,
}
use agent_orchestrator_publi.Store.Lock.Released.{IsReleased, release-IsReleased}
use agent_orchestrator_publi.Store.Lock.{here, next, acquire, refuse, release, Reach-exclusion}
use agent_orchestrator_publi.Orchestrator.{Run}
use agent_orchestrator_publi.Tests.Table
use agent_orchestrator_publi.Tests.Table.{table_codec, table-IsFaithful}
use agent_orchestrator_publi.Tests.World
use agent_orchestrator_publi.Tests.Files.{FileWorld, set, file_sys, file_disk, file_dirs}

abbrev root : Text
root = codes "/s"

abbrev id : Text
id = codes "r1"

abbrev event : Text → Event
event type = record { type = type; effect_id = []; payload = []; generation = 1 }

abbrev first : Event
first = event (codes "preparation_started")

abbrev second : Event
second = event (codes "implementation_started")

abbrev run_1 : Run
run_1 = record {
  id = id;
  state = preparing;
  task_digest = World.approved_digest;
  decision_packet_digest = [];
  evidence_digest = [];
  verification_digest = [];
  repository_root = codes "/r";
  base_commit = World.base_commit;
  result_commit = [];
  recovery_workspace = [];
  execution_mode = trusted_local;
  generation = 1;
  evidence_dir = codes "/s/runs/r1/evidence";
}

abbrev codec : Codec Run
codec = table_codec (first ∷ second ∷ []) (run_1 ∷ record run_1 { state = implementing } ∷ [])

abbrev empty : FileWorld
empty = record { files = λ p. none; dirs = λ p. false }

-- The first byte of a log is the first event; no newline ends it.
abbrev torn : FileWorld
torn = record empty { files = set (codes "/s/runs/r1/events.jsonl") (some (100 ∷ [])) empty.files }

abbrev w₁ : FileWorld
w₁ = (write_state file_sys codec root id run_1 empty).1

-- The state is written and read back, and the log grows by one event each time; behind a line that
-- has been cut short, it cannot be read any more.
works :
    (write_state file_sys codec root id run_1 empty ≡ (ok tt, w₁))
    × (file_sys.read (state_path file_sys codec root id) w₁ ≡ (contents (100 ∷ 10 ∷ []), w₁))
unfolding write_state Files.replace_state Files.or_close Files.sync_directory run_dir wrapping
    releasing Clean.join_paths Clean.join_path Clean.clean Clean.is_abs Clean.element split any
    text_eq text_discrete Table.encode ℕ_discrete
works = (refl, refl)

write_state-Replaced_example :
    Replaced file_disk codec root id run_1 empty
      (write_state file_sys codec root id run_1 empty).0
      w₁
write_state-Replaced_example = write_state-Replaced file_disk codec root id run_1 empty

write_state-read_state_example : read_state file_sys codec root id w₁ ≡ (ok run_1, w₁)
write_state-read_state_example =
    write_state-read_state file_disk codec root id (table-IsFaithful _ _) run_1 empty works.0
      works.1

abbrev w₂ : FileWorld
w₂ = (append_event file_sys codec root id first empty).1

abbrev w₃ : FileWorld
w₃ = (append_event file_sys codec root id second w₂).1

appends :
    (append_event file_sys codec root id second w₂ ≡ (ok tt, w₃))
    × (log_of file_disk codec root id w₂ ≡ some (first ∷ []))
    × (log_of file_disk codec root id w₃ ≡ some (first ∷ second ∷ []))
unfolding append_event Files.read_events Files.decode_log Files.fence Files.write_event cut drop_cr
    decode_events decode_lines decode_line run_dir wrapping releasing Clean.join_paths
    Clean.join_path Clean.clean Clean.is_abs Clean.element split any text_eq text_discrete
    Table.encode Table.decode Table.member_at ℕ_discrete
appends = (refl, refl, refl)

append_event-Appended_example :
    Appended file_disk codec root id second w₂ (append_event file_sys codec root id second w₂).0 w₃
append_event-Appended_example =
    append_event-Appended file_disk codec root id (table-IsFaithful _ _) second w₂

append_event-IsOrdered_example :
    (first ∷ second ∷ [] ≡ (first ∷ []) ++ (second ∷ [])) × IsOrdered (first ∷ second ∷ [])
append_event-IsOrdered_example =
    append_event-IsOrdered file_disk codec root id (table-IsFaithful _ _) second w₂ appends.0
      (first ∷ []) (first ∷ second ∷ []) appends.1 (tt, tt) appends.2

abbrev torn_after : FileWorld
torn_after = (append_event file_sys codec root id second torn).1

joins :
    (append_event file_sys codec root id second torn ≡ (ok tt, torn_after))
    × ((cut (or_empty (file_disk.content (events_path file_sys codec root id) torn))).1 ≢ [])
unfolding append_event Files.read_events Files.decode_log Files.fence Files.write_event cut drop_cr
    decode_events decode_lines decode_line run_dir wrapping releasing Clean.join_paths
    Clean.join_path Clean.clean Clean.is_abs Clean.element split any text_eq text_discrete
    Table.encode Table.decode Table.member_at ℕ_discrete
joins = (refl, λ e. cc e)

append_event-torn_example : log_of file_disk codec root id torn_after ≡ none
append_event-torn_example =
    append_event-torn file_disk codec root id (table-IsFaithful _ _) second torn joins.0 joins.1

abbrev owner : ℕ → LockOwner
owner pid = record { pid = pid; command = codes "run"; generation = 1; acquired_at = 7 }

abbrev dir : Text
dir = codes "/s/runs/r1"

abbrev lock : Text
lock = lock_path file_sys codec dir

abbrev l₁ : FileWorld
l₁ = (acquire_lock file_sys codec dir (owner 1) empty).1

abbrev l₂ : FileWorld
l₂ = (release_lock file_sys codec lock l₁).1

abbrev l₃ : FileWorld
l₃ = (acquire_lock file_sys codec dir (owner 2) l₂).1

locks :
    (acquire_lock file_sys codec dir (owner 1) empty ≡ (ok lock, l₁))
    × (acquire_lock file_sys codec dir (owner 2) l₁ ≡ (err locked, l₁))
    × (release_lock file_sys codec lock l₁ ≡ (ok tt, l₂))
    × (acquire_lock file_sys codec dir (owner 2) l₂ ≡ (ok lock, l₃))
unfolding acquire_lock Files.release release_lock Files.take_lock Files.write_owner wrapping
    Clean.join_paths Clean.join_path Clean.clean Clean.is_abs Clean.element split any text_eq
locks = (refl, refl, refl, refl)

Reach-exclusion_example : length (owner 2 ∷ []) ≤ 1
Reach-exclusion_example = Reach-exclusion file_dirs codec dir (
    next
      (next (next (next here (acquire (owner 1) lock locks.0)) (refuse (owner 2) locked locks.1))
        (release [] [] (owner 1) (ok tt) refl refl locks.2))
      (acquire (owner 2) lock locks.3))

release-IsReleased_example :
    let ((r, left), w') = Files.release file_sys codec (some (record { path = lock })) l₁ in
    (r ≡ ok tt → IsReleased file_sys codec left)
    × ((x : Error) → r ≡ err x → left ≡ some (record { path = lock }))
release-IsReleased_example = release-IsReleased file_sys codec (record { path = lock }) l₁

abbrev effect : Text → Event
effect type = record { type = type; effect_id = codes "writer-1"; payload = []; generation = 1 }

abbrev effect_codec : Codec Run
effect_codec = table_codec (effect effect_intent ∷ effect effect_settlement ∷ []) []

-- Settled once, and begun again.
abbrev begun : FileWorld
begun = record empty {
  files =
      set (codes "/s/runs/r1/events.jsonl") (some (100 ∷ 10 ∷ 101 ∷ 10 ∷ 100 ∷ 10 ∷ []))
        empty.files;
}

finds : ambiguous_effects file_sys effect_codec root id begun ≡ (ok (codes "writer-1" ∷ []), begun)
unfolding ambiguous_effects Files.read_events Files.decode_log Files.pending_effects
    Files.settle_effect Files.add_effect Files.drop_effect cut drop_cr decode_events decode_lines
    decode_line run_dir wrapping sort_texts Clean.join_paths Clean.join_path Clean.clean
    Clean.is_abs Clean.element split any text_eq text_discrete Table.encode Table.decode
    Table.member_at ℕ_discrete
finds = refl

ambiguous_effects-IsUnsettled_example :
    (events : List Event) × (read_events file_sys effect_codec root id begun ≡ (ok events, begun))
    × IsSorted (codes "writer-1" ∷ [])
    × ((e : Text) → (member e (codes "writer-1" ∷ []) ≡ true) ↔ IsUnsettled e events)
ambiguous_effects-IsUnsettled_example =
    ambiguous_effects-IsUnsettled file_sys effect_codec root id begun finds
