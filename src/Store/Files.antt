-- ===== src/Store/Files.antt =====
-- `FileStore` of internal/store/file.go and the lock of internal/store/lock.go, over the calls of the
-- operating system.
use agent_orchestrator_publi.Base.{
  ltb, if◌then◌else◌, Option, none, some, List, [], ◌∷◌, ◌++◌, Text, codes, text_eq, is_empty,
}
use agent_orchestrator_publi.Base.Errors.{
  Error, Result, ok, err, wrapped, external, locked, stale_generation,
}
use agent_orchestrator_publi.Base.Errors
use agent_orchestrator_publi.FilePath.Clean.{join_path, join_paths}
use agent_orchestrator_publi.Runtime.{
  M, pure, lift, ◌>>=◌, ◌>>◌, wrap_error, releasing, wrapping, Reading, contents, absent, unopened,
  broken, made, existing, unmade, System,
}
use agent_orchestrator_publi.Runtime.Process.{sort_texts}
use agent_orchestrator_publi.Store.{
  Event, effect_intent, effect_settlement, LockOwner, RunLock, Codec, RunStore,
}
use agent_orchestrator_publi.Store.Log.{newline, decode_events}

module _ {W : Type 0} (sys : System W) where
  -- `file.Close()` on the way out after a failed step, with its error dropped.
  unfoldable pub or_close : Text → Text → M W (Unit {0}) → M W (Unit {0})
  or_close path what m w =
      let (r, w') = m w in
      elim r [ ok _ ↦ (ok tt, w') | err e ↦ (err (wrapped what e), (sys.close path w').1) ]

  unfoldable pub sync_directory : Text → M W (Unit {0})
  unfolding wrapping releasing
  sync_directory path = do
    wrapping (codes "open directory for sync") (sys.open_dir path)
    releasing (sys.close path) (wrapping (codes "sync directory") (sys.sync path))

  module _ {S : Type 0} (codec : Codec S) (root : Text) where
    unfoldable pub run_dir : Text → Text
    run_dir run_id = join_paths (root ∷ codes "runs" ∷ run_id ∷ [])

    abbrev pub state_path : Text → Text
    state_path run_id = join_path (run_dir run_id) (codes "state.json")

    abbrev pub events_path : Text → Text
    events_path run_id = join_path (run_dir run_id) (codes "events.jsonl")

    -- `WriteState` once the temporary file is there.
    unfoldable pub replace_state : Text → Text → Text → M W (Unit {0})
    unfolding wrapping or_close sync_directory
    replace_state run_id temp bytes = do
      or_close temp (codes "protect temporary state") (sys.chmod temp)
      or_close temp (codes "write temporary state") (sys.write temp bytes)
      or_close temp (codes "sync temporary state") (sys.sync temp)
      wrapping (codes "close temporary state") (sys.close temp)
      wrapping (codes "replace state") (sys.rename temp (state_path run_id))
      sync_directory (run_dir run_id)

    unfoldable pub write_state : Text → S → M W (Unit {0})
    unfolding wrapping releasing replace_state
    write_state run_id state = do
      wrapping (codes "create run directory") (sys.mkdir_all (run_dir run_id))
      bytes ← wrapping (codes "marshal state") (lift (codec.marshal_state state))
      temp ←
          wrapping (codes "create temporary state")
            (sys.create_temp (run_dir run_id) (codes ".state-*"))
      releasing (sys.remove temp) (replace_state run_id temp (bytes ++ (newline ∷ [])))

    -- What `ReadState` makes of the bytes of the file.
    unfoldable pub decode_state : Reading → Result S
    decode_state (contents bytes) = wrap_error (codes "decode state") (codec.unmarshal_state bytes)
    decode_state (absent m) = err (wrapped (codes "read state") (external m))
    decode_state (unopened m) = err (wrapped (codes "read state") (external m))
    decode_state (broken _ m) = err (wrapped (codes "read state") (external m))

    unfoldable pub read_state : Text → M W S
    unfolding decode_state
    read_state run_id w =
        let (reading, w') = sys.read (state_path run_id) w in (decode_state reading, w')

    -- What `ReadEvents` makes of the log. A read error is met behind the lines before it, of which
    -- the last one may be cut short.
    unfoldable pub decode_log : Reading → Result (List Event)
    unfolding decode_events
    decode_log (contents bytes) = decode_events codec bytes
    decode_log (absent _) = ok []
    decode_log (unopened m) = err (wrapped (codes "open event log") (external m))
    decode_log (broken bytes m) =
        Errors.◌>>=◌ (decode_events codec bytes)
          λ _. err (wrapped (codes "scan event log") (external m))

    unfoldable pub read_events : Text → M W (List Event)
    unfolding decode_log
    read_events run_id w =
        let (reading, w') = sys.read (events_path run_id) w in (decode_log reading, w')

    -- The loop of `AppendEvent` over the events before the new one.
    unfoldable pub fence : Event → List Event → Result (Unit {0})
    fence event [] = ok tt
    fence event (before ∷ events) =
        let rest = fence event events in
        if ltb event.generation before.generation
        then err (stale_generation event.generation before.generation)
        else rest

    -- `AppendEvent` once the log is open.
    unfoldable pub write_event : Text → Event → M W (Unit {0})
    unfolding wrapping
    write_event path event = do
      bytes ← wrapping (codes "marshal event") (lift (codec.marshal_event event))
      wrapping (codes "append event") (sys.write path (bytes ++ (newline ∷ [])))
      wrapping (codes "sync event log") (sys.sync path)

    unfoldable pub append_event : Text → Event → M W (Unit {0})
    unfolding wrapping releasing read_events fence write_event
    append_event run_id event = do
      events ← read_events run_id
      lift (fence event events)
      wrapping (codes "create run directory") (sys.mkdir_all (run_dir run_id))
      wrapping (codes "open event log") (sys.open_append (events_path run_id))
      releasing (sys.close (events_path run_id)) (write_event (events_path run_id) event)

    -- The body of the loop of `AmbiguousEffects`: the set of the effects that are pending.
    unfoldable pub add_effect : Text → List Text → List Text
    unfolding text_eq
    add_effect id [] = id ∷ []
    add_effect id (p ∷ pending) = if text_eq p id then p ∷ pending else p ∷ add_effect id pending

    unfoldable pub drop_effect : Text → List Text → List Text
    unfolding text_eq
    drop_effect id [] = []
    drop_effect id (p ∷ pending) =
        if text_eq p id then drop_effect id pending else p ∷ drop_effect id pending

    unfoldable pub settle_effect : Event → List Text → List Text
    unfolding add_effect drop_effect text_eq
    settle_effect event pending =
        if text_eq event.type effect_intent
        then add_effect event.effect_id pending
        else if text_eq event.type effect_settlement
        then drop_effect event.effect_id pending
        else pending

    unfoldable pub pending_effects : List Event → List Text → List Text
    unfolding settle_effect
    pending_effects [] pending = pending
    pending_effects (event ∷ events) pending = pending_effects events (settle_effect event pending)

    unfoldable pub ambiguous_effects : Text → M W (List Text)
    unfolding read_events pending_effects sort_texts
    ambiguous_effects run_id = do
      events ← read_events run_id
      pure (sort_texts (pending_effects events []))

  module _ {S : Type 0} (codec : Codec S) where
    abbrev pub lock_path : Text → Text
    lock_path dir = join_path dir (codes "lock")

    -- The lock is the directory; the file in it names the owner.
    unfoldable pub write_owner : Text → LockOwner → M W Text
    write_owner path owner w = elim (codec.marshal_owner owner) [
      | err e ↦ (err (wrapped (codes "marshal lock owner") e), (sys.remove path w).1)
      | ok bytes ↦
          let (r, w') =
            sys.write_file (join_path path (codes "owner.json")) (bytes ++ (newline ∷ [])) w in
          elim r [
            | err e ↦ (err (wrapped (codes "write lock owner") e), (sys.remove_all path w').1)
            | ok _ ↦ (ok path, w')
          ]
    ]

    unfoldable pub take_lock : Text → LockOwner → M W Text
    unfolding write_owner
    take_lock path owner w =
        let (r, w') = sys.mkdir path w in
        elim r [
          | existing ↦ (err locked, w')
          | unmade m ↦ (err (wrapped (codes "create run lock") (external m)), w')
          | made ↦ write_owner path owner w'
        ]

    unfoldable pub acquire_lock : Text → LockOwner → M W Text
    unfolding wrapping take_lock
    acquire_lock dir owner = do
      wrapping (codes "create run directory") (sys.mkdir_all dir)
      take_lock (lock_path dir) owner

    -- `Release`, with the lock that it leaves behind; a nil pointer is `none`.
    unfoldable pub release : Option RunLock → W → (Result (Unit {0}) × Option RunLock) × W
    unfolding wrapping
    release none w = ((ok tt, none), w)
    release (some lock) w =
        let (r, w') = wrapping (codes "release run lock") (sys.remove_all lock.path) w in
        if is_empty lock.path then ((ok tt, some lock), w) else elim r [
          | err e ↦ ((err e, some lock), w')
          | ok _ ↦ ((ok tt, some (record { path = [] })), w')
        ]

    -- The deferred `Release` of the lock at a path that `AcquireLock` has returned.
    unfoldable pub release_lock : Text → M W (Unit {0})
    unfolding release
    release_lock path w = let (r, w') = release (some (record { path = path })) w in (r.0, w')

    -- `store.New`
    abbrev pub file_store : Text → RunStore W S
    file_store root = record {
      run_dir = run_dir codec root;
      append_event = append_event codec root;
      write_state = write_state codec root;
      read_state = read_state codec root;
      acquire_lock = acquire_lock;
      release_lock = release_lock;
    }
