-- ===== src/Store/Disk/Appends/Line.antt =====
-- The line that `AppendEvent` writes, and what becomes of the log if it is written in part.
use mathlib.Core.Option
use agent_orchestrator_publi.Base.{
  ◌≡◌, refl, sym, ap, subst, ◌∙◌, ◌⊎◌, inl, inr, Option, none, some, List, [], ◌∷◌, ◌++◌, Text,
  codes, arith,
}
use agent_orchestrator_publi.Base.Errors.{Error, Result, ok, err}
use agent_orchestrator_publi.Base.Errors
use agent_orchestrator_publi.Runtime.{
  M, lift, ◌>>◌, wrapping, Reading, contents, absent, unopened, broken, System,
}
use agent_orchestrator_publi.Store.{Event, Codec, Longer}
use agent_orchestrator_publi.Store.Log.{newline, decode_events}
use agent_orchestrator_publi.Store.Log.Grown.{
  IsFaithful, Grew, decode_events-append, decode_events-append_part,
}
use agent_orchestrator_publi.Store.Files.{
  run_dir, state_path, events_path, decode_log, read_events, write_event,
}
use agent_orchestrator_publi.Store.Disk.{Still, Disk, or_empty}
use agent_orchestrator_publi.Store.Disk.Paths.{state-ne-events}
use agent_orchestrator_publi.Store.Disk.Rules.{>>=-cases, wrapping-ok, wrapping-err, wrapping-Still}

abbrev pub readable : Result (List Event) → Option (List Event)
readable (ok es) = some es
readable (err x) = none

never_ok :
    {A B : Type 0} (r : Result A) (x : Error) {b : B}
    → (Errors.◌>>=◌ {B = B} r (λ _. err x)) ≡ ok b
    → ⊥
never_ok (ok a) x h = absurd (ground arith)
never_ok (err y) x h = absurd (ground arith)

module _ {W S : Type 0} {sys : System W} (disk : Disk sys) (codec : Codec S)
    (root run_id : Text) where
  abbrev dir : Text
  dir = run_dir sys codec root run_id

  abbrev there : Text
  there = state_path sys codec root run_id

  abbrev events : Text
  events = events_path sys codec root run_id

  -- The events of the log; a log that is not there has none.
  abbrev pub log_of : W → Option (List Event)
  log_of w = readable (decode_events codec (or_empty (disk.content events w)))

  -- The state file is left alone, and the log has the event, or cannot be read any more; on an
  -- error it may also be as it was.
  abbrev pub Appended : Event → W → Result (Unit {0}) → W → Type 0
  Appended e w (ok _) w' =
      (disk.content there w' ≡ disk.content there w) × Longer e (log_of w) (log_of w')
  Appended e w (err _) w' =
      (disk.content there w' ≡ disk.content there w)
      × ((log_of w' ≡ log_of w) ⊎ Longer e (log_of w) (log_of w'))

  -- What was read was the log.
  pub read_events-log :
      (w : W) {es : List Event} {w' : W}
      → read_events sys codec root run_id w ≡ (ok es, w')
      → decode_events codec (or_empty (disk.content events w)) ≡ ok es
  unfolding read_events decode_log
  read_events-log w h = go (sys.read events w) refl h
    where
      go :
          {es : List Event} {w' : W} (r : Reading × W)
          → sys.read events w ≡ r
          → ◌≡◌ {A = Result (List Event) × W} (decode_log sys codec root r.0, r.1) (ok es, w')
          → decode_events codec (or_empty (disk.content events w)) ≡ ok es
      go (contents b, v) q h =
          ap (λ o. decode_events codec (or_empty o)) (disk.read_contents events b w v q)
          ∙ ap (λ p. p.0) h
      go (absent m, v) q h =
          ap (λ o. decode_events codec (or_empty o)) (disk.read_absent events m w v q)
          ∙ ap (λ p. p.0) h
      go (unopened m, v) q h = absurd (ground arith)
      go (broken b m, v) q h = absurd (never_ok (decode_events codec b) _ (ap (λ p. p.0) h))

  module _ (faithful : IsFaithful codec) (e : Event) (w₀ : W) (log : Text) (es : List Event)
      (old : log_of w₀ ≡ some es) (decodes : decode_events codec log ≡ ok es) where
    -- Nothing has been written yet.
    abbrev pub Before : W → Type 0
    Before w =
        (disk.content there w ≡ disk.content there w₀) × (or_empty (disk.content events w) ≡ log)

    pub stopped : (x : Error) (w : W) → Before w → Appended e w₀ (err x) w
    stopped x w (s, l) =
        (s, inl (ap (λ b. readable (decode_events codec b)) l ∙ ap readable decodes ∙ sym old))

    longer :
        (bytes : Text)
        → Grew codec es e (decode_events codec bytes)
        → Longer e (log_of w₀) (readable (decode_events codec bytes))
    longer bytes (inl h) = inl (ap readable h ∙ sym (ap (Option.map (λ es. es ++ (e ∷ []))) old))
    longer bytes (inr (x, h)) = inr (ap readable h)

    -- The event, or the first bytes of it, has been written.
    After : W → Type 0
    After w = (disk.content there w ≡ disk.content there w₀) × Longer e (log_of w₀) (log_of w)

    ended : (r : Result (Unit {0})) (w : W) → After w → Appended e w₀ r w
    unfolding After
    ended (ok _) w a = a
    ended (err x) w (s, l) = (s, inr l)

    kept :
        {w : W} (w' : W)
        → disk.content there w' ≡ disk.content there w
        → disk.content events w' ≡ disk.content events w
        → After w
        → After w'
    unfolding After
    kept w' s l (s₀, l₀) = (
      s ∙ s₀,
      subst (λ o. Longer e (log_of w₀) (readable (decode_events codec (or_empty o)))) (sym l) l₀,
    )

    module _ (w : W) (before : Before w) (opened : disk.content events w ≡ some log) (b : Text)
        (encoded : codec.marshal_event e ≡ ok b) where
      abbrev line : Text
      line = b ++ (newline ∷ [])

      same_state :
          (w' : W) {r : Result (Unit {0})}
          → sys.write events line w ≡ (r, w')
          → disk.content there w' ≡ disk.content there w₀
      same_state w' q =
          ap (λ v. disk.content there v.1) (sym q)
          ∙ disk.write events line there w (state-ne-events dir)
          ∙ before.0

      write_whole : (w' : W) → sys.write events line w ≡ (ok tt, w') → After w'
      unfolding After
      write_whole w' q = (
        same_state w' q,
        subst (λ o. Longer e (log_of w₀) (readable (decode_events codec (or_empty o))))
            (sym (disk.written events line log w w' opened q))
            (longer (log ++ line) (decode_events-append codec faithful e b encoded log decodes)),
      )

      write_part :
          (x : Error) (w' : W) → sys.write events line w ≡ (err x, w') → Appended e w₀ (err x) w'
      write_part x w' q =
          let (p, r, part, now) = disk.written_part events line log w w' x opened q in
          (
            same_state w' q,
            subst
                (λ o.
                  (readable (decode_events codec (or_empty o)) ≡ log_of w₀)
                  ⊎ Longer e (log_of w₀) (readable (decode_events codec (or_empty o))))
                (sym now)
                (elim (decode_events-append_part codec faithful e b encoded log p r part decodes) [
                  | inl h ↦ inl (ap readable h ∙ sym old)
                  | inr g ↦ inr (longer (log ++ p) g)
                ]),
          )

    abbrev sync : M W (Unit {0})
    sync = wrapping (codes "sync event log") (sys.sync events)

    sync-Still : Still disk.content sync
    sync-Still =
        wrapping-Still disk.content (codes "sync event log") (sys.sync events) (disk.sync events)

    abbrev append : Text → M W (Unit {0})
    append b = wrapping (codes "append event") (sys.write events (b ++ (newline ∷ [])))

    line_written :
        (w : W)
        → Before w
        → disk.content events w ≡ some log
        → (b : Text) → codec.marshal_event e ≡ ok b
        → Appended e w₀ ((append b >> sync) w).0 ((append b >> sync) w).1
    line_written w before opened b encoded =
        let write = sys.write events (b ++ (newline ∷ [])) in
        >>=-cases (Appended e w₀) (append b) (λ _. sync) w
          (λ _ w₁ q. ended (sync w₁).0 (sync w₁).1 (
            kept (sync w₁).1 (sync-Still there w₁) (sync-Still events w₁) (
              write_whole w before opened b encoded w₁
                (wrapping-ok (codes "append event") write w q))))
          (λ x w₁ q.
            let (y, failed) = wrapping-err (codes "append event") write w q in
            write_part w before opened b encoded y w₁ failed)

    pub written :
        (w : W)
        → Before w
        → disk.content events w ≡ some log
        → Appended e w₀
            (write_event sys codec root events e w).0
            (write_event sys codec root events e w).1
    unfolding write_event
    written w before opened =
        let encode = wrapping {W = W} (codes "marshal event") (lift (codec.marshal_event e)) in
        >>=-cases (Appended e w₀) encode (λ b. append b >> sync) w
          (λ b w₁ q.
            let q' = wrapping-ok (codes "marshal event") (lift (codec.marshal_event e)) w q in
            subst (λ v. Appended e w₀ ((append b >> sync) v).0 ((append b >> sync) v).1)
              (ap (λ p. p.1) q') (line_written w before opened b (ap (λ p. p.0) q')))
          (λ x w₁ q.
            let (y, q') = wrapping-err (codes "marshal event") (lift (codec.marshal_event e)) w q in
            stopped x w₁ (subst Before (ap (λ p. p.1) q') before))
