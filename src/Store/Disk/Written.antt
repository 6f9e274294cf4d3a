-- ===== src/Store/Disk/Written.antt =====
-- What stands in the files of a run after an operation that has succeeded.
use mathlib.Core.Option.{some-injective, none-ne-some}
use agent_orchestrator_publi.Base.{
  ◌≤◌, ◌≡◌, ◌≢◌, sym, ap, subst, ◌∙◌, inl, inr, none, some, List, [], ◌∷◌, ◌++◌, Text, All, codes,
  arith,
}
use agent_orchestrator_publi.Base.Errors.{Result, ok}
use agent_orchestrator_publi.Runtime.{
  M, wrap_error, lift, ◌>>=◌, ◌>>◌, >>=-ok, wrapping, releasing, releasing-ok, contents, System,
}
use agent_orchestrator_publi.Store.{Event, Codec}
use agent_orchestrator_publi.Store.Log.{newline, cut, decode_events}
use agent_orchestrator_publi.Store.Log.Grown.{
  IsFaithful, Grew, decode_events-append, decode_events-append_torn,
}
use agent_orchestrator_publi.Store.Files.{
  run_dir, state_path, events_path, decode_state, read_state, write_state, read_events, fence,
  write_event, append_event,
}
use agent_orchestrator_publi.Store.Disk.{Still, Disk, or_empty}
use agent_orchestrator_publi.Store.Disk.Rules.{wrapping-ok, wrapping-Still}
use agent_orchestrator_publi.Store.Disk.States.{Replaced, write_state-Replaced}
use agent_orchestrator_publi.Store.Disk.Appends.{seen}
use agent_orchestrator_publi.Store.Disk.Appends.Line.{readable, log_of, read_events-log}

-- The generations never fall along the log.
abbrev pub IsOrdered : List Event → Type 0
IsOrdered [] = Unit
IsOrdered (e ∷ es) = All (λ (x : Event). e.generation ≤ x.generation) es × IsOrdered es

IsOrdered-append :
    (es : List Event) (e : Event)
    → IsOrdered es
    → All (λ (x : Event). x.generation ≤ e.generation) es
    → IsOrdered (es ++ (e ∷ []))
IsOrdered-append [] e o a = (tt, tt)
IsOrdered-append (x ∷ es) e o a = (below es o.0 a.0, IsOrdered-append es e o.1 a.1)
  where
    below :
        (es : List Event)
        → All (λ (y : Event). x.generation ≤ y.generation) es
        → x.generation ≤ e.generation
        → All (λ (y : Event). x.generation ≤ y.generation) (es ++ (e ∷ []))
    below [] a h = (h, tt)
    below (y ∷ es) a h = (a.0, below es a.1 h)

module _ {W S : Type 0} {sys : System W} (disk : Disk sys) (codec : Codec S)
    (root run_id : Text) where
  abbrev there : Text
  there = state_path sys codec root run_id

  abbrev events : Text
  events = events_path sys codec root run_id

  replaced_ok :
      (s : S) (w : W) (m : Result (Unit {0}) × W) {w' : W}
      → m ≡ (ok tt, w')
      → Replaced disk codec root run_id s w m.0 m.1
      → Replaced disk codec root run_id s w (ok tt) w'
  replaced_ok s w m q r = subst (λ v. Replaced disk codec root run_id s w v.0 v.1) q r

  -- On files that obey `Disk` and with a faithful encoding:
  -- if `WriteState` returns no error and the state file is read next, to its end, then `ReadState`
  -- returns the state that was written.
  pub write_state-read_state :
      (faithful : IsFaithful codec) (s : S) (w : W) {w' w'' : W} {bytes : Text}
      → write_state sys codec root run_id s w ≡ (ok tt, w')
      → sys.read there w' ≡ (contents bytes, w'')
      → read_state sys codec root run_id w' ≡ (ok s, w'')
  unfolding read_state decode_state
  write_state-read_state faithful s w {w'} {w''} {bytes} q read =
      let (_, (b, encoded, found)) =
        replaced_ok s w (write_state sys codec root run_id s w) q
          (write_state-Replaced disk codec root run_id s w) in
      let same : bytes ≡ b ++ (newline ∷ []) =
        some-injective _ _ (sym (disk.read_contents there bytes w' w'' read) ∙ found) in
      ap (λ v. (decode_state sys codec root v.0, v.1)) read
      ∙ ap (λ t. (decode_state sys codec root (contents t), w'')) same
      ∙ ap (λ r. (wrap_error (codes "decode state") r, w'')) (faithful.state_read_back s b encoded)

  -- If `AppendEvent` returns no error, the event was not older than any in the log, and its encoding
  -- stands as a line behind what was there.
  pub append_event-content :
      (e : Event) (w : W) {w' : W}
      → append_event sys codec root run_id e w ≡ (ok tt, w')
      → (es : List Event) × (b : Text) × (decode_events codec (or_empty (disk.content events w))
          ≡ ok es)
        × (fence sys codec root e es ≡ ok tt)
        × (codec.marshal_event e ≡ ok b)
        × (disk.content events w'
            ≡ some (or_empty (disk.content events w) ++ (b ++ (newline ∷ []))))
  unfolding append_event write_event
  append_event-content e w {w'} q =
      let write =
        λ (b : Text). wrapping (codes "append event") (sys.write events (b ++ (newline ∷ []))) in
      let sync = wrapping (codes "sync event log") (sys.sync events) in
      let encode = wrapping {W = W} (codes "marshal event") (lift (codec.marshal_event e)) in
      let writing = encode >>= λ b. write b >> sync in
      let opening = wrapping (codes "open event log") (sys.open_append events) in
      let make =
        wrapping (codes "create run directory") (sys.mkdir_all (run_dir sys codec root run_id)) in
      let closing = releasing (sys.close events) (write_event sys codec root events e) in
      let (es, w₁, r₁, q₁) =
        >>=-ok (read_events sys codec root run_id)
          (λ es. lift (fence sys codec root e es) >> (make >> (opening >> closing))) w q in
      let (_, w₂, r₂, q₂) =
        >>=-ok (lift (fence sys codec root e es)) (λ _. make >> (opening >> closing)) w₁ q₁ in
      let (_, w₃, r₃, q₃) = >>=-ok make (λ _. opening >> closing) w₂ q₂ in
      let (_, w₄, r₄, q₄) = >>=-ok opening (λ _. closing) w₃ q₃ in
      let (b, w₅, r₅, q₅) =
        >>=-ok encode (λ b. write b >> sync) w₄
          (releasing-ok (sys.close events) (write_event sys codec root events e) w₄ q₄) in
      let (_, w₆, r₆, q₆) = >>=-ok (write b) (λ _. sync) w₅ q₅ in
      let encoded = wrapping-ok (codes "marshal event") (lift (codec.marshal_event e)) w₄ r₅ in
      let now =
        disk.opened events w₃ w₄
          (wrapping-ok (codes "open event log") (sys.open_append events) w₃ r₄) in
      let log = or_empty (disk.content events w) in
      let kept : or_empty (disk.content events w₃) ≡ log = ap or_empty (
        after make
          (wrapping-Still disk.content (codes "create run directory") (sys.mkdir_all _)
            (disk.mkdir_all _))
          w₂ r₃
        ∙ ap (λ p. disk.content events p.1) (sym r₂)
        ∙ seen disk codec root run_id events w w₁ r₁) in
      let here : disk.content events w₅ ≡ some log =
        ap (λ p. disk.content events p.1) (sym encoded) ∙ now ∙ ap some kept in
      let grown =
        disk.written events (b ++ (newline ∷ [])) log w₅ w₆ here
          (wrapping-ok (codes "append event") (sys.write events (b ++ (newline ∷ []))) w₅ r₆) in
      let synced =
        after sync
          (wrapping-Still disk.content (codes "sync event log") (sys.sync events)
            (disk.sync events))
          w₆ q₆ in
      (
        es,
        b,
        read_events-log disk codec root run_id w r₁,
        ap (λ p. p.0) r₂,
        ap (λ p. p.0) encoded,
        closed w₄ q₄ ∙ synced ∙ grown,
      )
    where
      after :
          (m : M W (Unit {0}))
          → Still disk.content m
          → (w : W) {r : Result (Unit {0})} {w₁ : W} → m w ≡ (r, w₁)
          → disk.content events w₁ ≡ disk.content events w
      after m s w q = ap (λ p. disk.content events p.1) (sym q) ∙ s events w

      closed :
          (w₄ : W)
          → releasing (sys.close events) (write_event sys codec root events e) w₄ ≡ (ok tt, w')
          → disk.content events w' ≡ disk.content events (write_event sys codec root events e w₄).1
      closed w₄ q =
          ap (λ p. disk.content events p.1) (sym q)
          ∙ unfold releasing in disk.close events events (write_event sys codec root events e w₄).1

  module _ (faithful : IsFaithful codec) (e : Event) (w : W) {w' : W}
      (done : append_event sys codec root run_id e w ≡ (ok tt, w')) where
    -- On files that obey `Disk` and with a faithful encoding:
    -- if `AppendEvent` returns no error although the last line of the log has no newline, then the
    -- log cannot be read any more.
    pub append_event-torn :
        (cut (or_empty (disk.content events w))).1 ≢ [] → log_of disk codec root run_id w' ≡ none
    append_event-torn torn =
        let (es, b, old, _, encoded, now) = append_event-content e w done in
        let (x, fails) =
          decode_events-append_torn codec faithful e b encoded (or_empty (disk.content events w))
            torn old in
        ap (λ o. readable (decode_events codec (or_empty o))) now ∙ ap readable fails

    fence-All :
        (es : List Event)
        → fence sys codec root e es ≡ ok tt
        → All (λ (x : Event). x.generation ≤ e.generation) es
    unfolding fence
    fence-All [] h = tt
    fence-All (x ∷ es) h = (ground arith, fence-All es (ground arith))

    -- On files that obey `Disk` and with a faithful encoding:
    -- if `AppendEvent` returns no error and the log can be read before and after, then the event is
    -- its last one, and generations that never fell along it do not fall now.
    pub append_event-IsOrdered :
        (es es' : List Event)
        → log_of disk codec root run_id w ≡ some es
        → IsOrdered es
        → log_of disk codec root run_id w' ≡ some es'
        → (es' ≡ es ++ (e ∷ [])) × IsOrdered es'
    append_event-IsOrdered es es' before ordered after =
        let (es₀, b, old, fenced, encoded, now) = append_event-content e w done in
        let log = or_empty (disk.content events w) in
        let same : es₀ ≡ es = some-injective _ _ (sym (ap readable old) ∙ before) in
        let read : readable (decode_events codec (log ++ (b ++ (newline ∷ [])))) ≡ some es' =
          sym (ap (λ o. readable (decode_events codec (or_empty o))) now) ∙ after in
        let last : es' ≡ es₀ ++ (e ∷ []) =
          grown es₀ _ (decode_events-append codec faithful e b encoded log old) read in
        let last' : es' ≡ es ++ (e ∷ []) = last ∙ ap (λ l. l ++ (e ∷ [])) same in
        (
          last',
          subst IsOrdered (sym last') (
              IsOrdered-append es e ordered (
                subst (All (λ (x : Event). x.generation ≤ e.generation)) same
                  (fence-All es₀ fenced))),
        )
      where
        grown :
            (es₀ : List Event) (r : Result (List Event))
            → Grew codec es₀ e r
            → readable r ≡ some es'
            → es' ≡ es₀ ++ (e ∷ [])
        grown es₀ r (inl h) k = some-injective _ _ (sym k ∙ ap readable h)
        grown es₀ r (inr (x, h)) k = absurd (none-ne-some _ (sym (ap readable h) ∙ k))
