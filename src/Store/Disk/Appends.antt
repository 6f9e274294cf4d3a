-- ===== src/Store/Disk/Appends.antt =====
-- `AppendEvent` puts the event at the end of the log.
pub mod Line
use mathlib.Core.Option
use agent_orchestrator_publi.Base.{
  ◌≡◌, refl, sym, ap, subst, ◌∙◌, ◌⊎◌, inl, inr, Option, none, some, List, [], ◌∷◌, ◌++◌, Text,
  codes, arith,
}
use agent_orchestrator_publi.Base.Errors.{Error, Result, ok, err}
use agent_orchestrator_publi.Base.Errors
use agent_orchestrator_publi.Runtime.{
  M, lift, ◌>>◌, wrapping, releasing, Reading, contents, absent, unopened, broken, System,
}
use agent_orchestrator_publi.Store.{Event, Codec, Longer}
use agent_orchestrator_publi.Store.Log.{newline, decode_events}
use agent_orchestrator_publi.Store.Log.Grown.{
  IsFaithful, Grew, decode_events-append, decode_events-append_part,
}
use agent_orchestrator_publi.Store.Files.{
  run_dir, state_path, events_path, decode_log, read_events, fence, write_event, append_event,
}
use agent_orchestrator_publi.Store.Disk.{Still, Disk, or_empty}
use agent_orchestrator_publi.Store.Disk.Paths.{state-ne-events}
use agent_orchestrator_publi.Store.Disk.Rules.{>>=-cases, wrapping-ok, wrapping-err, wrapping-Still}
use agent_orchestrator_publi.Store.Disk.Appends.Line.{
  readable, log_of, Appended, read_events-log, Before, stopped, written,
}

module _ {W S : Type 0} {sys : System W} (disk : Disk sys) (codec : Codec S)
    (root run_id : Text) where
  abbrev dir : Text
  dir = run_dir sys codec root run_id

  abbrev there : Text
  there = state_path sys codec root run_id

  abbrev events : Text
  events = events_path sys codec root run_id

  module _ (faithful : IsFaithful codec) (e : Event) (w₀ : W) (log : Text) (es : List Event)
      (old : log_of disk codec root run_id w₀ ≡ some es)
      (decodes : decode_events codec log ≡ ok es) where
    abbrev open_log : M W (Unit {0})
    open_log = wrapping (codes "open event log") (sys.open_append events)

    abbrev write_open : M W (Unit {0})
    write_open = releasing (sys.close events) (write_event sys codec root events e)

    appended_open :
        (w : W)
        → Before disk codec root run_id faithful e w₀ log es old decodes w
        → Appended disk codec root run_id e w₀
            ((open_log >> write_open) w).0
            ((open_log >> write_open) w).1
    unfolding releasing
    appended_open w before =
        >>=-cases (Appended disk codec root run_id e w₀) open_log (λ _. write_open) w
          (λ _ w₁ q.
            let q' = wrapping-ok (codes "open event log") (sys.open_append events) w q in
            let now = disk.opened events w w₁ q' ∙ ap some before.1 in
            let (r, w₂) = write_event sys codec root events e w₁ in
            closed w₂ r (
              written disk codec root run_id faithful e w₀ log es old decodes w₁
                (same_state w₁ q', ap or_empty now) now))
          (λ x w₁ q.
            let (y, q') = wrapping-err (codes "open event log") (sys.open_append events) w q in
            stopped disk codec root run_id faithful e w₀ log es old decodes x w₁ (
              same_state w₁ q',
              elim (disk.not_opened events w w₁ y q') [
                | inl same ↦ ap or_empty same ∙ before.1
                | inr now ↦ ap or_empty now ∙ before.1
              ],
            ))
      where
        same_state :
            {r : Result (Unit {0})} (w₁ : W)
            → sys.open_append events w ≡ (r, w₁)
            → disk.content there w₁ ≡ disk.content there w₀
        same_state w₁ q =
            ap (λ v. disk.content there v.1) (sym q)
            ∙ disk.open_append events there w (state-ne-events dir)
            ∙ before.0

        closed :
            (w' : W) (r : Result (Unit {0}))
            → Appended disk codec root run_id e w₀ r w'
            → Appended disk codec root run_id e w₀ r (sys.close events w').1
        closed w' (ok _) (s, l) = (
          disk.close events there w' ∙ s,
          subst
              (λ o.
                Longer e (log_of disk codec root run_id w₀)
                  (readable (decode_events codec (or_empty o))))
              (sym (disk.close events events w')) l,
        )
        closed w' (err x) (s, l) = (
          disk.close events there w' ∙ s,
          subst
              (λ o.
                (readable (decode_events codec (or_empty o)) ≡ log_of disk codec root run_id w₀)
                ⊎ Longer e (log_of disk codec root run_id w₀)
                    (readable (decode_events codec (or_empty o))))
              (sym (disk.close events events w')) l,
        )

    abbrev make : M W (Unit {0})
    make = wrapping (codes "create run directory") (sys.mkdir_all dir)

    made :
        (w w₁ : W) {r : Result (Unit {0})}
        → make w ≡ (r, w₁)
        → Before disk codec root run_id faithful e w₀ log es old decodes w
        → Before disk codec root run_id faithful e w₀ log es old decodes w₁
    unfolding wrapping
    made w w₁ q (s, l) = (
      ap (λ v. disk.content there v.1) (sym q) ∙ disk.mkdir_all dir there w ∙ s,
      ap (λ v. or_empty (disk.content events v.1)) (sym q)
          ∙ ap or_empty (disk.mkdir_all dir events w)
          ∙ l,
    )

    fenced :
        (w : W)
        → Before disk codec root run_id faithful e w₀ log es old decodes w
        → let m = lift (fence sys codec root e es) >> (make >> (open_log >> write_open)) in
          Appended disk codec root run_id e w₀ (m w).0 (m w).1
    fenced w before =
        >>=-cases (Appended disk codec root run_id e w₀) (lift (fence sys codec root e es))
          (λ _. make >> (open_log >> write_open)) w
          (λ _ w₁ q.
            let here = ap (λ p. p.1) q in
            >>=-cases (Appended disk codec root run_id e w₀) make (λ _. open_log >> write_open) w₁
              (λ _ w₂ p. appended_open w₂ (
                made w₁ w₂ p (
                  subst (Before disk codec root run_id faithful e w₀ log es old decodes) here
                    before)))
              (λ x w₂ p. stopped disk codec root run_id faithful e w₀ log es old decodes x w₂ (
                made w₁ w₂ p (
                  subst (Before disk codec root run_id faithful e w₀ log es old decodes) here
                    before))))
          (λ x w₁ q. stopped disk codec root run_id faithful e w₀ log es old decodes x w₁ (
            subst (Before disk codec root run_id faithful e w₀ log es old decodes) (ap (λ p. p.1) q)
              before))

  -- Reading changes no file.
  pub seen :
      (p : Text) (w w₁ : W) {r : Result (List Event)}
      → read_events sys codec root run_id w ≡ (r, w₁)
      → disk.content p w₁ ≡ disk.content p w
  unfolding read_events
  seen p w w₁ q = ap (λ v. disk.content p v.1) (sym q) ∙ disk.read events p w

  -- On files that obey `Disk` and with a faithful encoding:
  -- if `AppendEvent` returns no error, the log has the event at its end, or cannot be read; if it
  -- returns one, the log may also be as it was. The state file is left alone.
  pub append_event-Appended :
      (faithful : IsFaithful codec) (e : Event) (w : W)
      → Appended disk codec root run_id e w
          (append_event sys codec root run_id e w).0
          (append_event sys codec root run_id e w).1
  unfolding append_event
  append_event-Appended faithful e w =
      let rest = λ (es : List Event).
        lift (fence sys codec root e es)
        >> (wrapping (codes "create run directory") (sys.mkdir_all dir)
            >> (wrapping (codes "open event log") (sys.open_append events)
                >> releasing (sys.close events) (write_event sys codec root events e))) in
      >>=-cases (Appended disk codec root run_id e w) (read_events sys codec root run_id) rest w
        (λ es w₁ q.
          let d = read_events-log disk codec root run_id w q in
          fenced faithful e w (or_empty (disk.content events w)) es (ap readable d) d w₁
            (seen there w w₁ q, ap or_empty (seen events w w₁ q)))
        (λ x w₁ q. (
          seen there w w₁ q,
          inl (ap (λ o. readable (decode_events codec (or_empty o))) (seen events w w₁ q)),
        ))
