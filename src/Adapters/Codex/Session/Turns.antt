-- ===== src/Adapters/Codex/Session/Turns.antt =====
-- What holds of a session after any turns.
use mathlib.Core.List.{append_assoc}
use agent_orchestrator_publi.Base.{
  ℕ, ◌+◌, ◌≤◌, ◌<◌, ◌≡◌, ◌≢◌, refl, ap, sym, ◌∙◌, subst, Bool, true, false, none, ◌⊎◌, inl, inr,
  List, [], ◌∷◌, ◌++◌, length, arith,
}
use agent_orchestrator_publi.Base.Errors.{Result, ok, err}
use agent_orchestrator_publi.Adapters.{AdapterResult, AdapterEvent}
use agent_orchestrator_publi.Adapters.Codex.Session.{
  Outcome, Place, working, notifying, reporting, closing_done, closing_events, removing, finished,
  SessionState, Turned, moved, waits, panics, events_capacity, Turn, works, takes, cancels,
  started_event, finished_event, started, send, close_done, close_events, go_on, take_event, turn,
  outcome_of,
}

send-moved :
    (e : AdapterEvent) (next : Place) (s : SessionState)
    → s.events_closed ≡ false
    → length s.events < events_capacity
    → send e next s ≡ moved (record s { events = s.events ++ (e ∷ []); place = next })
unfolding send
send-moved e next s q l = ground (arith, q, l)

close_done-moved :
    (s : SessionState)
    → s.done_closed ≡ false
    → close_done s ≡ moved (record s { done_closed = true; place = closing_events })
unfolding close_done
close_done-moved s q = ground (arith, q)

close_events-moved :
    (s : SessionState)
    → s.events_closed ≡ false
    → close_events s ≡ moved (record s { events_closed = true; place = removing })
unfolding close_events
close_events-moved s q = ground (arith, q)

module _ (generation started_at finished_at : ℕ) where
  abbrev first : AdapterEvent
  first = started_event generation started_at finished_at

  abbrev last : AdapterEvent
  last = finished_event generation started_at finished_at

  -- What is sent in all.
  abbrev pub all_sent : Result AdapterResult → List AdapterEvent
  all_sent (err _) = first ∷ []
  all_sent (ok _) = first ∷ last ∷ []

  -- What has been sent when the goroutine is at a place, and what its variables say.
  abbrev pub sent : Result AdapterResult → Place → List AdapterEvent
  sent work working = first ∷ []
  sent work (notifying _) = first ∷ []
  sent work (reporting _) = all_sent work
  sent work closing_done = all_sent work
  sent work closing_events = all_sent work
  sent work removing = all_sent work
  sent work finished = all_sent work

  abbrev pub Knows : Result AdapterResult → Place → Outcome → Bool → Bool → Type 0
  Knows work working out d e = (d ≡ false) × (e ≡ false)
  Knows work (notifying r) out d e = (work ≡ ok r) × (d ≡ false) × (e ≡ false)
  Knows work (reporting o) out d e = (o ≡ outcome_of work) × (d ≡ false) × (e ≡ false)
  Knows work closing_done out d e = (out ≡ outcome_of work) × (d ≡ false) × (e ≡ false)
  Knows work closing_events out d e = (out ≡ outcome_of work) × (d ≡ true) × (e ≡ false)
  Knows work removing out d e = (out ≡ outcome_of work) × (d ≡ true) × (e ≡ true)
  Knows work finished out d e = (out ≡ outcome_of work) × (d ≡ true) × (e ≡ true)

  pub record IsSound (work : Result AdapterResult) (s : SessionState) : Type 0 where
    pub knows : Knows work s.place s.outcome s.done_closed s.events_closed
    pub traffic : s.received ++ s.events ≡ sent work s.place

  pub started-IsSound :
      (work : Result AdapterResult) → IsSound work (started generation started_at finished_at)
  started-IsSound work = record { knows = (refl, refl); traffic = refl }

  pub length-behind : (xs ys zs : List AdapterEvent) → xs ++ ys ≡ zs → length ys ≤ length zs
  length-behind [] ys zs q = omega (arith, ap length q)
  length-behind (x ∷ xs) ys [] q = absurd (cc q)
  length-behind (x ∷ xs) ys (z ∷ zs) q = omega (arith, length-behind xs ys zs (cc q))

  -- What a turn comes to: it moves the session on, or, for a turn of the caller alone, waits.
  abbrev Moves : Result AdapterResult → (SessionState → Type 0) → Turned → Type 0
  Moves work P (moved s) = IsSound work s × P s
  Moves work P waits = ⊥
  Moves work P panics = ⊥

  -- How many turns the goroutine still takes at most.
  abbrev pub turns_left : Place → ℕ
  turns_left working = 6
  turns_left (notifying _) = 5
  turns_left (reporting _) = 4
  turns_left closing_done = 3
  turns_left closing_events = 2
  turns_left removing = 1
  turns_left finished = 0

  -- The goroutine never waits and never panics, and comes nearer to its end with each turn.
  go_on-Moves :
      (work : Result AdapterResult) (p : Place) (s : SessionState)
      → s.place ≡ p
      → p ≢ finished
      → IsSound work s
      → Moves work
          (λ s'. turns_left s'.place < turns_left p)
          (go_on generation started_at finished_at work p s)
  unfolding go_on
  go_on-Moves work p s q n h =
      go work p (subst (λ p. Knows work p s.outcome s.done_closed s.events_closed) q h.knows)
        (h.traffic ∙ ap (sent work) q) n
    where
      go :
          (work : Result AdapterResult) (p : Place)
          → Knows work p s.outcome s.done_closed s.events_closed
          → s.received ++ s.events ≡ sent work p
          → p ≢ finished
          → Moves work
              (λ s'. turns_left s'.place < turns_left p)
              (go_on generation started_at finished_at work p s)
      go (err e) working k t n = (record { knows = (refl, k.0, k.1); traffic = t }, omega arith)
      go (ok r) working k t n = (record { knows = (refl, k.0, k.1); traffic = t }, omega arith)
      go (ok r') (notifying r) k t n =
          subst (Moves (ok r') (λ s'. turns_left s'.place < 5))
            (sym (
              send-moved last (reporting (r, none)) s k.2
                (omega (arith, length-behind s.received s.events (first ∷ []) t))))
            (
              record {
                knows = (cc k.0, k.1, k.2);
                traffic =
                    sym (append_assoc s.received s.events (last ∷ []))
                    ∙ ap (λ l. l ++ (last ∷ [])) t;
              },
              omega arith,
            )
      go (err e) (notifying r) k t n = absurd (cc k.0)
      go work (reporting o) k t n = (record { knows = k; traffic = t }, omega arith)
      go work closing_done k t n =
          subst (Moves work (λ s'. turns_left s'.place < 3)) (sym (close_done-moved s k.1))
            (record { knows = (k.0, refl, k.2); traffic = t }, omega arith)
      go work closing_events k t n =
          subst (Moves work (λ s'. turns_left s'.place < 2)) (sym (close_events-moved s k.2))
            (record { knows = (k.0, k.1, refl); traffic = t }, omega arith)
      go work removing k t n = (record { knows = k; traffic = t }, omega arith)
      go work finished k t n = absurd (n refl)

  take_event-IsSound :
      (work : Result AdapterResult) (es : List AdapterEvent) (s : SessionState)
      → s.events ≡ es
      → IsSound work s
      → {s' : SessionState} → take_event generation started_at finished_at es s ≡ moved s'
      → IsSound work s' × (s'.place ≡ s.place)
  unfolding take_event
  take_event-IsSound work [] s q h m = absurd (cc m)
  take_event-IsSound work (e ∷ es) s q h {s'} m =
      let s₀ : SessionState = record s { events = es; received = s.received ++ (e ∷ []) } in
      let same : s₀ ≡ s' = cc m in
      subst (λ v. IsSound work v × (v.place ≡ s.place)) same
        (
          record {
            knows = h.knows;
            traffic =
                append_assoc s.received (e ∷ []) es ∙ ap (λ l. s.received ++ l) (sym q) ∙ h.traffic;
          },
          refl,
        )

  -- No turn panics; it leaves the session sound, and only a turn of the goroutine changes its place.
  abbrev pub Fine : Result AdapterResult → SessionState → ℕ → Turned → Type 0
  Fine work s n (moved s') = IsSound work s' × (turns_left s'.place + n ≤ turns_left s.place)
  Fine work s n waits = (n ≡ 0) ⊎ (s.place ≡ finished)
  Fine work s n panics = ⊥

  abbrev pub working_turns : Turn → ℕ
  working_turns works = 1
  working_turns takes = 0
  working_turns cancels = 0

  is_finished : (p : Place) → (p ≡ finished) ⊎ (p ≢ finished)
  is_finished finished = inl refl
  is_finished working = inr (λ e. cc e)
  is_finished (notifying r) = inr (λ e. cc e)
  is_finished (reporting o) = inr (λ e. cc e)
  is_finished closing_done = inr (λ e. cc e)
  is_finished closing_events = inr (λ e. cc e)
  is_finished removing = inr (λ e. cc e)

  pub turn-Fine :
      (work : Result AdapterResult) (t : Turn) (s : SessionState)
      → IsSound work s
      → Fine work s (working_turns t) (turn generation started_at finished_at work t s)
  unfolding turn take_event go_on
  turn-Fine work cancels s h = (record { knows = h.knows; traffic = h.traffic }, omega arith)
  turn-Fine work takes s h = go s.events refl
    where
      go :
          (es : List AdapterEvent)
          → s.events ≡ es
          → Fine work s 0 (take_event generation started_at finished_at es s)
      go [] q = inl refl
      go (e ∷ es) q =
          let (sound, same) = take_event-IsSound work (e ∷ es) s q h refl in (sound, omega arith)
  turn-Fine work works s h = go (is_finished s.place)
    where
      fine :
          (r : Turned)
          → Moves work (λ s'. turns_left s'.place < turns_left s.place) r
          → Fine work s 1 r
      fine (moved s') (sound, l) = (sound, omega arith)
      fine waits m = absurd m
      fine panics m = absurd m

      go :
          (s.place ≡ finished) ⊎ (s.place ≢ finished)
          → Fine work s 1 (go_on generation started_at finished_at work s.place s)
      go (inl q) =
          subst (λ p. Fine work s 1 (go_on generation started_at finished_at work p s)) (sym q)
            (inr q)
      go (inr n) =
          fine (go_on generation started_at finished_at work s.place s)
            (go_on-Moves work s.place s refl n h)
