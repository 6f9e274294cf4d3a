-- ===== src/Adapters/Codex/Session/Ends.antt =====
-- However the turns of a session fall, it does not fail, it ends, and what it reports is the work.
use agent_orchestrator_publi.Base.{
  ℕ, ◌+◌, ◌-◌, ◌≤◌, ◌≡◌, refl, ap, sym, ◌∙◌, subst, ◌⊎◌, inl, inr, true, Option, none, some, List,
  [], ◌∷◌, ◌++◌, length, arith,
}
use agent_orchestrator_publi.Base.Errors.{Error, Result, ok, err}
use agent_orchestrator_publi.Adapters.{AdapterResult}
use agent_orchestrator_publi.Adapters.Codex.Session.{
  no_result, Outcome, Place, working, notifying, reporting, closing_done, closing_events, removing,
  finished, SessionState, Turned, moved, waits, panics, Turn, works, started, turn, play, Waited,
  by_done, by_context, outcome_of,
}
use agent_orchestrator_publi.Adapters.Codex.Session.Turns.{
  sent, all_sent, Knows, IsSound, started-IsSound, turns_left, Fine, working_turns, turn-Fine,
  length-behind,
}

module _ (generation started_at finished_at : ℕ) where
  -- How many turns of a list are the goroutine's.
  abbrev pub worked : List Turn → ℕ
  worked [] = 0
  worked (t ∷ turns) = working_turns generation started_at finished_at t + worked turns

  abbrev pub left : SessionState → ℕ
  left s = turns_left generation started_at finished_at s.place

  abbrev Sound : Result AdapterResult → SessionState → Type 0
  Sound work s = IsSound generation started_at finished_at work s

  -- A session after some turns.
  pub record Played (work : Result AdapterResult) (turns : List Turn) (from : SessionState)
      : Type 0 where
    pub state : SessionState
    pub played : play generation started_at finished_at work turns from ≡ some state
    pub sound : Sound work state
    pub nearer : left state ≤ left from - worked turns

  play-Played :
      (work : Result AdapterResult) (turns : List Turn) (s : SessionState)
      → Sound work s
      → Played work turns s
  unfolding play
  play-Played work [] s h = record { state = s; played = refl; sound = h; nearer = omega arith }
  play-Played work (t ∷ turns) s h =
      go (turn generation started_at finished_at work t s) refl
        (turn-Fine generation started_at finished_at work t s h) (play-Played work turns s h)
        (λ s' h'. play-Played work turns s' h')
    where
      n : ℕ
      n = working_turns generation started_at finished_at t

      after : Turned → Option SessionState
      after r = elim r [
        | moved s' ↦ play generation started_at finished_at work turns s'
        | waits ↦ play generation started_at finished_at work turns s
        | panics ↦ none
      ]

      go :
          (r : Turned)
          → turn generation started_at finished_at work t s ≡ r
          → Fine generation started_at finished_at work s
              (working_turns generation started_at finished_at t)
              r
          → Played work turns s
          → ((s' : SessionState) → Sound work s' → Played work turns s')
          → Played work (t ∷ turns) s
      go (moved s') q (sound, l) same next =
          let p = next s' sound in
          record {
            state = p.state;
            played = subst (λ r. after r ≡ some p.state) (sym q) p.played;
            sound = p.sound;
            nearer = omega (arith, p.nearer, l);
          }
      go waits q f p next = record {
        state = p.state;
        played = subst (λ r. after r ≡ some p.state) (sym q) p.played;
        sound = p.sound;
        nearer = elim f [
          | inl z ↦ omega (arith, p.nearer, z)
          | inr e ↦ omega (arith, p.nearer, ap (turns_left generation started_at finished_at) e)
        ];
      }
      go panics q f same next = absurd f

  abbrev from_start : Result AdapterResult → List Turn → Option SessionState
  from_start work turns =
      play generation started_at finished_at work turns (started generation started_at finished_at)

  from_start-Played :
      (work : Result AdapterResult) (turns : List Turn)
      → Played work turns (started generation started_at finished_at)
  from_start-Played work turns =
      play-Played work turns (started generation started_at finished_at)
        (started-IsSound generation started_at finished_at work)

  reached-Sound :
      (work : Result AdapterResult) (turns : List Turn) (s : SessionState)
      → from_start work turns ≡ some s
      → Sound work s
  reached-Sound work turns s q =
      let p = from_start-Played work turns in subst (Sound work) (cc (p.played, q)) p.sound

  two_sent :
      (work : Result AdapterResult) → length (all_sent generation started_at finished_at work) ≤ 2
  two_sent (ok r) = omega arith
  two_sent (err e) = omega arith

  at_most_two :
      (work : Result AdapterResult) (p : Place)
      → length (sent generation started_at finished_at work p) ≤ 2
  at_most_two work working = omega arith
  at_most_two work (notifying r) = omega arith
  at_most_two work (reporting o) = two_sent work
  at_most_two work closing_done = two_sent work
  at_most_two work closing_events = two_sent work
  at_most_two work removing = two_sent work
  at_most_two work finished = two_sent work

  -- Whatever the order of the turns of the goroutine and of the caller: none of them panics on a
  -- closed channel, the channel of events holds two events at most, of the eight that it has room for,
  -- and the goroutine, until it has ended, never has to wait.
  pub play-bounds :
      (work : Result AdapterResult) (turns : List Turn)
      → (s : SessionState) × (from_start work turns ≡ some s)
        × (length s.events ≤ 2)
        × (turn generation started_at finished_at work works s ≡ waits → s.place ≡ finished)
  play-bounds work turns =
      let p = from_start-Played work turns in
      (
        p.state,
        p.played,
        omega (
          arith,
          length-behind generation started_at finished_at p.state.received p.state.events _
              p.sound.traffic,
          at_most_two work p.state.place,
        ),
        λ q. waiting p.state (
            subst (Fine generation started_at finished_at work p.state 1) q
              (turn-Fine generation started_at finished_at work works p.state p.sound)),
      )
    where
      waiting :
          (s : SessionState)
          → Fine generation started_at finished_at work s 1 waits
          → s.place ≡ finished
      waiting s (inl z) = absurd (omega (arith, z))
      waiting s (inr q) = q

  ended :
      (work : Result AdapterResult) (s : SessionState) (p : Place)
      → s.place ≡ p
      → turns_left generation started_at finished_at p ≡ 0
      → s.place ≡ finished
  ended work s finished q z = q
  ended work s working q z = absurd (cc z)
  ended work s (notifying r) q z = absurd (cc z)
  ended work s (reporting o) q z = absurd (cc z)
  ended work s closing_done q z = absurd (cc z)
  ended work s closing_events q z = absurd (cc z)
  ended work s removing q z = absurd (cc z)

  -- Once the goroutine has had six turns, in whatever order with those of the caller, the session has
  -- ended: both channels are closed, the outcome is what the work came to, and the caller has taken or
  -- can still take the event of the start and, if the work succeeded, the one of the end behind it.
  pub play-ends :
      (work : Result AdapterResult) (turns : List Turn)
      → 6 ≤ worked turns
      → (s : SessionState) × (from_start work turns ≡ some s)
        × (s.done_closed ≡ true)
        × (s.events_closed ≡ true)
        × (s.outcome ≡ outcome_of work)
        × (s.received ++ s.events ≡ all_sent generation started_at finished_at work)
  play-ends work turns enough =
      let p = from_start-Played work turns in
      let over = ended work p.state p.state.place refl (omega (arith, p.nearer, enough)) in
      let (out, d, e) =
        subst
          (λ q.
            Knows generation started_at finished_at work q p.state.outcome p.state.done_closed
              p.state.events_closed)
          over p.sound.knows in
      (
        p.state,
        p.played,
        d,
        e,
        out,
        p.sound.traffic ∙ ap (sent generation started_at finished_at work) over,
      )

  -- Whenever `Wait` returns, it returns what the work came to, or the error of its own context.
  pub Waited-outcome :
      (work : Result AdapterResult) (turns : List Turn) (s : SessionState)
      (context_error : Option Error) {out : Outcome}
      → from_start work turns ≡ some s
      → Waited context_error s out
      → (out ≡ outcome_of work)
        ⊎ ((e : Error) × (context_error ≡ some e) × (out ≡ (no_result, some e)))
  Waited-outcome work turns s c q (by_context {e} h o) = inr (e, h, o)
  Waited-outcome work turns s c {out} q (by_done d o) =
      inl (o ∙ known s.place (reached-Sound work turns s q).knows)
    where
      known :
          (p : Place)
          → Knows generation started_at finished_at work p s.outcome s.done_closed s.events_closed
          → s.outcome ≡ outcome_of work
      known working k = absurd (cc (k.0, d))
      known (notifying r) k = absurd (cc (k.1, d))
      known (reporting o) k = absurd (cc (k.1, d))
      known closing_done k = k.0
      known closing_events k = k.0
      known removing k = k.0
      known finished k = k.0
