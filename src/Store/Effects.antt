-- ===== src/Store/Effects.antt =====
-- Which effects `AmbiguousEffects` of internal/store/file.go finds.
pub mod Settled
use agent_orchestrator_publi.Base.{
  Bool, ◌≡◌, ◌≢◌, refl, sym, ap, ◌∙◌, subst, ◌↔◌, ◌⊎◌, inl, inr, true, false, ◌||◌, if◌then◌else◌,
  List, [], ◌∷◌, ◌++◌, Text, All, member, text_eq, text_eq_iff, text_discrete, arith,
}
use agent_orchestrator_publi.Base.Errors.{Result, ok}
use agent_orchestrator_publi.Store.Effects.Settled.{LeavesOpen, member-settle_effect}
use agent_orchestrator_publi.Runtime.{pure, >>=-ok, System}
use agent_orchestrator_publi.Runtime.Process.{sort_texts}
use agent_orchestrator_publi.Runtime.Process.Sorted.{
  member-sort_texts, sort_texts-IsSorted, IsSorted,
}
use agent_orchestrator_publi.Store.{Event, effect_intent, effect_settlement, Codec}
use agent_orchestrator_publi.Store.Files.{
  add_effect, drop_effect, settle_effect, pending_effects, ambiguous_effects, read_events,
}

-- There is an intent of the effect behind which it is not settled.
pub record IsUnsettled (id : Text) (events : List Event) : Type 0 where
  pub before : List Event
  pub intent : Event
  pub after : List Event
  pub split : events ≡ before ++ (intent ∷ after)
  pub is_intent : intent.type ≡ effect_intent
  pub of_effect : intent.effect_id ≡ id
  pub open_since : All (LeavesOpen id) after

module _ {W S : Type 0} (sys : System W) (codec : Codec S) (root : Text) where
  abbrev Pending : Text → List Event → List Text → Type 0
  Pending id es ps = IsUnsettled id es ⊎ ((member id ps ≡ true) × All (LeavesOpen id) es)

  here_or_later :
      (id : Text) (e : Event) (es : List Event)
      → IsUnsettled id (e ∷ es)
      → ((e.type ≡ effect_intent) × (e.effect_id ≡ id) × All (LeavesOpen id) es) ⊎ IsUnsettled id es
  here_or_later id e es u = go u.before u.split
    where
      go :
          (before : List Event)
          → e ∷ es ≡ before ++ (u.intent ∷ u.after)
          → ((e.type ≡ effect_intent) × (e.effect_id ≡ id) × All (LeavesOpen id) es)
            ⊎ IsUnsettled id es
      go [] q =
          let head : e ≡ u.intent = cc q in
          let tail : es ≡ u.after = cc q in
          inl (
            ap (λ x. x.type) head ∙ u.is_intent,
            ap (λ x. x.effect_id) head ∙ u.of_effect,
            subst (All (LeavesOpen id)) (sym tail) u.open_since,
          )
      go (b ∷ before) q = inr (record {
        before = before;
        split = cc q;
        intent = u.intent;
        after = u.after;
        is_intent = u.is_intent;
        of_effect = u.of_effect;
        open_since = u.open_since;
      })

  first_or : (id : Text) (e : Event) (es : List Event) → IsUnsettled id es → IsUnsettled id (e ∷ es)
  first_or id e es u = record {
    before = e ∷ u.before;
    split = ap (λ l. e ∷ l) u.split;
    intent = u.intent;
    after = u.after;
    is_intent = u.is_intent;
    of_effect = u.of_effect;
    open_since = u.open_since;
  }

  member-pending_effects :
      (id : Text) (es : List Event) (ps : List Text)
      → (member id (pending_effects sys codec root es ps) ≡ true) ↔ Pending id es ps
  unfolding pending_effects
  member-pending_effects id [] ps = (λ h. inr (h, tt), nothing)
    where
      nothing : Pending id [] ps → member id ps ≡ true
      nothing (inr (h, _)) = h
      nothing (inl u) = absurd (none u.before u.split)
        where
          none : (before : List Event) → [] ≡ before ++ (u.intent ∷ u.after) → ⊥
          none [] q = cc q
          none (b ∷ before) q = cc q
  member-pending_effects id (e ∷ es) ps =
      let (there, back) = member-pending_effects id es (settle_effect sys codec root e ps) in
      let (into, out) = member-settle_effect sys codec root id e ps in
      (λ h. forth into (there h), λ p. back (backwards out p))
    where
      forth :
          (member id (settle_effect sys codec root e ps) ≡ true
            → (((e.type ≡ effect_intent) × (e.effect_id ≡ id))
                ⊎ ((member id ps ≡ true) × LeavesOpen id e)))
          → Pending id es (settle_effect sys codec root e ps)
          → Pending id (e ∷ es) ps
      forth into (inl u) = inl (first_or id e es u)
      forth into (inr (m, o)) = elim (into m) [
        | inl (t, k) ↦ inl (record {
          before = [];
          intent = e;
          after = es;
          split = refl;
          is_intent = t;
          of_effect = k;
          open_since = o;
        })
        | inr (p, l) ↦ inr (p, (l, o))
      ]

      backwards :
          ((((e.type ≡ effect_intent) × (e.effect_id ≡ id))
              ⊎ ((member id ps ≡ true) × LeavesOpen id e))
            → member id (settle_effect sys codec root e ps) ≡ true)
          → Pending id (e ∷ es) ps
          → Pending id es (settle_effect sys codec root e ps)
      backwards out (inr (p, (l, o))) = inr (out (inr (p, l)), o)
      backwards out (inl u) = elim (here_or_later id e es u) [
        | inl (t, k, o) ↦ inr (out (inl (t, k)), o)
        | inr later ↦ inl later
      ]

  -- If `AmbiguousEffects` returns a list and no error, an effect is on it exactly if the log that was
  -- read has an intent of the effect behind which it is not settled, and the list is in byte order.
  pub ambiguous_effects-IsUnsettled :
      (run_id : Text) (w : W) {ids : List Text} {w' : W}
      → ambiguous_effects sys codec root run_id w ≡ (ok ids, w')
      → (events : List Event) × (read_events sys codec root run_id w ≡ (ok events, w'))
        × IsSorted ids
        × ((id : Text) → (member id ids ≡ true) ↔ IsUnsettled id events)
  unfolding ambiguous_effects
  ambiguous_effects-IsUnsettled run_id w {ids} {w'} h =
      let (events, w₁, m₁, c₁) =
        >>=-ok (read_events sys codec root run_id)
          (λ events. pure (sort_texts (pending_effects sys codec root events []))) w h in
      (
        events,
        m₁ ∙ ap (λ q. (ok events, q.1)) c₁,
        in_order events (ap (λ q. q.0) c₁),
        λ id. listed id events (ap (λ q. q.0) c₁),
      )
    where
      in_order :
          (events : List Event)
          → ◌≡◌ {A = Result (List Text)}
              (ok (sort_texts (pending_effects sys codec root events [])))
              (ok ids)
          → IsSorted ids
      in_order events q =
          subst IsSorted (cc q) (sort_texts-IsSorted (pending_effects sys codec root events []))

      listed :
          (id : Text) (events : List Event)
          → ◌≡◌ {A = Result (List Text)}
              (ok (sort_texts (pending_effects sys codec root events [])))
              (ok ids)
          → (member id ids ≡ true) ↔ IsUnsettled id events
      listed id events q =
          let same : member id ids ≡ member id (pending_effects sys codec root events []) =
            ap (member id) (cc q) ∙ member-sort_texts id _ in
          let (there, back) = member-pending_effects id events [] in
          (λ h. only (there (sym same ∙ h)), λ u. same ∙ back (inl u))
        where
          only : Pending id events [] → IsUnsettled id events
          only (inl u) = u
          only (inr (h, _)) = absurd (unfold member in cc h)
