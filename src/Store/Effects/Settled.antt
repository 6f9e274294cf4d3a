-- ===== src/Store/Effects/Settled.antt =====
-- What one event does to the effects that are pending.
use agent_orchestrator_publi.Base.{
  Bool, ◌≡◌, ◌≢◌, refl, sym, ◌∙◌, ◌↔◌, ◌⊎◌, inl, inr, true, false, ◌||◌, if◌then◌else◌, List, [],
  ◌∷◌, Text, member, text_eq, text_eq_iff, text_discrete, arith,
}
use agent_orchestrator_publi.Runtime.{System}
use agent_orchestrator_publi.Store.{Event, effect_intent, effect_settlement, Codec}
use agent_orchestrator_publi.Store.Files.{add_effect, drop_effect, settle_effect}

-- An event that is not the settlement of an effect.
abbrev pub LeavesOpen : Text → Event → Type 0
LeavesOpen id e = ¬ ((e.type ≡ effect_settlement) × (e.effect_id ≡ id))

module _ {W S : Type 0} (sys : System W) (codec : Codec S) (root : Text) where
  member-add_effect :
      (id k : Text) (ps : List Text)
      → member id (add_effect sys codec root k ps) ≡ (text_eq k id || member id ps)
  unfolding member add_effect
  member-add_effect id k [] = refl
  member-add_effect id k (p ∷ ps) = ground (arith, member-add_effect id k ps, text_eq_iff p k)

  member-drop_effect :
      (id k : Text) (ps : List Text)
      → member id (drop_effect sys codec root k ps) ≡ (if text_eq k id then false else member id ps)
  unfolding member drop_effect
  member-drop_effect id k [] = ground arith
  member-drop_effect id k (p ∷ ps) =
      ground
        (arith, member-drop_effect id k ps, text_eq_iff p k, text_eq_iff k id, text_eq_iff p id)

  -- What each kind of event does to the effects that are pending.
  module _ (id : Text) (e : Event) (ps : List Text) where
    abbrev after : Bool
    after = member id (settle_effect sys codec root e ps)

    after-intent : e.type ≡ effect_intent → after ≡ (text_eq e.effect_id id || member id ps)
    unfolding settle_effect
    after-intent t =
        ground (arith, t, text_eq_iff e.type effect_intent, member-add_effect id e.effect_id ps)

    after-settlement :
        ¬ (e.type ≡ effect_intent)
        → e.type ≡ effect_settlement
        → after ≡ (if text_eq e.effect_id id then false else member id ps)
    unfolding settle_effect
    after-settlement n t = ground (
      arith,
      n,
      t,
      text_eq_iff e.type effect_intent,
      text_eq_iff e.type effect_settlement,
      member-drop_effect id e.effect_id ps,
    )

    after-other : ¬ (e.type ≡ effect_intent) → ¬ (e.type ≡ effect_settlement) → after ≡ member id ps
    unfolding settle_effect
    after-other n m =
        ground (arith, n, m, text_eq_iff e.type effect_intent, text_eq_iff e.type effect_settlement)

  -- One event.
  pub member-settle_effect :
      (id : Text) (e : Event) (ps : List Text)
      → (member id (settle_effect sys codec root e ps) ≡ true) ↔ (
          ((e.type ≡ effect_intent) × (e.effect_id ≡ id))
          ⊎ ((member id ps ≡ true) × LeavesOpen id e))
  unfolding settle_effect
  member-settle_effect id e ps =
      cases (text_discrete e.type effect_intent) (text_discrete e.type effect_settlement)
        (text_discrete e.effect_id id)
    where
      apart : effect_intent ≢ effect_settlement
      apart h = cc h

      cases :
          Dec (e.type ≡ effect_intent)
          → Dec (e.type ≡ effect_settlement)
          → Dec (e.effect_id ≡ id)
          → (member id (settle_effect sys codec root e ps) ≡ true) ↔ (
              ((e.type ≡ effect_intent) × (e.effect_id ≡ id))
              ⊎ ((member id ps ≡ true) × LeavesOpen id e))
      cases (yes a) t (yes k) = (
        λ h. inl (a, k),
        λ h. ground (arith, after-intent id e ps a, text_eq_iff e.effect_id id, k),
      )
      cases (yes a) t (no k) = (
        λ h.
            inr (ground (arith, after-intent id e ps a, text_eq_iff e.effect_id id, k), λ l. k l.1),
        λ h. elim h [
          | inl l ↦ absurd (k l.1)
          | inr l ↦ ground (arith, after-intent id e ps a, l.0)
        ],
      )
      cases (no a) (yes s) (yes k) = (
        λ h. absurd (ground (arith, after-settlement id e ps a s, text_eq_iff e.effect_id id, k)),
        λ h. elim h [ inl l ↦ absurd (a l.0) | inr l ↦ absurd (l.1 (s, k)) ],
      )
      cases (no a) (yes s) (no k) = (
        λ h. inr (
          ground (arith, after-settlement id e ps a s, text_eq_iff e.effect_id id, k),
          λ l. k l.1,
        ),
        λ h. elim h [
          | inl l ↦ absurd (a l.0)
          | inr l ↦ ground (arith, after-settlement id e ps a s, text_eq_iff e.effect_id id, k, l.0)
        ],
      )
      cases (no a) (no s) k = (
        λ h. inr (sym (after-other id e ps a s) ∙ h, λ l. s l.0),
        λ h. elim h [ inl l ↦ absurd (a l.0) | inr l ↦ after-other id e ps a s ∙ l.0 ],
      )
