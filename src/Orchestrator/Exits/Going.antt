-- ===== src/Orchestrator/Exits/Going.antt =====
-- Inversion: a body that goes on to its end went on at each of its steps.
use agent_orchestrator_publi.Base.{◌≡◌, refl, none, Text, arith}
use agent_orchestrator_publi.Base.Errors.{Result, ok}
use agent_orchestrator_publi.Runtime.{M, lift}
use agent_orchestrator_publi.Store.{RunStore}
use agent_orchestrator_publi.Orchestrator.{Run}
use agent_orchestrator_publi.Orchestrator.Exits.{
  Exit, going, left, kept, E, ◌>>=◌, bare, finally, unless_kept, returned, or_failed, or_recovery,
}

module _ {W : Type 0} where
  pub >>=-going :
      {A B : Type 0} (m : E W A) (f : A → E W B) (w : W) {b : B} {w' : W}
      → (m >>= f) w ≡ (going b, w')
      → (a : A) × (w₁ : W) × (m w ≡ (going a, w₁)) × (f a w₁ ≡ (going b, w'))
  unfolding ◌>>=◌
  >>=-going {A} {B} m f w {b} {w'} h = go (m w) refl h
    where
      go :
          (r : Exit A × W)
          → m w ≡ r
          → elim r.0 [
            | going a ↦ f a r.1
            | left run e ↦ (left run e, r.1)
            | kept run e ↦ (kept run e, r.1)
          ]
            ≡ (going b, w')
          → (a : A) × (w₁ : W) × (m w ≡ (going a, w₁)) × (f a w₁ ≡ (going b, w'))
      go (going a, w₁) e h = (a, w₁, e, h)
      go (left run x, w₁) e h = cc
      go (kept run x, w₁) e h = cc

  pub bare-going :
      {A : Type 0} (m : M W A) (w : W) {a : A} {w' : W}
      → bare m w ≡ (going a, w')
      → m w ≡ (ok a, w')
  unfolding bare
  bare-going m w h = ground arith

  pub finally-going :
      {A B : Type 0} (cleanup : M W B) (m : E W A) (w : W) {a : A} {w' : W}
      → finally cleanup m w ≡ (going a, w')
      → (w₁ : W) × (m w ≡ (going a, w₁))
  unfolding finally
  finally-going cleanup m w h = ((m w).1, ground arith)

  pub unless_kept-going :
      {A B : Type 0} (cleanup : M W B) (m : E W A) (w : W) {a : A} {w' : W}
      → unless_kept cleanup m w ≡ (going a, w')
      → (w₁ : W) × (m w ≡ (going a, w₁))
  unfolding unless_kept
  unless_kept-going cleanup m w h = ((m w).1, ground arith)

  pub returned-none :
      (m : E W Run) (w : W) {run : Run} {w' : W}
      → returned m w ≡ ((run, none), w')
      → m w ≡ (going run, w')
  unfolding returned
  returned-none m w h = ground arith

module _ {W : Type 0} (store : RunStore W Run) (run : Run) where
  pub or_failed-going :
      {A : Type 0} (m : M W A) (w : W) {a : A} {w' : W}
      → or_failed store run m w ≡ (going a, w')
      → m w ≡ (ok a, w')
  unfolding or_failed
  or_failed-going m w h = ground arith

  pub or_recovery-going :
      {A : Type 0} (dir : Text) (m : M W A) (w : W) {a : A} {w' : W}
      → or_recovery store run dir m w ≡ (going a, w')
      → m w ≡ (ok a, w')
  unfolding or_recovery
  or_recovery-going dir m w h = ground arith

module _ {W : Type 0} where
  pub check-going :
      {A : Type 0} (r : Result A) (w : W) {a : A} {w' : W}
      → bare (lift r) w ≡ (going a, w')
      → r ≡ ok a
  unfolding bare
  check-going r w h = ground arith

  pub check_or_failed-going :
      (store : RunStore W Run) (run : Run) {A : Type 0} (r : Result A) (w : W) {a : A} {w' : W}
      → or_failed store run (lift r) w ≡ (going a, w')
      → r ≡ ok a
  unfolding or_failed
  check_or_failed-going store run r w h = ground arith
