-- ===== src/Store/Disk/Rules.antt =====
-- How the steps of the store's functions end, and which of them change no file.
use agent_orchestrator_publi.Base.{◌≡◌, refl, sym, ap, ◌∙◌, Option, Text, codes, arith}
use agent_orchestrator_publi.Base.Errors.{Error, Result, ok, err, wrapped}
use agent_orchestrator_publi.Runtime.{M, wrap_error, ◌>>=◌, wrapping, releasing, System}
use agent_orchestrator_publi.Store.Disk.{Still, Disk}
use agent_orchestrator_publi.Store.Files.{or_close, sync_directory}

-- A chain goes on with what its first step returns, or ends with its error.
pub >>=-cases :
    {W A B : Type 0} (Q : Result B → W → Type 0) (m : M W A) (f : A → M W B) (w : W)
    → ((a : A) (w₁ : W) → m w ≡ (ok a, w₁) → Q (f a w₁).0 (f a w₁).1)
    → ((x : Error) (w₁ : W) → m w ≡ (err x, w₁) → Q (err x) w₁)
    → Q ((m >>= f) w).0 ((m >>= f) w).1
>>=-cases {W} {A} {B} Q m f w go_on stop = go (m w) refl
  where
    go :
        (r : Result A × W)
        → m w ≡ r
        → let out : Result B × W = elim r.0 [ ok a ↦ f a r.1 | err e ↦ (err e, r.1) ] in
          Q out.0 out.1
    go (ok a, w₁) e = go_on a w₁ e
    go (err x, w₁) e = stop x w₁ e

module _ {W A : Type 0} (what : Text) (m : M W A) (w : W) where
  pub wrapping-ok : {a : A} {w₁ : W} → wrapping what m w ≡ (ok a, w₁) → m w ≡ (ok a, w₁)
  unfolding wrapping
  wrapping-ok h = go (m w) h
    where
      go :
          {a : A} {w₁ : W} (r : Result A × W)
          → ◌≡◌ {A = Result A × W} (wrap_error what r.0, r.1) (ok a, w₁)
          → r ≡ (ok a, w₁)
      go (ok a, w') h = h
      go (err x, w') h = absurd (ground arith)

  pub wrapping-err :
      {x : Error} {w₁ : W} → wrapping what m w ≡ (err x, w₁) → (y : Error) × (m w ≡ (err y, w₁))
  unfolding wrapping
  wrapping-err h = go (m w) h
    where
      go :
          {x : Error} {w₁ : W} (r : Result A × W)
          → ◌≡◌ {A = Result A × W} (wrap_error what r.0, r.1) (err x, w₁)
          → (y : Error) × (r ≡ (err y, w₁))
      go (ok a, w') h = absurd (ground arith)
      go (err y, w') h = (y, ap (λ q. (err y, q.1)) h)

module _ {W : Type 0} (content : Text → W → Option Text) where
  pub wrapping-Still :
      {A : Type 0} (what : Text) (m : M W A) → Still content m → Still content (wrapping what m)
  unfolding wrapping
  wrapping-Still what m s p w = s p w

  pub >>=-Still :
      {A B : Type 0} (m : M W A) (f : A → M W B)
      → Still content m
      → ((a : A) → Still content (f a))
      → Still content (m >>= f)
  >>=-Still m f s t p w =
      >>=-cases (λ r v. content p v ≡ content p w) m f w (λ a w₁ e. t a p w₁ ∙ step (m w) e (s p w))
        (λ x w₁ e. step (m w) e (s p w))
    where
      step :
          {A : Type 0} {r : Result A} {w₁ : W} (q : Result A × W)
          → q ≡ (r, w₁)
          → content p q.1 ≡ content p w
          → content p w₁ ≡ content p w
      step q e h = ap (λ v. content p v.1) (sym e) ∙ h

module _ {W : Type 0} (sys : System W) (path what : Text) (m : M W (Unit {0})) (w : W) where
  pub or_close-ok : {w₁ : W} → or_close sys path what m w ≡ (ok tt, w₁) → m w ≡ (ok tt, w₁)
  unfolding or_close
  or_close-ok h = go (m w) h
    where
      go :
          {w₁ : W} (r : Result (Unit {0}) × W)
          → ◌≡◌ {A = Result (Unit {0}) × W}
              (elim r.0 [
                | ok _ ↦ (ok tt, r.1)
                | err e ↦ (err (wrapped what e), (sys.close path r.1).1)
              ])
              (ok tt, w₁)
          → r ≡ (ok tt, w₁)
      go (ok _, w') h = h
      go (err x, w') h = absurd (ground arith)

module _ {W : Type 0} {sys : System W} (disk : Disk sys) where
  pub sync_directory-Still : (d : Text) → Still disk.content (sync_directory sys d)
  unfolding sync_directory releasing wrapping
  sync_directory-Still d =
      >>=-Still disk.content (wrapping (codes "open directory for sync") (sys.open_dir d))
        (λ _. releasing (sys.close d) (wrapping (codes "sync directory") (sys.sync d)))
        (wrapping-Still disk.content (codes "open directory for sync") (sys.open_dir d)
          (disk.open_dir d))
        (λ _ p w. disk.close d p (sys.sync d w).1 ∙ disk.sync d p w)

  -- A file that the step leaves alone is left alone by its clean-up too.
  pub or_close-same :
      (path what p : Text) (m : M W (Unit {0})) (w : W)
      → disk.content p (m w).1 ≡ disk.content p w
      → disk.content p (or_close sys path what m w).1 ≡ disk.content p w
  unfolding or_close
  or_close-same path what p m w h = go (m w) h
    where
      go :
          (r : Result (Unit {0}) × W)
          → disk.content p r.1 ≡ disk.content p w
          → let out : Result (Unit {0}) × W = elim r.0 [
            | ok _ ↦ (ok tt, r.1)
            | err e ↦ (err (wrapped what e), (sys.close path r.1).1)
          ] in
            disk.content p out.1 ≡ disk.content p w
      go (ok _, w') h = h
      go (err x, w') h = disk.close path p w' ∙ h
