-- ===== src/Store/Disk/States.antt =====
-- `WriteState` replaces the state file by the new state, or leaves it as it was.
use agent_orchestrator_publi.Base.{
  ◌≡◌, ◌≢◌, refl, sym, ap, ◌∙◌, ◌⊎◌, inl, inr, some, [], ◌∷◌, ◌++◌, Text, codes,
}
use agent_orchestrator_publi.Base.Errors.{Result, ok, err}
use agent_orchestrator_publi.Runtime.{M, lift, ◌>>=◌, ◌>>◌, wrapping, releasing, System}
use agent_orchestrator_publi.Store.{Codec}
use agent_orchestrator_publi.Store.Log.{newline}
use agent_orchestrator_publi.Store.Files.{
  or_close, sync_directory, run_dir, state_path, events_path, replace_state, write_state,
}
use agent_orchestrator_publi.Store.Disk.{Still, Disk}
use agent_orchestrator_publi.Store.Disk.Paths.{state-ne-events, temp-ne-state, temp-ne-events}
use agent_orchestrator_publi.Store.Disk.Rules.{
  >>=-cases, wrapping-ok, wrapping-err, wrapping-Still, sync_directory-Still, or_close-ok,
  or_close-same,
}

module _ {W S : Type 0} {sys : System W} (disk : Disk sys) (codec : Codec S)
    (root run_id : Text) where
  abbrev dir : Text
  dir = run_dir sys codec root run_id

  abbrev there : Text
  there = state_path sys codec root run_id

  abbrev events : Text
  events = events_path sys codec root run_id

  -- The state file holds the encoding of the state.
  abbrev pub Holds : S → W → Type 0
  Holds s w =
      (bytes : Text) × (codec.marshal_state s ≡ ok bytes)
      × (disk.content there w ≡ some (bytes ++ (newline ∷ [])))

  -- The log is left alone, and the state file holds the new state, or is left alone on an error.
  abbrev pub Replaced : S → W → Result (Unit {0}) → W → Type 0
  Replaced s w (ok _) w' = (disk.content events w' ≡ disk.content events w) × Holds s w'
  Replaced s w (err _) w' =
      (disk.content events w' ≡ disk.content events w)
      × ((disk.content there w' ≡ disk.content there w) ⊎ Holds s w')

  before :
      (s : S) (w w₁ : W) (r : Result (Unit {0})) (w' : W)
      → disk.content events w₁ ≡ disk.content events w
      → disk.content there w₁ ≡ disk.content there w
      → Replaced s w₁ r w'
      → Replaced s w r w'
  before s w w₁ (ok _) w' e t (e', h) = (e' ∙ e, h)
  before s w w₁ (err x) w' e t (e', inl h) = (e' ∙ e, inl (h ∙ t))
  before s w w₁ (err x) w' e t (e', inr h) = (e' ∙ e, inr h)

  after :
      (s : S) (w : W) (r : Result (Unit {0})) (w₁ w' : W)
      → disk.content events w' ≡ disk.content events w₁
      → disk.content there w' ≡ disk.content there w₁
      → Replaced s w r w₁
      → Replaced s w r w'
  after s w (ok _) w₁ w' e t (e', (b, m, h)) = (e ∙ e', (b, m, t ∙ h))
  after s w (err x) w₁ w' e t (e', inl h) = (e ∙ e', inl (t ∙ h))
  after s w (err x) w₁ w' e t (e', inr (b, m, h)) = (e ∙ e', inr (b, m, t ∙ h))

  -- A step that touches neither file, and what follows it.
  quiet_then :
      {A : Type 0} (s : S) (m : M W A) (f : A → M W (Unit {0})) (w : W)
      → disk.content events (m w).1 ≡ disk.content events w
      → disk.content there (m w).1 ≡ disk.content there w
      → ((a : A) (w₁ : W) → m w ≡ (ok a, w₁) → Replaced s w₁ (f a w₁).0 (f a w₁).1)
      → Replaced s w ((m >>= f) w).0 ((m >>= f) w).1
  quiet_then s m f w e t k =
      >>=-cases (Replaced s w) m f w
        (λ a w₁ q.
          before s w w₁ (f a w₁).0 (f a w₁).1 (ap (λ v. disk.content events v.1) (sym q) ∙ e)
            (ap (λ v. disk.content there v.1) (sym q) ∙ t) (k a w₁ q))
        (λ x w₁ q. (
          ap (λ v. disk.content events v.1) (sym q) ∙ e,
          inl (ap (λ v. disk.content there v.1) (sym q) ∙ t),
        ))

  module _ (s : S) (bytes : Text) (encoded : codec.marshal_state s ≡ ok bytes) (temp : Text)
      (not_there : temp ≢ there) (not_events : temp ≢ events) where
    abbrev line : Text
    line = bytes ++ (newline ∷ [])

    synced :
        (w₀ w : W)
        → disk.content events w ≡ disk.content events w₀
        → disk.content there w ≡ some line
        → Replaced s w₀ (sync_directory sys dir w).0 (sync_directory sys dir w).1
    synced w₀ w e h =
        go (sync_directory sys dir w).0 (sync_directory sys dir w).1
          (sync_directory-Still disk dir events w ∙ e) (sync_directory-Still disk dir there w ∙ h)
      where
        go :
            (r : Result (Unit {0})) (w' : W)
            → disk.content events w' ≡ disk.content events w₀
            → disk.content there w' ≡ some line
            → Replaced s w₀ r w'
        go (ok _) w' e t = (e, (bytes, encoded, t))
        go (err x) w' e t = (e, inr (bytes, encoded, t))

    abbrev rename : M W (Unit {0})
    rename = wrapping (codes "replace state") (sys.rename temp there)

    put_in_place :
        (w : W)
        → disk.content temp w ≡ some line
        → Replaced s w
            ((rename >> sync_directory sys dir) w).0
            ((rename >> sync_directory sys dir) w).1
    unfolding wrapping
    put_in_place w h =
        >>=-cases (Replaced s w) rename (λ _. sync_directory sys dir) w
          (λ _ w₁ q. synced w w₁ (same w₁ q) (
            disk.renamed temp there w w₁
              (wrapping-ok (codes "replace state") (sys.rename temp there) w q)
            ∙ h))
          (λ x w₁ q.
            let (y, failed) = wrapping-err (codes "replace state") (sys.rename temp there) w q in
            (
              same w₁ q,
              elim (disk.not_renamed temp there w w₁ y failed) [
                | inl t ↦ inl t
                | inr t ↦ inr (bytes, encoded, t ∙ h)
              ],
            ))
      where
        same :
            {r : Result (Unit {0})} (w₁ : W)
            → rename w ≡ (r, w₁)
            → disk.content events w₁ ≡ disk.content events w
        same w₁ q =
            ap (λ v. disk.content events v.1) (sym q)
            ∙ disk.rename temp there events w (λ e. not_events (sym e))
                (λ e. state-ne-events dir (sym e))

    keep_temp :
        {A : Type 0} (m : M W A)
        → Still disk.content m
        → (w : W) {r : Result A} {w₁ : W} {b : Text} → m w ≡ (r, w₁)
        → disk.content temp w ≡ some b
        → disk.content temp w₁ ≡ some b
    keep_temp m s w q h = ap (λ v. disk.content temp v.1) (sym q) ∙ s temp w ∙ h

    -- A step on the temporary file.
    temp_then :
        (what : Text) (m : M W (Unit {0})) (f : Unit {0} → M W (Unit {0})) (w : W)
        → disk.content events (m w).1 ≡ disk.content events w
        → disk.content there (m w).1 ≡ disk.content there w
        → ((w₁ : W) → m w ≡ (ok tt, w₁) → Replaced s w₁ (f tt w₁).0 (f tt w₁).1)
        → Replaced s w ((or_close sys temp what m >>= f) w).0 ((or_close sys temp what m >>= f) w).1
    temp_then what m f w e t k =
        quiet_then s (or_close sys temp what m) f w (or_close-same disk temp what events m w e)
          (or_close-same disk temp what there m w t)
          (λ _ w₁ q. k w₁ (or_close-ok sys temp what m w q))

    abbrev closed : M W (Unit {0})
    closed = wrapping (codes "close temporary state") (sys.close temp)

    closed-Still : Still disk.content closed
    closed-Still =
        wrapping-Still disk.content (codes "close temporary state") (sys.close temp)
          (disk.close temp)

    replaced :
        (w : W)
        → disk.content temp w ≡ some []
        → Replaced s w
            (replace_state sys codec root run_id temp line w).0
            (replace_state sys codec root run_id temp line w).1
    unfolding replace_state
    replaced w empty =
        let ends = λ (_ : Unit {0}). rename >> sync_directory sys dir in
        let from_sync = λ (_ : Unit {0}). closed >>= ends in
        let from_write = λ (_ : Unit {0}).
          or_close sys temp (codes "sync temporary state") (sys.sync temp) >>= from_sync in
        let from_chmod = λ (_ : Unit {0}).
          or_close sys temp (codes "write temporary state") (sys.write temp line) >>= from_write in
        temp_then (codes "protect temporary state") (sys.chmod temp) from_chmod w
          (disk.chmod temp events w) (disk.chmod temp there w)
          λ w₁ q₁.
            temp_then (codes "write temporary state") (sys.write temp line) from_write w₁
              (disk.write temp line events w₁ (λ e. not_events (sym e)))
              (disk.write temp line there w₁ (λ e. not_there (sym e)))
              λ w₂ q₂.
                let full =
                  disk.written temp line [] w₁ w₂
                    (keep_temp (sys.chmod temp) (disk.chmod temp) w q₁ empty) q₂ in
                temp_then (codes "sync temporary state") (sys.sync temp) from_sync w₂
                  (disk.sync temp events w₂) (disk.sync temp there w₂)
                  λ w₃ q₃.
                    quiet_then s closed ends w₃ (closed-Still events w₃) (closed-Still there w₃)
                      λ _ w₄ q₄. put_in_place w₄ (
                        keep_temp closed closed-Still w₃ q₄
                          (keep_temp (sys.sync temp) (disk.sync temp) w₂ q₃ full))

  abbrev pattern_of : Text
  pattern_of = codes ".state-*"

  with_temp :
      (s : S) (bytes : Text)
      → codec.marshal_state s ≡ ok bytes
      → (temp : Text) (w w' : W) → sys.create_temp dir pattern_of w ≡ (ok temp, w')
      → let put =
          releasing
            (sys.remove temp)
            (replace_state sys codec root run_id temp (bytes ++ (newline ∷ []))) in
        Replaced s w (put w').0 (put w').1
  unfolding releasing
  with_temp s bytes encoded temp w w' created =
      let (empty, others, (digits, all, path)) =
        disk.temporary dir (codes ".state-") temp w w' created in
      let not_there : temp ≢ there = λ e. temp-ne-state dir digits all (sym path ∙ e) in
      let not_events : temp ≢ events = λ e. temp-ne-events dir digits all (sym path ∙ e) in
      let (r, w'') = replace_state sys codec root run_id temp (bytes ++ (newline ∷ [])) w' in
      let out = replaced s bytes encoded temp not_there not_events w' empty in
      before s w w' r (sys.remove temp w'').1 (others events (λ e. not_events (sym e)))
        (others there (λ e. not_there (sym e)))
        (after s w' r w'' (sys.remove temp w'').1
          (disk.remove temp events w'' (λ e. not_events (sym e)))
          (disk.remove temp there w'' (λ e. not_there (sym e))) out)

  -- On files that obey `Disk`:
  -- if `WriteState` returns no error, the state file holds the new state; if it returns one, the file
  -- holds the new state or is as it was. The log is left alone.
  pub write_state-Replaced :
      (s : S) (w : W)
      → Replaced s w
          (write_state sys codec root run_id s w).0
          (write_state sys codec root run_id s w).1
  unfolding write_state
  write_state-Replaced s w =
      let made = wrapping (codes "create run directory") (sys.mkdir_all dir) in
      let encode = wrapping {W = W} (codes "marshal state") (lift (codec.marshal_state s)) in
      let create = wrapping (codes "create temporary state") (sys.create_temp dir pattern_of) in
      let put = λ (bytes temp : Text).
        releasing (sys.remove temp)
          (replace_state sys codec root run_id temp (bytes ++ (newline ∷ []))) in
      quiet_then s made (λ _. encode >>= λ bytes. create >>= put bytes) w
        (disk.mkdir_all dir events w) (disk.mkdir_all dir there w)
        λ _ w₁ _.
          quiet_then s encode (λ bytes. create >>= put bytes) w₁ refl refl
            λ bytes w₂ q₂.
              let encoded : codec.marshal_state s ≡ ok bytes =
                ap (λ q. q.0)
                  (wrapping-ok (codes "marshal state") (lift (codec.marshal_state s)) w₁ q₂) in
              >>=-cases (Replaced s w₂) create (put bytes) w₂
                (λ temp w₃ q₃. with_temp s bytes encoded temp w₂ w₃ (
                  wrapping-ok (codes "create temporary state") (sys.create_temp dir pattern_of) w₂
                    q₃))
                (λ x w₃ q₃.
                  let (y, failed) =
                    wrapping-err (codes "create temporary state") (sys.create_temp dir pattern_of)
                      w₂ q₃ in
                  let same = disk.not_temporary dir pattern_of w₂ w₃ y failed in
                  (same events, inl (same there)))
