-- ===== src/Orchestrator/Execute/Throughout.antt =====
-- `Engine.Run` from its first check to the release of the lock.
use agent_orchestrator_publi.Base.{
  ◌≡◌, refl, sym, subst, ◌∙◌, arith, Option, none, some, [], Text, codes,
}
use agent_orchestrator_publi.Base.Errors.{Error, Result, ok, err, adapter_required}
use agent_orchestrator_publi.FilePath.Clean.{join_path}
use agent_orchestrator_publi.Domain.Task.{Task}
use agent_orchestrator_publi.Runtime.{M, lift}
use agent_orchestrator_publi.Workspace.{Repository}
use agent_orchestrator_publi.Adapters.{Adapter}
use agent_orchestrator_publi.Store.{RunStore}
use agent_orchestrator_publi.Orchestrator.{Run, empty_run}
use agent_orchestrator_publi.Orchestrator.Exits.{
  Exit, going, left, kept, E, ◌>>=◌, going_on, bare, finally, returned,
}
use agent_orchestrator_publi.Orchestrator.Execute.{
  Engine, Host, the_adapter, admit, run_id, new_run, store_root, locked_run, run_task,
}
use agent_orchestrator_publi.Orchestrator.Execute.Recorded.{locked_run-Ensures}
use agent_orchestrator_publi.Orchestrator.Journal.{
  Journal, Recorded, Consistent, Quiet, Recorded-Consistent,
}
use agent_orchestrator_publi.Orchestrator.Journal.Lockable.{Lockable}
use agent_orchestrator_publi.Orchestrator.Journal.Steps.{Ensures, Ensures-bind}
use agent_orchestrator_publi.Orchestrator.Journal.Rules.{Final, finally-Quiet}
use agent_orchestrator_publi.Orchestrator.Journal.Confined.{Confined, lift-Quiet, resolve-Quiet}

module _ {W : Type 0} {store : RunStore W Run} {id : Text} (j : Journal store id) where
  -- Nothing has been recorded of the run.
  abbrev pub Fresh : W → Type 0
  Fresh w = (j.log w ≡ some []) × (j.state w ≡ none)

  Fresh-Consistent : (w : W) → Fresh w → Consistent j w
  Fresh-Consistent w c = record { in_step = λ log r l s. absurd (ground arith) }

  Quiet-Fresh : {A : Type 0} (m : W → A × W) → Quiet j m → (w : W) → Fresh w → Fresh (m w).1
  Quiet-Fresh m q w c = ((q w).0 ∙ c.0, (q w).1 ∙ c.1)

  Went : {A : Type 0} → M W A → W → A → W → Type 0
  Went m w a w' = Fresh w' × (m w ≡ (ok a, w'))

  bare-Fresh :
      {A : Type 0} (m : M W A) → Quiet j m → (w : W) → Fresh w → Ensures j (Went m w) (bare m w)
  unfolding bare Went
  bare-Fresh {A} m q w c = go (m w) refl (Quiet-Fresh m q w c)
    where
      go :
          (r : Result A × W)
          → m w ≡ r
          → Fresh r.1
          → Ensures j
              (λ a w'. Fresh w' × (m w ≡ (ok a, w')))
              (elim r.0 [ ok a ↦ going a | err e ↦ left empty_run e ], r.1)
      go (ok a, w') e c = (c, e)
      go (err x, w') e c = Fresh-Consistent w' c

  -- A quiet step while nothing has been recorded, and then the rest.
  quiet_first :
      {A B : Type 0} (Q : B → W → Type 0) (m : M W A) (f : A → E W B) (w : W)
      → Quiet j m
      → Fresh w
      → ((a : A) (w' : W) → Fresh w' → m w ≡ (ok a, w') → Ensures j Q (f a w'))
      → Ensures j Q ((bare m >>= f) w)
  unfolding Went
  quiet_first Q m f w q c k =
      Ensures-bind j (Went m w) Q (bare m) f w (bare-Fresh m q w c) λ a w' g. k a w' g.0 g.1

  check_first :
      {A B : Type 0} (Q : B → W → Type 0) (r : Result A) (f : A → E W B) (w : W)
      → Fresh w
      → ((a : A) (w' : W) → Fresh w' → lift r w ≡ (ok a, w') → Ensures j Q (f a w'))
      → Ensures j Q ((bare (lift r) >>= f) w)
  check_first Q r f w c k = quiet_first Q (lift r) f w (lift-Quiet j r) c k

  -- What a body ensures holds of the result that it went on with.
  Ensures-result :
      {A : Type 0} (P : A → W → Type 0) (m : E W A) (w : W)
      → Ensures j P (m w)
      → Ensures j (λ a w'. P a w' × (m w ≡ (going a, w'))) (m w)
  Ensures-result {A} P m w c = go (m w) refl c
    where
      go :
          (r : Exit A × W)
          → m w ≡ r
          → Ensures j P r
          → Ensures j (λ a w'. P a w' × (m w ≡ (going a, w'))) r
      go (going a, w') e c = (c, e)
      go (left run x, w') e c = c
      go (kept run x, w') e c = c

  Ensured : (Run × Option Error) → W → Type 0
  Ensured r w = Consistent j w × (r.1 ≡ none → Recorded j r.0 w)

module _ {W Session : Type 0} (h : Host W) (engine : Engine W Session) (task : Task)
    (approved root id : Text) (j : Journal (h.new_store root) id)
    (adapter : Adapter W Session) where
  abbrev pub run_store : RunStore W Run
  run_store = h.new_store root

  abbrev pub evidence_dir : Text
  evidence_dir = join_path (run_store.run_dir id) (codes "evidence")

  -- Neither the calls before the lock is held, nor its release, touch the run's two files.
  pub record Outside : Type 0 where
    pub probe : Quiet j adapter.probe
    pub draw : Quiet j (run_id h engine task approved)
    pub lockable : Lockable j h.sys

  -- The run is the one that `j` is about.
  abbrev pub Named : W → Type 0
  Named w =
      (a : Repository × Adapter W Session) (w₁ : W)
      → admit h engine task approved w ≡ (going a, w₁)
      → (store_root h engine task approved a.0 ≡ root)
        × ((run_id h engine task approved w₁).0 ≡ going id)

  module _ (confined : Confined j h.sys adapter evidence_dir) (outside : Outside)
      (given : engine.adapter ≡ some adapter) where
    Admitted : Repository × Adapter W Session → W → Type 0
    Admitted a w = Fresh j w × (a.1 ≡ adapter)

    admit-Fresh : (w : W) → Fresh j w → Ensures j Admitted (admit h engine task approved w)
    unfolding admit the_adapter Admitted
    admit-Fresh w c = check_first j Admitted _ _ w c λ a w₁ c₁ e.
        check_first j Admitted _ _ w₁ c₁ λ _ w₂ c₂ _. check_first j Admitted _ _ w₂ c₂ λ _ w₃ c₃ _.
          quiet_first j Admitted _ _ w₃ (resolve-Quiet j h.sys confined.execute _) c₃
            λ repository w₄ c₄ _. check_first j Admitted _ _ w₄ c₄ λ _ w₅ c₅ _.
              quiet_first j Admitted _ _ w₅
                (subst (λ (b : Adapter W Session). Quiet j b.probe) (sym (same e)) outside.probe) c₅
                λ _ w₆ c₆ _. check_first j Admitted _ _ w₆ c₆ λ _ w₇ c₇ _.
                  check_first j Admitted _ (λ _. going_on (repository, a)) w₇ c₇
                    λ _ w₈ c₈ _. (c₈, same e)
      where
        same :
            {a : Adapter W Session} {w w' : W}
            → ◌≡◌ {A = Result (Adapter W Session) × W}
                (elim engine.adapter [ none ↦ err adapter_required | some a ↦ ok a ], w)
                (ok a, w')
            → a ≡ adapter
        same e = ground (arith, given)

    draw-Fresh :
        (w : W) {drawn : Text}
        → (run_id h engine task approved w).0 ≡ going drawn
        → Fresh j w
        → Ensures j (λ a w'. Fresh j w' × (a ≡ drawn)) (run_id h engine task approved w)
    draw-Fresh w {drawn} e c =
        go (run_id h engine task approved w) e
          (Quiet-Fresh j (run_id h engine task approved) outside.draw w c)
      where
        go :
            (r : Exit Text × W)
            → r.0 ≡ going drawn
            → Fresh j r.1
            → Ensures j (λ a w'. Fresh j w' × (a ≡ drawn)) r
        go (going a, w') e c = (c, ground arith)
        go (left run x, w') e c = absurd (ground arith)
        go (kept run x, w') e c = absurd (ground arith)

    -- What follows once the run has its id.
    abbrev locking : RunStore W Run → Adapter W Session → Text → Text → E W Run
    locking store agent drawn repository_root = bare h.sys.now >>= λ now.
        bare (
          store.acquire_lock (store.run_dir drawn)
            (record { pid = h.sys.pid; command = codes "run"; generation = 1; acquired_at = now }))
        >>= λ lock. finally (store.release_lock lock) (
            locked_run h engine task approved store agent (
              new_run h engine task approved drawn repository_root
                (join_path (store.run_dir drawn) (codes "evidence"))))

    locking-Ensures :
        (repository_root : Text) (w : W)
        → Fresh j w
        → Ensures j (Final j) (locking run_store adapter id repository_root w)
    locking-Ensures repository_root w c =
        quiet_first j (Final j) _ _ w outside.lockable.now c λ now w₁ c₁ _.
          quiet_first j (Final j) _ _ w₁ (outside.lockable.acquire _) c₁ λ lock w₂ c₂ e.
            finally-Quiet j _ _ (outside.lockable.release _ w₁ w₂ lock e) w₂ (
              locked_run-Ensures h engine task approved run_store id j adapter evidence_dir confined
                _ w₂ refl refl refl c₂.0 c₂.1)

    abbrev body : E W Run
    body = admit h engine task approved >>= λ admitted. run_id h engine task approved >>= λ drawn.
        locking (h.new_store (store_root h engine task approved admitted.0)) admitted.1 drawn
          admitted.0.root

    body-Ensures : (w : W) → Named w → Fresh j w → Ensures j (Final j) (body w)
    unfolding Admitted
    body-Ensures w named c =
        Ensures-bind j _ (Final j) (admit h engine task approved) _ w
          (Ensures-result j Admitted (admit h engine task approved) w (admit-Fresh w c))
          λ a w₁ ((c₁, same), e).
            let (at, drawn) = named a w₁ e in
            Ensures-bind j _ (Final j) (run_id h engine task approved) _ w₁ (draw-Fresh w₁ drawn c₁)
              λ i w₂ (c₂, is_id). rw (at, same, is_id) (locking-Ensures a.0.root w₂ c₂)

    -- The two results, from the way in which the body ended.
    ended : (r : Exit Run × W) → Ensures j (Final j) r → Ensured j (returned (λ w. r) r.1).0 r.1
    unfolding returned Ensured
    ended (going run, w) c = (Recorded-Consistent j run w c, λ _. c)
    ended (left run x, w) c = (c, λ e. absurd (ground arith))
    ended (kept run x, w) c = (c, λ e. absurd (ground arith))

    -- `Engine.Run` as a whole, with an adapter, for the run and over the store that are `Named`,
    -- of which nothing has been recorded; over a store that obeys the laws of `Journal`, and where
    -- what the engine calls is `Confined` and, for the calls around the lock, `Outside`: whatever
    -- it returns, the log, if it can be read, leads `Transition` from CREATED to the state that
    -- the state file holds, or does so without its last event; and where it returns no error, both
    -- files hold the state of the run returned.
    pub run_task-Consistent :
        (w : W)
        → Named w
        → j.log w ≡ some []
        → j.state w ≡ none
        → let (r, w') = run_task h engine task approved w in
          Consistent j w' × (r.1 ≡ none → Recorded j r.0 w')
    unfolding run_task returned Ensured
    run_task-Consistent w named log state = ended (body w) (body-Ensures w named (log, state))
