-- ===== src/Orchestrator/Decide/Recorded.antt =====
-- A decision keeps the log and the state file of its run together.
use agent_orchestrator_publi.Base.{◌≡◌, refl, sym, ap, subst, ◌∙◌, arith, Text, codes, some, List}
use agent_orchestrator_publi.Base.Errors.{Result, ok, err}
use agent_orchestrator_publi.FilePath.Clean.{join_path}
use agent_orchestrator_publi.Domain.Run.{Approval}
use agent_orchestrator_publi.Runtime.{M, pure, lift, ◌>>=◌, >>=-ok, releasing, Spec}
use agent_orchestrator_publi.Workspace
use agent_orchestrator_publi.Workspace.{Repository}
use agent_orchestrator_publi.Store.{RunStore}
use agent_orchestrator_publi.Store.Disk.Rules.{>>=-cases}
use agent_orchestrator_publi.Orchestrator.{Run, transition_run}
use agent_orchestrator_publi.Orchestrator.Execute.{Host}
use agent_orchestrator_publi.Orchestrator.Journal.{
  Ends, Journal, Recorded, Consistent, Quiet, Quiet-Recorded, Quiet-Consistent, Recorded-Consistent,
}
use agent_orchestrator_publi.Orchestrator.Journal.Steps.{AfterTransition, transition_run-Recorded}
use agent_orchestrator_publi.Orchestrator.Journal.Confined.{resolve-Quiet, lift-Quiet, >>=-Quiet}
use agent_orchestrator_publi.Orchestrator.Journal.Lockable.{Lockable}
use agent_orchestrator_publi.Orchestrator.Decide.Whole.{owner_of}
use agent_orchestrator_publi.Orchestrator.Decide.{
  decide_recorded, judge, store_of, decide_read, decide,
}

module _ {W : Type 0} {store : RunStore W Run} {id : Text} (j : Journal store id) where
  -- The files agree; and if a run is returned, both hold its state.
  abbrev Kept : Result Run → W → Type 0
  Kept r w = Consistent j w × ((run : Run) → r ≡ ok run → Recorded j run w)

  quiet_step :
      {A : Type 0} (run : Run) (m : M W A) (f : A → M W Run) (w : W)
      → Quiet j m
      → Recorded j run w
      → ((a : A) (w₁ : W) → m w ≡ (ok a, w₁) → Recorded j run w₁ → Kept (f a w₁).0 (f a w₁).1)
      → Kept ((m >>= f) w).0 ((m >>= f) w).1
  quiet_step run m f w q c k =
      >>=-cases Kept m f w
        (λ a w₁ e. k a w₁ e (subst (λ v. Recorded j run v.1) e (Quiet-Recorded j m q run w c)))
        (λ x w₁ e. (
          Recorded-Consistent j run w₁
              (subst (λ v. Recorded j run v.1) e (Quiet-Recorded j m q run w c)),
          λ run' h. absurd (ground arith),
        ))

  transition_run-Kept : (run : Run) (r : Result Run × W) → AfterTransition j run r → Kept r.0 r.1
  transition_run-Kept run (ok run', w) c =
      (Recorded-Consistent j run' w c.0, λ r h. subst (λ q. Recorded j q w) (ground arith) c.0)
  transition_run-Kept run (err x, w) c = (c, λ r h. absurd (ground arith))

  decide_recorded-Kept :
      (asked : Text) (run : Run) (a : Approval) (w : W)
      → Recorded j run w
      → Kept (decide_recorded store asked run a w).0 (decide_recorded store asked run a w).1
  unfolding decide_recorded
  decide_recorded-Kept asked run a w c =
      quiet_step run (lift (judge asked run a)) (λ event. transition_run store run event) w
        (lift-Quiet j (judge asked run a)) c
        λ event w₁ _ c₁. transition_run-Kept run _ (transition_run-Recorded j run event w₁ c₁)

  releasing-Kept :
      (release : M W (Unit {0})) (m : M W Run) (w : W)
      → Quiet j release
      → Kept (m w).0 (m w).1
      → Kept (releasing release m w).0 (releasing release m w).1
  unfolding releasing
  releasing-Kept release m w q (c, k) = (
    Quiet-Consistent j release q (m w).1 c,
    λ run h. Quiet-Recorded j release q run (m w).1 (k run h),
  )

  -- The run in the state file is the one that is recorded.
  read-Recorded : (run r : Run) (w : W) → Recorded j run w → j.state w ≡ some r → Recorded j r w
  read-Recorded run r w c e =
      let (s, found, same, named) = c.saved in
      let is_it : s ≡ r = cc (sym found ∙ e) in
      record {
        is_run = sym (ap (λ q. q.id) is_it) ∙ named;
        logged = λ log l. subst (Ends log) (sym same ∙ ap (λ q. q.state) is_it) (c.logged log l);
        saved = (r, e, refl, sym (ap (λ q. q.id) is_it) ∙ named);
      }

module _ {W : Type 0} (h : Host W) (root id : Text) (j : Journal (h.new_store root) id) where
  abbrev run_store : RunStore W Run
  run_store = h.new_store root

  -- What `Decide` calls, besides `transition`, touches neither of the two files, and what it reads
  -- of the run is its state file.
  pub record Reading : Type 0 where
    pub execute : (spec : Spec) (env : List Text) → Quiet j (h.sys.execute spec env)
    pub read : Quiet j (run_store.read_state id)
    pub reads : (r : Run) (w w' : W) → run_store.read_state id w ≡ (ok r, w') → j.state w ≡ some r
    pub lockable : Lockable j h.sys

  -- The repository's store is the one that `j` is about.
  abbrev pub Opens : Text → W → Type 0
  Opens repository_root w =
      (r : Repository) (w₁ : W)
      → Workspace.resolve h.sys repository_root w ≡ (ok r, w₁)
      → join_path r.common_dir (codes "agent-orchestrator") ≡ root

  module _ (reading : Reading) (approval : Approval) where
    decide_read-Kept :
        (run : Run) (w : W)
        → Recorded j run w
        → Kept j
            (decide_read h run_store id approval run w).0
            (decide_read h run_store id approval run w).1
    unfolding decide_read
    decide_read-Kept run w c = quiet_step j run h.sys.now _ w reading.lockable.now c λ now w₁ _ c₁.
        quiet_step j run (run_store.acquire_lock (run_store.run_dir id) (owner_of h run now)) _ w₁
          (reading.lockable.acquire (owner_of h run now)) c₁
          λ lock w₂ e c₂.
            releasing-Kept j (run_store.release_lock lock)
              (decide_recorded run_store id run approval) w₂
              (reading.lockable.release _ w₁ w₂ lock e)
              (decide_recorded-Kept j id run approval w₂ c₂)

    abbrev opening : Repository → M W (RunStore W Run)
    opening r = pure (h.new_store (join_path r.common_dir (codes "agent-orchestrator")))

    store_of-Quiet : (repository_root : Text) → Quiet j (store_of h repository_root)
    unfolding store_of
    store_of-Quiet repository_root =
        >>=-Quiet j (Workspace.resolve h.sys repository_root) opening
          (resolve-Quiet j h.sys reading.execute repository_root) (λ r w. (refl, refl))

    opened :
        (repository_root : Text) (w w₁ : W) {s : RunStore W Run}
        → Opens repository_root w
        → store_of h repository_root w ≡ (ok s, w₁)
        → s ≡ run_store
    unfolding store_of
    opened repository_root w w₁ {s} opens e =
        let (r, w₂, found, e₂) = >>=-ok (Workspace.resolve h.sys repository_root) opening w e in
        let same : h.new_store (join_path r.common_dir (codes "agent-orchestrator")) ≡ s =
          ground arith in
        sym same ∙ ap h.new_store (opens r w₂ found)

    abbrev continuing : RunStore W Run → M W Run
    continuing s = s.read_state id >>= λ r. decide_read h s id approval r

    -- `Engine.Decide` on a run whose log, if it can be read, leads to the state in its state file,
    -- in a repository that `Opens` the store, which obeys the laws of `Journal`, and where what is
    -- called to read the run and to lock it is as `Reading` says: whatever it returns, the log, if
    -- it can be read, leads `Transition` from CREATED to the state in the state file, or does so
    -- without its last event; and where it returns a run and no error, both files hold the state
    -- of that run.
    pub decide-Consistent :
        (repository_root : Text) (run : Run) (w : W)
        → Opens repository_root w
        → Recorded j run w
        → let (r, w') = decide h repository_root id approval w in
          Consistent j w' × ((run' : Run) → r ≡ ok run' → Recorded j run' w')
    unfolding decide
    decide-Consistent repository_root run w opens c =
        quiet_step j run (store_of h repository_root) continuing w (store_of-Quiet repository_root)
          c
          λ s w₁ e c₁. rw (opened repository_root w w₁ opens e) (
            quiet_step j run (run_store.read_state id) (decide_read h run_store id approval) w₁
              reading.read c₁
              λ r w₂ e₂ c₂. decide_read-Kept r w₂ (
                subst (λ v. Recorded j r v.1) e₂
                  (Quiet-Recorded j (run_store.read_state id) reading.read r w₁
                    (read-Recorded j run r w₁ c₁ (reading.reads r w₁ w₂ e₂)))))
