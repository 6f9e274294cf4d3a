-- ===== src/Cli/Exits.antt =====
-- What an exit code of the program `orch` says.
use agent_orchestrator_publi.Base.{
  ℕ, ◌≡◌, refl, ap, ◌∙◌, arith, ◌⊎◌, inl, inr, Bool, true, text_eq_iff, Option, none, some, List,
  ◌∷◌, Text, codes, text_eq,
}
use agent_orchestrator_publi.Base.Errors.{
  Error, Result, ok, err, require, unsupported_strategy, unsupported_writer,
}
use agent_orchestrator_publi.Domain.Task.{Task}
use agent_orchestrator_publi.Policy.{ExecutionMode, trusted_local, strict, other_mode}
use agent_orchestrator_publi.Runtime.{lift, M, ◌>>=◌, ◌>>◌, >>=-ok}
use agent_orchestrator_publi.Orchestrator.{Run}
use agent_orchestrator_publi.Orchestrator.Execute.{Host}
use agent_orchestrator_publi.Orchestrator.Execute.Concluded.{IsConcluded, run_task-IsConcluded}
use agent_orchestrator_publi.Service.{prepare, service_run}
use agent_orchestrator_publi.Cli.Loads.{IsFile, load_task-IsFile}
use agent_orchestrator_publi.Cli.{
  RunFlags, a_run, Library, mode_of, require_mode, load_task, engine_of, run_engine, run_command,
  dispatch, execute,
}

module _ {W : Type 0} (h : Host W) (lib : Library W) where
  -- What `orch run` has done from the world `w`, in which it had its flags, to its end in `w'`: it
  -- has read the task of the file that the flags name, has prepared that task and no other, and the
  -- engine, made of the mode of the flags and of the environment, has run the prepared task with the
  -- digest of the flags; the run was concluded, and has been printed.
  pub record IsStarted (flags : RunFlags) (w w' : W) : Type 0 where
    pub single : flags.strategy ≡ codes "single"
    pub codex : flags.writer ≡ codes "codex"
    pub known : (mode_of flags.mode ≡ trusted_local) ⊎ (mode_of flags.mode ≡ strict)
    pub file : Task
    pub loaded : W
    pub read : IsFile h lib flags.task_path w file loaded
    pub ready : Task
    pub digest : Text
    pub after : W
    pub prepared : prepare h file loaded ≡ (ok (ready, digest), after)
    pub run : Run
    pub finished : W
    pub ran :
        service_run h
          (engine_of h lib (mode_of flags.mode) loaded)
          ready
          flags.approved_digest
          after
        ≡ ((run, none), finished)
    pub concluded :
        IsConcluded h (engine_of h lib (mode_of flags.mode) loaded) ready flags.approved_digest run
    pub printed : lib.write_json (a_run run) finished ≡ (ok tt, w')

  run_engine-ran :
      (mode : ExecutionMode) (made : W) (task : Task) (approved : Text) (w : W) {run : Run} {w' : W}
      → run_engine h lib mode made task approved w ≡ (ok run, w')
      → service_run h (engine_of h lib mode made) task approved w ≡ ((run, none), w')
  unfolding run_engine
  run_engine-ran mode made task approved w {run} {w'} q =
      go (service_run h (engine_of h lib mode made) task approved w) q
    where
      go :
          (out : (Run × Option Error) × W)
          → ◌≡◌ {A = Result Run × W}
              (elim out.0.1 [ none ↦ ok out.0.0 | some e ↦ err e ], out.1)
              (ok run, w')
          → out ≡ ((run, none), w')
      go ((r, none), v) q = cc q
      go ((r, some x), v) q = absurd (cc (ap (λ p. p.0) q))

  ran-IsConcluded :
      (mode : ExecutionMode) (made : W) (task : Task) (approved : Text) (w : W) {run : Run} {w' : W}
      → service_run h (engine_of h lib mode made) task approved w ≡ ((run, none), w')
      → IsConcluded h (engine_of h lib mode made) task approved run
  unfolding service_run
  ran-IsConcluded mode made task approved w q =
      run_task-IsConcluded h (engine_of h lib mode made) task approved w q

  mode_known : (m : ExecutionMode) → require_mode m ≡ ok tt → (m ≡ trusted_local) ⊎ (m ≡ strict)
  unfolding require_mode
  mode_known trusted_local q = inl refl
  mode_known strict q = inr refl
  mode_known (other_mode s) q = absurd (cc q)

  required : (b : Bool) (x : Error) → require b x ≡ ok tt → b ≡ true
  required b x q = ground arith

  -- A chain that ends well has passed its first check, which leaves the world as it is.
  check-ok :
      (r : Result (Unit {0})) (m : M W (Unit {0})) (w : W) {w' : W}
      → (lift r >> m) w ≡ (ok tt, w')
      → (r ≡ ok tt) × (m w ≡ (ok tt, w'))
  check-ok (ok _) m w q = (refl, q)
  check-ok (err x) m w q = absurd (cc (ap (λ p. p.0) q))

  run_command-IsStarted :
      (args : List Text) (w : W) {w' : W}
      → run_command h lib args w ≡ (ok tt, w')
      → (flags : RunFlags) × (w₁ : W) × (lib.run_flags args w ≡ (ok flags, w₁))
        × IsStarted flags w₁ w'
  unfolding run_command
  run_command-IsStarted args w q =
      let single = λ (flags : RunFlags).
        require (text_eq flags.strategy (codes "single")) (unsupported_strategy flags.strategy) in
      let codex = λ (flags : RunFlags).
        require (text_eq flags.writer (codes "codex")) (unsupported_writer flags.writer) in
      let mode = λ (flags : RunFlags). mode_of flags.mode in
      let printing = λ (run : Run). lib.write_json (a_run run) in
      let running = λ (flags : RunFlags) (made : W) (ready : Task × Text).
        run_engine h lib (mode flags) made ready.0 flags.approved_digest >>= printing in
      let preparing = λ (flags : RunFlags) (task : Task) (made : W).
        (prepare h task >>= running flags made) made in
      let loading = λ (flags : RunFlags). load_task h lib flags.task_path >>= preparing flags in
      let moded = λ (flags : RunFlags). lift (require_mode (mode flags)) >> loading flags in
      let written = λ (flags : RunFlags). lift (codex flags) >> moded flags in
      let (flags, w₁, m₁, c₁) =
        >>=-ok (lib.run_flags args) (λ flags. lift (single flags) >> written flags) w q in
      let (s, c₂) = check-ok (single flags) (written flags) w₁ c₁ in
      let (c, c₃) = check-ok (codex flags) (moded flags) w₁ c₂ in
      let (k, c₄) = check-ok (require_mode (mode flags)) (loading flags) w₁ c₃ in
      let (task, w₂, m₂, c₅) = >>=-ok (load_task h lib flags.task_path) (preparing flags) w₁ c₄ in
      let (ready, w₃, m₃, c₆) = >>=-ok (prepare h task) (running flags w₂) w₂ c₅ in
      let (run, w₄, m₄, c₇) =
        >>=-ok (run_engine h lib (mode flags) w₂ ready.0 flags.approved_digest) printing w₃ c₆ in
      let ran = run_engine-ran (mode flags) w₂ ready.0 flags.approved_digest w₃ m₄ in
      (
        flags,
        w₁,
        m₁,
        record {
          single = (text_eq_iff flags.strategy (codes "single")).0 (required _ _ s);
          codex = (text_eq_iff flags.writer (codes "codex")).0 (required _ _ c);
          known = mode_known (mode flags) k;
          file = task;
          loaded = w₂;
          read = load_task-IsFile h lib flags.task_path w₁ m₂;
          ready = ready.0;
          digest = ready.1;
          after = w₃;
          prepared = m₃;
          run = run;
          finished = w₄;
          ran = ran;
          concluded = ran-IsConcluded (mode flags) w₂ ready.0 flags.approved_digest w₃ ran;
          printed = c₇;
        },
      )

  -- If `orch run` ends with exit code 0, then for the flags that it was given, of which the strategy,
  -- the writer and the mode are known ones, it has read the one task of the file that the flags
  -- name, has prepared that task, and the engine, made of the mode of the flags and of the
  -- environment, has concluded a run of the prepared task with the digest of the flags: all that
  -- `IsConcluded` says holds of it; and that run has been printed.
  pub execute-IsStarted :
      (args : List Text) (w : W) {w' : W}
      → execute h lib (codes "run" ∷ args) w ≡ (0, w')
      → (flags : RunFlags) × (w₁ : W) × (lib.run_flags args w ≡ (ok flags, w₁))
        × IsStarted flags w₁ w'
  unfolding execute dispatch text_eq
  execute-IsStarted args w {w'} q = go (run_command h lib args w) refl q
    where
      go :
          (out : Result (Unit {0}) × W)
          → run_command h lib args w ≡ out
          → ◌≡◌ {A = ℕ × W}
              (elim out.0 [ err e ↦ (1, lib.print_error e out.1) | ok _ ↦ (0, out.1) ])
              (0, w')
          → (flags : RunFlags) × (w₁ : W) × (lib.run_flags args w ≡ (ok flags, w₁))
            × IsStarted flags w₁ w'
      go (ok _, v) e q = run_command-IsStarted args w (e ∙ ap (λ v. (ok tt, v)) (ap (λ p. p.1) q))
      go (err x, v) e q = absurd (cc (ap (λ p. p.0) q))
