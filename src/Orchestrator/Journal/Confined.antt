-- ===== src/Orchestrator/Journal/Confined.antt =====
-- What the engine relies on of the programs that it starts, of its adapter and of the file system:
-- none of them touches the log or the state file of the run. The programs are git, the acceptance
-- commands and the agent; the files are the evidence, which lies in a directory of its own.
use agent_orchestrator_publi.Base.{
  ◌≡◌, refl, ◌∙◌, Bool-cases, inl, inr, Option, none, some, List, [], ◌∷◌, ◌++◌, Text, codes,
  if◌then◌else◌, is_empty,
}
use agent_orchestrator_publi.Base.Errors.{Error, Result, ok, err, require, dirty}
use agent_orchestrator_publi.FilePath.Space.{trim_space}
use agent_orchestrator_publi.FilePath.Fields.{fields}
use agent_orchestrator_publi.FilePath.Split.{split}
use agent_orchestrator_publi.FilePath.Clean.{clean, is_abs, join_path}
use agent_orchestrator_publi.Domain.Task.{Task, CommandSpec}
use agent_orchestrator_publi.Runtime.{M, pure, lift, ◌>>=◌, Spec, System}
use agent_orchestrator_publi.Runtime.Process
use agent_orchestrator_publi.Workspace
use agent_orchestrator_publi.Workspace.{Repository}
use agent_orchestrator_publi.Verification.{CommandResult, run_argv, run_command, run_commands}
use agent_orchestrator_publi.Adapters.{Job, Adapter}
use agent_orchestrator_publi.Store.{RunStore}
use agent_orchestrator_publi.Orchestrator.{Run}
use agent_orchestrator_publi.Orchestrator.Execute.{Engine, Host, verify, make_work_root}
use agent_orchestrator_publi.Orchestrator.Journal.{Journal, Quiet}

-- The files of evidence that the engine writes.
pub data EvidenceName : Text → Type 0 where
  diff_patch : EvidenceName (codes "diff.patch")
  evidence_bundle : EvidenceName (codes "evidence-bundle.json")
  decision_packet : EvidenceName (codes "decision-packet.json")

module _ {W Session : Type 0} {store : RunStore W Run} {id : Text} (j : Journal store id) where
  pub record Confined (sys : System W) (adapter : Adapter W Session) (evidence_dir : Text)
      : Type 0 where
    pub execute : (spec : Spec) (env : List Text) → Quiet j (sys.execute spec env)
    pub make_temp_dir : (name : Text) → Quiet j (sys.make_temp_dir name)
    pub mkdir_all : Quiet j (sys.mkdir_all evidence_dir)
    pub create_new :
        (name : Text) → EvidenceName name → Quiet j (sys.create_new (join_path evidence_dir name))
    pub write :
        (name : Text)
        → EvidenceName name
        → (bytes : Text) → Quiet j (sys.write (join_path evidence_dir name) bytes)
    pub sync : (name : Text) → EvidenceName name → Quiet j (sys.sync (join_path evidence_dir name))
    pub close :
        (name : Text) → EvidenceName name → Quiet j (sys.close (join_path evidence_dir name))
    pub start : (job : Job) → Quiet j (adapter.start job)
    pub wait : (session : Session) → Quiet j (adapter.wait session)

module _ {W : Type 0} {store : RunStore W Run} {id : Text} (j : Journal store id) where
  pub lift-Quiet : {A : Type 0} (r : Result A) → Quiet j (lift r)
  lift-Quiet r w = (refl, refl)

  pub >>=-Quiet :
      {A B : Type 0} (m : M W A) (f : A → M W B)
      → Quiet j m
      → ((a : A) → Quiet j (f a))
      → Quiet j (m >>= f)
  >>=-Quiet {A} {B} m f q k w = go (m w) (q w)
    where
      go :
          (r : Result A × W)
          → (j.log r.1 ≡ j.log w) × (j.state r.1 ≡ j.state w)
          → let out : Result B × W = elim r.0 [ ok a ↦ f a r.1 | err e ↦ (err e, r.1) ] in
            (j.log out.1 ≡ j.log w) × (j.state out.1 ≡ j.state w)
      go (ok a, w') (l, s) = ((k a w').0 ∙ l, (k a w').1 ∙ s)
      go (err e, w') c = c

module _ {W : Type 0} {store : RunStore W Run} {id : Text} (j : Journal store id) (sys : System W)
    (quiet : (spec : Spec) (env : List Text) → Quiet j (sys.execute spec env)) where
  pub run-Quiet : (spec : Spec) → Quiet j (Process.run sys spec)
  unfolding Process.run
  run-Quiet spec w = elim (Bool-cases (is_empty spec.path)) [
    | inl e ↦ rw e (refl, refl)
    | inr e ↦ rw e (quiet spec _ w)
  ]

  git_raw-Quiet : (dir : Text) (args : List Text) → Quiet j (Workspace.git_raw sys dir args)
  unfolding Workspace.git_raw
  git_raw-Quiet dir args w = run-Quiet _ w

  git_output-Quiet : (dir : Text) (args : List Text) → Quiet j (Workspace.git_output sys dir args)
  unfolding Workspace.git_output
  git_output-Quiet dir args =
      >>=-Quiet j (Workspace.git_raw sys dir args) (λ out. pure (trim_space out))
        (git_raw-Quiet dir args) (λ a w. (refl, refl))

  git_then-Quiet :
      {A : Type 0} (dir : Text) (args : List Text) (f : Text → M W A)
      → ((out : Text) → Quiet j (f out))
      → Quiet j (Workspace.git_output sys dir args >>= f)
  git_then-Quiet dir args f k =
      >>=-Quiet j (Workspace.git_output sys dir args) f (git_output-Quiet dir args) k

  abbrev found : Text → Text → Text → Repository
  found root common head = record {
    root = root;
    common_dir = clean (if is_abs common then common else join_path root common);
    head = head;
  }

  abbrev heading : Text → Text → M W Repository
  heading root common =
      Workspace.git_output sys root (codes "rev-parse" ∷ codes "HEAD" ∷ []) >>= λ head.
      pure (found root common head)

  abbrev finding : Text → M W Repository
  finding top =
      Workspace.git_output sys (clean top) (codes "rev-parse" ∷ codes "--git-common-dir" ∷ [])
      >>= heading (clean top)

  pub resolve-Quiet : (repository : Text) → Quiet j (Workspace.resolve sys repository)
  unfolding Workspace.resolve
  resolve-Quiet repository =
      git_then-Quiet repository (codes "rev-parse" ∷ codes "--show-toplevel" ∷ []) finding λ top.
        git_then-Quiet (clean top) (codes "rev-parse" ∷ codes "--git-common-dir" ∷ [])
          (heading (clean top))
          λ common.
            git_then-Quiet (clean top) (codes "rev-parse" ∷ codes "HEAD" ∷ [])
              (λ head. pure (found (clean top) common head)) λ head w. (refl, refl)

  pub head_of-Quiet : (dir : Text) → Quiet j (Workspace.head_of sys dir)
  unfolding Workspace.head_of
  head_of-Quiet dir = git_output-Quiet dir (codes "rev-parse" ∷ codes "HEAD" ∷ [])

  pub add-Quiet :
      (repository destination commit : Text)
      → Quiet j (Workspace.add sys repository destination commit)
  unfolding Workspace.add
  add-Quiet r d c =
      let args = codes "worktree" ∷ codes "add" ∷ codes "--detach" ∷ d ∷ c ∷ [] in
      >>=-Quiet j (Workspace.git_output sys r args) (λ _. pure tt) (git_output-Quiet r args)
        (λ a w. (refl, refl))

  pub remove-Quiet :
      (repository worktree : Text) → Quiet j (Workspace.remove sys repository worktree)
  unfolding Workspace.remove
  remove-Quiet r d =
      let query = codes "status" ∷ codes "--porcelain" ∷ [] in
      let args = codes "worktree" ∷ codes "remove" ∷ d ∷ [] in
      >>=-Quiet j (Workspace.git_output sys d query)
        (λ status. lift (require (is_empty status) dirty) >>= λ _.
          Workspace.git_output sys r args >>= λ _. pure tt)
        (git_output-Quiet d query)
        (λ status.
          >>=-Quiet j (lift (require (is_empty status) dirty))
            (λ _. Workspace.git_output sys r args >>= λ _. pure tt)
            (lift-Quiet j (require (is_empty status) dirty))
            (λ _.
              >>=-Quiet j (Workspace.git_output sys r args) (λ _. pure tt) (git_output-Quiet r args)
                (λ a w. (refl, refl))))

  pub validate_result_commit-Quiet :
      (worktree base result : Text)
      → Quiet j (Workspace.validate_result_commit sys worktree base result)
  unfolding Workspace.validate_result_commit
  validate_result_commit-Quiet worktree base result =
      let args = codes "rev-list" ∷ codes "--parents" ∷ codes "-n" ∷ codes "1" ∷ result ∷ [] in
      >>=-Quiet j (Workspace.git_output sys worktree args)
        (λ line. lift (Workspace.check_parents base result (fields line)))
        (git_output-Quiet worktree args) (λ line w. (refl, refl))

  pub changed_paths-Quiet :
      (worktree base result : Text) → Quiet j (Workspace.changed_paths sys worktree base result)
  unfolding Workspace.changed_paths
  changed_paths-Quiet worktree base result =
      let args =
        codes "diff" ∷ codes "--name-only" ∷ codes "-z" ∷ Workspace.range base result ∷ [] in
      >>=-Quiet j (Workspace.git_raw sys worktree args)
        (λ out. pure (Workspace.non_empty (split 0 out))) (git_raw-Quiet worktree args)
        (λ out w. (refl, refl))

  pub diff-Quiet : (worktree base result : Text) → Quiet j (Workspace.diff sys worktree base result)
  unfolding Workspace.diff
  diff-Quiet worktree base result w = git_raw-Quiet worktree _ w

  run_command-Quiet :
      (dir : Text) (env : List (Text × Text)) (c : CommandSpec)
      → Quiet j (run_command sys dir env c)
  unfolding run_command
  run_command-Quiet dir env c w = go c.argv
    where
      go :
          (argv : List Text)
          → (j.log (run_argv sys dir env c argv w).1 ≡ j.log w)
            × (j.state (run_argv sys dir env c argv w).1 ≡ j.state w)
      go [] = unfold run_argv in (refl, refl)
      go (program ∷ args) = unfold run_argv in run-Quiet _ w

  run_commands-Quiet :
      (dir : Text) (env : List (Text × Text)) (cs : List CommandSpec) (results : List CommandResult)
      → Quiet j (run_commands sys dir env results cs)
  unfolding run_commands
  run_commands-Quiet dir env [] results w = (refl, refl)
  run_commands-Quiet dir env (c ∷ cs) results w =
      go (run_commands-Quiet dir env cs) (run_command sys dir env c w)
        (run_command-Quiet dir env c w)
    where
      go :
          ((results : List CommandResult) → Quiet j (run_commands sys dir env results cs))
          → (r : (List CommandResult × Option Error) × W)
          → (j.log r.1 ≡ j.log w) × (j.state r.1 ≡ j.state w)
          → let out : (List CommandResult × Option Error) × W = elim r.0.1 [
            | some cause ↦ ((results ++ r.0.0, some cause), r.1)
            | none ↦ run_commands sys dir env (results ++ r.0.0) cs r.1
          ] in
            (j.log out.1 ≡ j.log w) × (j.state out.1 ≡ j.state w)
      go rest ((more, some cause), w') q = q
      go rest ((more, none), w') q =
          ((rest (results ++ more) w').0 ∙ q.0, (rest (results ++ more) w').1 ∙ q.1)

module _ {W Session : Type 0} {store : RunStore W Run} {id : Text} (j : Journal store id)
    (h : Host W) (quiet : (spec : Spec) (env : List Text) → Quiet j (h.sys.execute spec env))
    (engine : Engine W Session) (task : Task) (approved : Text) where
  pub verify-Quiet :
      (dir commit : Text) (changed : List Text)
      → Quiet j (verify h engine task approved dir commit changed)
  unfolding verify
  verify-Quiet dir commit changed w = run_commands-Quiet j h.sys quiet dir _ task.acceptance [] w

  pub make_work_root-Quiet :
      ((name : Text) → Quiet j (h.sys.make_temp_dir name))
      → (name : Text) → Quiet j (make_work_root h engine task approved name)
  unfolding make_work_root
  make_work_root-Quiet q name w = q _ w
