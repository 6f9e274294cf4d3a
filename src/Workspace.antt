-- ===== src/Workspace.antt =====
-- internal/workspace/git.go: the git commands, and the two checks on a writer's commit.
pub mod Paths
pub mod Commits
use agent_orchestrator_publi.Base.{
  ℕ, zero, suc, ℤ, pos, Bool, true, false, not, ◌&&◌, ◌||◌, if◌then◌else◌, Option, none, some, List,
  [], ◌∷◌, ◌++◌, Text, codes, is_empty, text_eq, has_prefix, has_suffix, any, insert,
}
use agent_orchestrator_publi.Base.Errors.{
  Error, Result, ok, err, refuse_if, require, git_failed, dirty, bad_result_commit,
  path_not_allowed,
}
use agent_orchestrator_publi.FilePath.Space.{ascii_space, trim_space, trim_left}
use agent_orchestrator_publi.FilePath.Fields.{fields}
use agent_orchestrator_publi.FilePath.Split.{split}
use agent_orchestrator_publi.FilePath.Clean.{is_abs, clean, join_path, slash}
use agent_orchestrator_publi.Runtime.{M, pure, lift, ◌>>=◌, ◌>>◌, Spec, System}
use agent_orchestrator_publi.Runtime.Process.{ProcessResult, run}

pub record Repository : Type 0 where
  pub root : Text
  pub common_dir : Text
  pub head : Text

-- Variables of the process that are passed on, if they are set.
unfoldable pub pass_env : (Text → Option Text) → List Text → List (Text × Text) → List (Text × Text)
unfolding insert
pass_env env [] result = result
pass_env env (key ∷ keys) result =
    pass_env env keys (elim (env key) [ some value ↦ insert key value result | none ↦ result ])

unfoldable pub git_environment : (Text → Option Text) → List (Text × Text)
unfolding pass_env
git_environment env =
    pass_env env (codes "PATH" ∷ codes "HOME" ∷ codes "TMPDIR" ∷ [])
      ((codes "LC_ALL", codes "C") ∷ [])

-- The result commit and its only parent are the two words of a line of `git rev-list --parents`.
unfoldable pub check_parents : Text → Text → List Text → Result (Unit {0})
check_parents base result (first ∷ second ∷ []) =
    refuse_if (not (text_eq first result) || not (text_eq second base)) bad_result_commit
check_parents base result _ = err bad_result_commit

-- The parts that are not empty.
unfoldable pub non_empty : List Text → List Text
non_empty [] = []
non_empty (part ∷ parts) = let rest = non_empty parts in if is_empty part then rest else part ∷ rest

-- One rule of the allowlist: a directory, with its slash, or a file.
unfoldable pub permits : Text → Text → Bool
unfolding has_prefix has_suffix text_eq
permits path rule =
    if has_suffix rule (slash ∷ []) then has_prefix path rule else text_eq path (clean rule)

-- `ValidateAllowedPaths`; the inner loop stops at the first rule that permits the path.
unfoldable pub validate_allowed_paths : List Text → List Text → Result (Unit {0})
validate_allowed_paths [] allowed = ok tt
validate_allowed_paths (path ∷ changed) allowed =
    let rest = validate_allowed_paths changed allowed in
    if any (permits (clean path)) allowed then rest else err (path_not_allowed path)

abbrev pub range : Text → Text → Text
range base result = base ++ (codes ".." ++ result)

module _ {W : Type 0} (sys : System W) where
  -- `gitRaw` and `gitOutput`
  unfoldable pub git_raw : Text → List Text → M W Text
  git_raw dir args w =
      let (r, w') =
        run sys
          (record {
            path = codes "git";
            args = args;
            dir = dir;
            env = git_environment (λ key. sys.lookup_env key w);
            timeout = pos 30;
          })
          w in
      (elim r.1 [ none ↦ ok r.0.stdout | some e ↦ err (git_failed args e r.0.stderr) ], w')

  unfoldable pub git_output : Text → List Text → M W Text
  unfolding git_raw
  git_output dir args = do output ← git_raw dir args; pure (trim_space output)

  unfoldable pub resolve : Text → M W Repository
  unfolding git_output
  resolve repository = do
    top ← git_output repository (codes "rev-parse" ∷ codes "--show-toplevel" ∷ [])
    let root = clean top
    common ← git_output root (codes "rev-parse" ∷ codes "--git-common-dir" ∷ [])
    let common_dir = if is_abs common then common else join_path root common
    head ← git_output root (codes "rev-parse" ∷ codes "HEAD" ∷ [])
    pure (record { root = root; common_dir = clean common_dir; head = head })

  -- `Add`
  unfoldable pub add : Text → Text → Text → M W (Unit {0})
  unfolding git_output
  add repository destination base_commit = do
    _ ←
        git_output repository
          (codes "worktree" ∷ codes "add" ∷ codes "--detach" ∷ destination ∷ base_commit ∷ [])
    pure tt

  unfoldable pub resolve_commit : Text → Text → M W Text
  unfolding git_output
  resolve_commit repository ref =
      let ref' = if is_empty ref then codes "HEAD" else ref in
      git_output repository
        (codes "rev-parse" ∷ codes "--verify" ∷ (ref' ++ codes "^{commit}") ∷ [])

  unfoldable pub remove : Text → Text → M W (Unit {0})
  unfolding git_output
  remove repository worktree = do
    status ← git_output worktree (codes "status" ∷ codes "--porcelain" ∷ [])
    lift (require (is_empty status) dirty)
    _ ← git_output repository (codes "worktree" ∷ codes "remove" ∷ worktree ∷ [])
    pure tt

  unfoldable pub head_of : Text → M W Text
  unfolding git_output
  head_of worktree = git_output worktree (codes "rev-parse" ∷ codes "HEAD" ∷ [])

  unfoldable pub validate_result_commit : Text → Text → Text → M W (Unit {0})
  unfolding git_output check_parents fields
  validate_result_commit worktree base_commit result_commit = do
    line ←
        git_output worktree
          (codes "rev-list" ∷ codes "--parents" ∷ codes "-n" ∷ codes "1" ∷ result_commit ∷ [])
    lift (check_parents base_commit result_commit (fields line))

  unfoldable pub changed_paths : Text → Text → Text → M W (List Text)
  unfolding git_raw non_empty split
  changed_paths worktree base_commit result_commit = do
    output ←
        git_raw worktree
          (codes "diff" ∷ codes "--name-only" ∷ codes "-z" ∷ range base_commit result_commit ∷ [])
    pure (non_empty (split 0 output))

  unfoldable pub diff : Text → Text → Text → M W Text
  unfolding git_raw
  diff worktree base_commit result_commit =
      git_raw worktree (codes "diff" ∷ codes "--binary" ∷ range base_commit result_commit ∷ [])
