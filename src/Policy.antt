-- ===== src/Policy.antt =====
-- internal/policy/policy.go: what a run may do.
pub mod Commands
pub mod Env
use agent_orchestrator_publi.Base.{
  Bool, true, false, not, ◌||◌, if◌then◌else◌, Option, none, some, List, [], ◌∷◌, Text, codes,
  is_empty, text_eq, has_prefix, member, lookup, insert, any,
}
use agent_orchestrator_publi.Base.Errors.{
  Result, ok, err, ◌>>=◌, ◌>>◌, refuse_if, require, action_denied, argv_required, wrapper_denied,
  inline_code_denied, role_denied, native_sandbox_required, workspace_write_required, unknown_mode,
  not_approved_digest,
}
use agent_orchestrator_publi.FilePath.Clean.{base}
use agent_orchestrator_publi.Domain.Task.{Task, digest_task}

-- An `ExecutionMode` is a string: one of two constants, or any other text.
pub data ExecutionMode : Type 0 where
  trusted_local strict : ExecutionMode
  other_mode : Text → ExecutionMode

abbrev pub mode_text : ExecutionMode → Text
mode_text trusted_local = codes "trusted-local"
mode_text strict = codes "strict"
mode_text (other_mode s) = s

pub record Capabilities : Type 0 where
  pub workspace_write : Bool
  pub native_sandbox : Bool

pub record Policy : Type 0 where
  pub allowed_env : List Text
  pub allow_write_role : Text
  pub denied_actions : List Text

-- The body of the loop of `FilterEnv`, over the map that it has filled so far.
unfoldable pub admit : Policy → Text → List (Text × Text) → List (Text × Text) → List (Text × Text)
admit p key source result =
    if member key p.allowed_env
    then elim (lookup key source) [ some value ↦ insert key value result | none ↦ result ]
    else result

unfoldable pub filter_env_onto :
    Policy → List Text → List (Text × Text) → List (Text × Text) → List (Text × Text)
unfolding admit
filter_env_onto p [] source result = result
filter_env_onto p (key ∷ requested) source result =
    filter_env_onto p requested source (admit p key source result)

unfoldable pub filter_env : Policy → List Text → List (Text × Text) → List (Text × Text)
unfolding filter_env_onto
filter_env p requested source = filter_env_onto p requested source []

unfoldable pub validate_action : Policy → Text → Result (Unit {0})
validate_action p action = refuse_if (member action p.denied_actions) (action_denied action)

abbrev pub wrappers : List Text
wrappers = codes "env" ∷ codes "sh" ∷ codes "bash" ∷ codes "dash" ∷ codes "fish" ∷ codes "zsh" ∷ []

abbrev pub interpreters : List Text
interpreters = codes "node" ∷ codes "perl" ∷ codes "python" ∷ codes "python3" ∷ codes "ruby" ∷ []

abbrev pub inline_flags : List Text
inline_flags = codes "-c" ∷ codes "-e" ∷ codes "--eval" ∷ []

-- The two tests on an interpreter's argument.
unfoldable pub is_inline : Text → Bool
unfolding member has_prefix
is_inline argument = member argument inline_flags || has_prefix argument (codes "--eval=")

unfoldable pub check_inline : Text → List Text → Result (Unit {0})
check_inline command arguments = refuse_if (any is_inline arguments) (inline_code_denied command)

unfoldable pub check_actions : Policy → List Text → Result (Unit {0})
unfolding validate_action
check_actions p [] = ok tt
check_actions p (argument ∷ arguments) = do validate_action p argument; check_actions p arguments

unfoldable pub validate_command : Policy → List Text → Result (Unit {0})
unfolding check_inline
validate_command p [] = err argv_required
validate_command p (program ∷ arguments) = do
  let command = base program
  refuse_if (member command wrappers) (wrapper_denied command)
  if member command interpreters then check_inline command arguments else ok tt
  validate_action p command
  if text_eq command (codes "git") then check_actions p arguments else ok tt

unfoldable pub validate_write_role : Policy → Text → Result (Unit {0})
validate_write_role p role =
    refuse_if (is_empty role || not (text_eq role p.allow_write_role)) (role_denied role)

unfoldable pub validate_mode : ExecutionMode → Capabilities → Result (Unit {0})
validate_mode trusted_local capabilities = ok tt
validate_mode strict capabilities = require capabilities.native_sandbox native_sandbox_required
validate_mode (other_mode s) capabilities = err (unknown_mode s)

unfoldable pub validate_execution : ExecutionMode → Capabilities → Result (Unit {0})
unfolding validate_mode
validate_execution mode capabilities = do
  require capabilities.workspace_write workspace_write_required
  validate_mode mode capabilities

module _ (marshal_task : Task → Result Text) (sha256 : Text → Text) where
  unfoldable pub validate_approved_task : Task → Text → Result (Unit {0})
  validate_approved_task task approved_digest = do
    actual ← digest_task marshal_task sha256 task
    refuse_if (is_empty approved_digest || not (text_eq actual approved_digest)) not_approved_digest
