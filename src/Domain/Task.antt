-- ===== src/Domain/Task.antt =====
-- internal/domain/task.go: the task contract, its validation and its digest.
pub mod Hex
pub mod Valid
pub mod Inside
use agent_orchestrator_publi.Base.{
  ℕ, suc, ◌+◌, ◌-◌, ◌/◌, ◌%◌, Bool, true, false, not, ◌&&◌, ◌||◌, ◌==◌, leb, ℤ, is_positive,
  exceeds, equals, if◌then◌else◌, List, [], ◌∷◌, ◌++◌, Text, codes, all, length, is_empty, text_eq,
  has_prefix,
}
use agent_orchestrator_publi.Base.Errors.{
  Field, deliverables, allowed_paths, argv_of, Error, Result, ok, err, ◌>>=◌, ◌>>◌, refuse_if,
  require, bad_task_id, root_not_clean, bad_base_ref, objective_required, rationale_required,
  list_empty, item_empty, path_escapes, acceptance_required, timeout_not_positive,
  timeout_exceeds_day, unsupported_delegation, unknown_delegation, not_one_attempt,
  max_seconds_not_positive, max_seconds_exceeds_day,
}
use agent_orchestrator_publi.FilePath.Space.{is_blank}
use agent_orchestrator_publi.FilePath.Clean.{is_abs, clean, dot_dot, slash}

-- A `DelegationLevel` is a string: one of four constants, or any other text.
pub data DelegationLevel : Type 0 where
  suggest prepare execute_reversible approval_required : DelegationLevel
  other_level : Text → DelegationLevel

abbrev pub level_text : DelegationLevel → Text
level_text suggest = codes "suggest"
level_text prepare = codes "prepare"
level_text execute_reversible = codes "execute_reversible"
level_text approval_required = codes "approval_required"
level_text (other_level s) = s

abbrev pub max_execution_seconds : ℕ
max_execution_seconds = 86400

pub record CommandSpec : Type 0 where
  pub argv : List Text
  pub timeout_seconds : ℤ

pub record Budget : Type 0 where
  pub max_attempts : ℤ
  pub max_seconds : ℤ

pub record RepositorySpec : Type 0 where
  pub root : Text
  pub base_ref : Text

pub record Task : Type 0 where
  pub id : Text
  pub repository : RepositorySpec
  pub objective : Text
  pub rationale : Text
  pub deliverables : List Text
  pub non_goals : List Text
  pub allowed_paths : List Text
  pub constraints : List Text
  pub acceptance : List CommandSpec
  pub delegation : DelegationLevel
  pub budget : Budget

-- `[a-zA-Z0-9._-]` and `[0-9a-f]`
unfoldable pub is_id_byte : ℕ → Bool
is_id_byte c =
    (leb b'a' c && leb c b'z')
    || (leb b'A' c && leb c b'Z')
    || (leb b'0' c && leb c b'9')
    || c == b'.'
    || c == b'_'
    || c == b'-'

unfoldable pub is_hex_byte : ℕ → Bool
is_hex_byte c = (leb b'0' c && leb c b'9') || (leb b'a' c && leb c b'f')

-- `taskIDPattern` and `commitPattern`
unfoldable pub matches_task_id : Text → Bool
unfolding all is_id_byte
matches_task_id s = not (is_empty s) && all is_id_byte s

unfoldable pub matches_commit : Text → Bool
unfolding all is_hex_byte
matches_commit s = length s == 40 && all is_hex_byte s

-- The loop of `validateRequiredStrings`, from item `i` on.
unfoldable pub check_items : Field → ℕ → List Text → Result (Unit {0})
check_items field i [] = ok tt
check_items field i (value ∷ values) =
    let rest = check_items field (suc i) values in
    if is_blank value then err (item_empty field i) else rest

unfoldable pub validate_required_strings : Field → List Text → Result (Unit {0})
unfolding check_items
validate_required_strings field [] = err (list_empty field)
validate_required_strings field (value ∷ values) = check_items field 0 (value ∷ values)

unfoldable pub escapes : Text → Bool
unfolding text_eq has_prefix
escapes path =
    is_abs path || text_eq (clean path) dot_dot || has_prefix (clean path) (dot_dot ++ (slash ∷ []))

unfoldable pub check_paths : List Text → Result (Unit {0})
unfolding escapes
check_paths [] = ok tt
check_paths (path ∷ paths) =
    let rest = check_paths paths in if escapes path then err (path_escapes path) else rest

unfoldable pub validate_allowed_paths : List Text → Result (Unit {0})
unfolding validate_required_strings check_paths
validate_allowed_paths paths = do validate_required_strings allowed_paths paths; check_paths paths

-- The body of the loop over the acceptance commands.
unfoldable pub check_command : ℕ → CommandSpec → Result (Unit {0})
unfolding validate_required_strings
check_command i command = do
  validate_required_strings (argv_of i) command.argv
  require (is_positive command.timeout_seconds) (timeout_not_positive i)
  refuse_if (exceeds command.timeout_seconds max_execution_seconds) (timeout_exceeds_day i)

unfoldable pub check_acceptance : ℕ → List CommandSpec → Result (Unit {0})
unfolding check_command
check_acceptance i [] = ok tt
check_acceptance i (command ∷ commands) = do
  check_command i command
  check_acceptance (suc i) commands

unfoldable pub validate_delegation : DelegationLevel → Result (Unit {0})
validate_delegation execute_reversible = ok tt
validate_delegation (other_level s) = err (unknown_delegation s)
validate_delegation suggest = err (unsupported_delegation (level_text suggest))
validate_delegation prepare = err (unsupported_delegation (level_text prepare))
validate_delegation approval_required = err (unsupported_delegation (level_text approval_required))

abbrev is_empty_list : List CommandSpec → Bool
is_empty_list [] = true
is_empty_list (_ ∷ _) = false

unfoldable pub validate_budget : Budget → Result (Unit {0})
validate_budget budget = do
  require (equals budget.max_attempts 1) not_one_attempt
  require (is_positive budget.max_seconds) max_seconds_not_positive
  refuse_if (exceeds budget.max_seconds max_execution_seconds) max_seconds_exceeds_day

unfoldable pub is_abs_clean : Text → Bool
unfolding text_eq
is_abs_clean path = is_abs path && text_eq (clean path) path

unfoldable pub validate_task : Task → Result (Unit {0})
validate_task task = do
  require (matches_task_id task.id) bad_task_id
  require (is_abs_clean task.repository.root) root_not_clean
  require (matches_commit task.repository.base_ref) bad_base_ref
  refuse_if (is_blank task.objective) objective_required
  refuse_if (is_blank task.rationale) rationale_required
  validate_required_strings deliverables task.deliverables
  validate_allowed_paths task.allowed_paths
  refuse_if (is_empty_list task.acceptance) acceptance_required
  check_acceptance 0 task.acceptance
  validate_delegation task.delegation
  validate_budget task.budget

-- `hex.EncodeToString` of the bytes of a checksum.
hex_digit : ℕ → ℕ
hex_digit n = if leb 10 n then b'a' + (n - 10) else b'0' + n

unfoldable pub hex : Text → Text
unfolding hex_digit
hex [] = []
hex (b ∷ s) = hex_digit (b / 16) ∷ hex_digit (b % 16) ∷ hex s

-- `DigestTask`, over `json.Marshal` of a task and the SHA-256 checksum.
module _ (marshal_task : Task → Result Text) (sha256 : Text → Text) where
  unfoldable pub digest_task : Task → Result Text
  unfolding hex
  digest_task task = do validate_task task; bytes ← marshal_task task; ok (hex (sha256 bytes))
