-- ===== src/Base/Errors.antt =====
-- The errors that the packages return, one constructor for each place that makes one, and the
-- result of a Go function that returns a value and an error.
use Prim.Native.Nat.{ℕ}
use mathlib.Core.Path.{◌≡◌, refl}
use mathlib.Core.Logic.{◌⊎◌, inl, inr}
use mathlib.Core.Bool.{Bool, true, false}
use mathlib.Core.List.{List}
use agent_orchestrator_publi.Base.Bytes.{Text}

-- The list that `validateRequiredStrings` is called on.
pub data Field : Type 0 where
  deliverables allowed_paths : Field
  argv_of : ℕ → Field

pub data Error : Type 0 where
  -- domain/task.go
  bad_task_id root_not_clean bad_base_ref objective_required rationale_required : Error
  list_empty : Field → Error
  item_empty : Field → ℕ → Error
  path_escapes : Text → Error
  acceptance_required : Error
  timeout_not_positive : ℕ → Error
  timeout_exceeds_day : ℕ → Error
  unsupported_delegation : Text → Error
  unknown_delegation : Text → Error
  not_one_attempt max_seconds_not_positive max_seconds_exceeds_day : Error
  -- domain/run.go
  state_terminal : Text → Error
  invalid_transition : Text → Text → Error
  actor_required time_required : Error
  unknown_decision : Text → Error
  task_digest_mismatch packet_digest_mismatch : Error
  -- policy/policy.go
  action_denied : Text → Error
  argv_required : Error
  wrapper_denied : Text → Error
  inline_code_denied : Text → Error
  role_denied : Text → Error
  native_sandbox_required workspace_write_required : Error
  unknown_mode : Text → Error
  not_approved_digest : Error
  -- runtime/process/runner.go
  process_path_required : Error
  start_failed kill_failed wait_failed : Text → Error
  deadline_exceeded context_canceled : Error
  -- workspace/git.go
  git_failed : List Text → Error → Text → Error
  dirty bad_result_commit : Error
  path_not_allowed : Text → Error
  -- adapters/result.go
  no_terminal_object repaired_invalid : Error
  repair_failed : Error → Error
  -- adapters/codex/adapter.go
  directories_required : Error
  probe_failed codex_failed : Error → Text → Error
  -- store/file.go and store/lock.go
  locked : Error
  stale_generation : ℕ → ℕ → Error
  decode_state decode_event : Error
  -- orchestrator/engine.go
  adapter_required : Error
  root_not_canonical : Text → Text → Error
  commit_mismatch : Text → Text → Error
  no_new_commit : Error
  not_awaiting_approval : Text → Error
  unsupported_decision : Text → Error
  evidence_exists : Text → Error
  -- cmd/orch/main.go
  unknown_command unsupported_strategy unsupported_writer unsupported_mode : Text → Error
  run_id_required decision_required task_required one_object_required : Error
  -- verification/verifier.go
  verification_argv_empty : Error
  verification_failed : Text → Error → Error
  verify_commit : Text → List Text → Error → Error
  -- `fmt.Errorf` with a text before the cause
  wrapped : Text → Error → Error
  -- `errors.Join`
  joined : Error → Error → Error
  -- what the operating system, a program that was started or a decoder reports
  external : Text → Error

-- The two results of a Go function that can fail, of which one is set.
pub data Result {ℓ} (A : Type ℓ) : Type ℓ where
  ok : A → Result A
  err : Error → Result A

pub Result-cases {ℓ} :
    {A : Type ℓ} (r : Result A) → ((a : A) × (r ≡ ok a)) ⊎ ((e : Error) × (r ≡ err e))
Result-cases (ok a) = inl (a, refl)
Result-cases (err e) = inr (e, refl)

-- `if bad { return e }`
abbrev pub refuse_if : Bool → Error → Result (Unit {0})
refuse_if true e = err e
refuse_if false e = ok tt

abbrev pub require : Bool → Error → Result (Unit {0})
require true e = ok tt
require false e = err e

-- `if err != nil { return err }` after a call, and what follows it.
infixl 5 ◌>>=◌ ◌>>◌
abbrev pub ◌>>=◌ {ℓ κ} : {A : Type ℓ} {B : Type κ} → Result A → (A → Result B) → Result B
err cause >>= next = err cause
ok value >>= next = next value

abbrev pub ◌>>◌ {ℓ} : {B : Type ℓ} → Result (Unit {0}) → Result B → Result B
check >> next = check >>= λ _. next

-- Inversion: if a call and what follows it succeed, so does the call.
pub >>=-eq-ok {ℓ κ} :
    {A : Type ℓ} {B : Type κ} (call : Result A) (next : A → Result B) {out : B}
    → (call >>= next) ≡ ok out
    → (value : A) × (call ≡ ok value) × (next value ≡ ok out)
>>=-eq-ok (err cause) next h = cc
>>=-eq-ok (ok value) next h = (value, refl, h)
