-- ===== src/Runtime/Process.antt =====
-- `process.Run` and `environment` of internal/runtime/process/runner.go.
pub mod Reports
pub mod Sorted
use agent_orchestrator_publi.Base.{
  ℕ, ℤ, pos, negsuc, Bool, true, false, ◌&&◌, ◌||◌, ◌==◌, ltb, if◌then◌else◌, Option, none, some,
  List, [], ◌∷◌, ◌++◌, map, Text, lookup, is_empty,
}
use agent_orchestrator_publi.Base.Errors.{
  Error, process_path_required, start_failed, kill_failed, deadline_exceeded, context_canceled,
  wait_failed,
}
use agent_orchestrator_publi.Runtime.{
  Spec, Ended, ContextEnd, deadline, canceled, Launch, not_started, waited, not_killed, killed,
  System,
}

-- A result that `Run` returns beside its error; `time.Time{}` is `none`.
pub record ProcessResult : Type 0 where
  pub stdout : Text
  pub stderr : Text
  pub exit_code : ℤ
  pub started_at : Option ℕ
  pub finished_at : Option ℕ
  pub timed_out : Bool

abbrev pub no_result : ProcessResult
no_result = record {
  stdout = [];
  stderr = [];
  exit_code = negsuc 0;
  started_at = none;
  finished_at = none;
  timed_out = false;
}

-- The byte order of `sort.Strings`.
unfoldable pub text_le : Text → Text → Bool
text_le [] t = true
text_le (a ∷ s) [] = false
text_le (a ∷ s) (b ∷ t) = ltb a b || (a == b && text_le s t)

unfoldable pub insert_sorted : Text → List Text → List Text
unfolding text_le
insert_sorted k [] = k ∷ []
insert_sorted k (j ∷ js) = if text_le k j then k ∷ j ∷ js else j ∷ insert_sorted k js

unfoldable pub sort_texts : List Text → List Text
unfolding insert_sorted
sort_texts [] = []
sort_texts (k ∷ ks) = insert_sorted k (sort_texts ks)

abbrev pub key_of : Text × Text → Text
key_of kv = kv.0

abbrev pub binding : List (Text × Text) → Text → Text
binding values key = key ++ (b'=' ∷ elim (lookup key values) [ some value ↦ value | none ↦ [] ])

-- `environment(values)`: sorted `KEY=value` texts.
unfoldable pub environment : List (Text × Text) → List Text
unfolding sort_texts lookup
environment values = map (binding values) (sort_texts (map key_of values))

unfoldable pub context_error : ContextEnd → Error
context_error deadline = deadline_exceeded
context_error canceled = context_canceled

-- `errors.Is(err, context.DeadlineExceeded)`
unfoldable pub is_deadline : ContextEnd → Bool
is_deadline deadline = true
is_deadline canceled = false

abbrev pub result_of : Ended → Bool → ProcessResult
result_of e timed_out = record {
  stdout = e.stdout;
  stderr = e.stderr;
  exit_code = e.exit_code;
  started_at = some e.started_at;
  finished_at = some e.finished_at;
  timed_out = timed_out;
}

-- The end of `Run`: which error is reported.
unfoldable pub settle : Option ContextEnd → Option Text → Option Error
unfolding context_error
settle (some c) e = some (context_error c)
settle none (some m) = some (wait_failed m)
settle none none = none

unfoldable pub after_launch : Launch → ProcessResult × Option Error
unfolding settle is_deadline
after_launch (not_started from to m) =
    (record no_result { started_at = some from; finished_at = some to }, some (start_failed m))
after_launch (not_killed from m) =
    (record no_result { started_at = some from }, some (kill_failed m))
after_launch (waited e c) = (result_of e false, settle c e.wait_error)
after_launch (killed c e) = (result_of e (is_deadline c), settle (some c) e.wait_error)

module _ {W : Type 0} (sys : System W) where
  unfoldable pub run : Spec → W → (ProcessResult × Option Error) × W
  unfolding after_launch environment
  run spec w =
      if is_empty spec.path
      then ((record no_result { exit_code = pos 0 }, some process_path_required), w)
      else let (launch, w') = sys.execute spec (environment spec.env) w in (after_launch launch, w')
