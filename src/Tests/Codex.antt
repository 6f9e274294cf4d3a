-- ===== src/Tests/Codex.antt =====
-- The codex adapter and the scan for its result on concrete inputs.
use agent_orchestrator_publi.Base.{
  ◌≡◌, ◌≢◌, ◌↔◌, refl, if◌then◌else◌, none, some, [], Text, codes, text_eq, has_prefix, all,
}
use agent_orchestrator_publi.Base.Errors.{ok}
use agent_orchestrator_publi.FilePath.Space.{trim_space}
use agent_orchestrator_publi.Domain.Task
use agent_orchestrator_publi.Policy.{strict, trusted_local}
use agent_orchestrator_publi.Runtime.{wrapping, releasing}
use agent_orchestrator_publi.Runtime.Process
use agent_orchestrator_publi.Workspace
use agent_orchestrator_publi.Adapters.{AdapterResult, Job}
use agent_orchestrator_publi.Adapters.Results
use agent_orchestrator_publi.Adapters.Results.{
  TerminalPayload, Decoder, take, parse_structured_result,
}
use agent_orchestrator_publi.Adapters.Results.First.{First, parse_structured_result-First}
use agent_orchestrator_publi.Adapters.Codex
use agent_orchestrator_publi.Adapters.Codex.{
  CodexOptions, CodexSession, new_codex, codex_adapter, codex_run,
}
use agent_orchestrator_publi.Adapters.Codex.Outcome.{
  IsOutcome, codex_run-IsOutcome, run_task-refuses_codex,
}
use agent_orchestrator_publi.Orchestrator.Execute.{Engine, run_task}
use agent_orchestrator_publi.Tests.World
use agent_orchestrator_publi.Tests.World.{task, approved_digest, base_commit, new_commit}
use agent_orchestrator_publi.Tests.Files.{FileWorld, put, file_sys}
use agent_orchestrator_publi.Tests.OnDisk.{host, new, empty}

-- A decoder that knows one value.
abbrev known : Decoder
known text =
    if has_prefix text (codes "{k}")
    then some (record { session_id = codes "s"; result_commit = base_commit }, 3)
    else none

abbrev found : AdapterResult
found = record {
  session_id = codes "s";
  result_commit = base_commit;
  structured_value = codes "{k}";
  usage = record { input_tokens = 0; output_tokens = 0; wall_time = 0 };
}

abbrev message : Text
message = codes "a {b} {k} c"

parses : parse_structured_result known message ≡ ok found
unfolding parse_structured_result Results.result_at Results.judge_payload take has_prefix
    Task.matches_commit all Task.is_hex_byte
parses = refl

parse_structured_result-First_example :
    (parse_structured_result known message ≡ ok found) ↔ First known message found
parse_structured_result-First_example = parse_structured_result-First known message found

abbrev options : CodexOptions FileWorld
options = record { path = codes "codex"; prefix_args = []; env = []; resolve_head = none }

abbrev job : Job
job = record {
  task = task;
  task_digest = approved_digest;
  role = codes "writer";
  execution_mode = trusted_local;
  workspace_dir = codes "/w";
  evidence_dir = codes "/e";
  budget = task.budget;
  generation = 1;
}

abbrev session : CodexSession
session = record {
  job = job;
  schema_path = codes "/e/codex-result.schema.json";
  last_message_path = codes "/tmp/m";
  prompt = codes "p";
}

abbrev answered : FileWorld
answered = put (codes "/tmp/m") (some message) empty

abbrev ended : FileWorld
ended = put (codes "/tmp/m") none answered

-- The head of the workspace takes the place of the commit that the agent reports.
abbrev reported : AdapterResult
reported = record found { result_commit = new_commit }

reports : codex_run file_sys World.enc known options session answered ≡ (ok reported, ended)
unfolding codex_run Codex.codex_outcome Codex.codex_report Codex.codex_finish Codex.run_program
    Codex.read_file Codex.resolve_with Process.run Workspace.head_of Workspace.git_output trim_space
    text_eq wrapping releasing parse_structured_result Results.result_at Results.judge_payload take
    has_prefix Task.matches_commit all Task.is_hex_byte
reports = refl

codex_run-IsOutcome_example : IsOutcome file_sys World.enc known options session reported
codex_run-IsOutcome_example =
    codex_run-IsOutcome file_sys World.enc known options session answered reports

abbrev strict_engine : Engine FileWorld CodexSession
strict_engine = record {
  adapter = some (codex_adapter file_sys World.enc known options);
  mode = strict;
  redact = λ s. s;
  new_run_id = none;
}

run_task-refuses_codex_example :
    run_task host strict_engine task approved_digest empty ≢ ((new, none), empty)
run_task-refuses_codex_example =
    run_task-refuses_codex file_sys World.enc known options host strict_engine task approved_digest
      empty refl refl
