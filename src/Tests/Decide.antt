-- ===== src/Tests/Decide.antt =====
-- Decisions on a run in the small world that awaits approval.
use agent_orchestrator_publi.Base.{
  ◌≡◌, refl, sym, ◌∙◌, arith, any, subst, some, List, [], ◌∷◌, codes, text_eq,
}
use mathlib.Core.Option.{some-injective}
use agent_orchestrator_publi.Base.Errors.{ok}
use agent_orchestrator_publi.FilePath.Space.{is_blank, trim_space}
use agent_orchestrator_publi.Domain.Run.{
  RunState, awaiting_approval, completed, canceled, approve, cancel, Approval, transition,
  validate_approval, preparation_started, implementation_started, implementation_finished,
  verification_finished,
}
use agent_orchestrator_publi.Domain.Run.Graph.{replay}
use agent_orchestrator_publi.Policy.{trusted_local}
use agent_orchestrator_publi.Store.{Event}
use agent_orchestrator_publi.Orchestrator.{Run, empty_run, event_of, transition_run}
use agent_orchestrator_publi.Orchestrator.Journal.{lifecycle, Ends, Recorded, Consistent}
use agent_orchestrator_publi.Orchestrator.Decide.{decide, store_of, decide_recorded}
use agent_orchestrator_publi.Orchestrator.Decide.Binding.{verdict}
use agent_orchestrator_publi.Orchestrator.Decide.Whole.{IsDecided, decide-IsDecided}
use agent_orchestrator_publi.Orchestrator.Decide.Recorded.{Opens, Reading, decide-Consistent}
use agent_orchestrator_publi.Workspace
use agent_orchestrator_publi.Workspace.{Repository}
use agent_orchestrator_publi.FilePath.Clean
use agent_orchestrator_publi.Runtime.Process
use agent_orchestrator_publi.Orchestrator.Decide.Stale.{decide_recorded-stale}
use agent_orchestrator_publi.Tests.World.{new_commit, host, World, store, journal}

abbrev waiting : Run
waiting = record empty_run {
  id = codes "r1";
  state = awaiting_approval;
  task_digest = codes "ab";
  decision_packet_digest = codes "cd";
  execution_mode = trusted_local;
  generation = 1;
}

abbrev history : List Event
history =
    event_of preparation_started 1
    ∷ event_of implementation_started 1
    ∷ event_of implementation_finished 1
    ∷ event_of verification_finished 1
    ∷ []

abbrev desk : World
desk = record { log = history; state = some waiting }

abbrev approval : Approval
approval = record {
  actor = codes "ann";
  decision = approve;
  task_digest = codes "ab";
  decision_packet_digest = codes "cd";
  at = some 9;
}

abbrev cancellation : Approval
cancellation = record approval { decision = cancel }

abbrev approved_run : Run
approved_run = record waiting { state = completed }

abbrev canceled_run : Run
canceled_run = record waiting { state = canceled }

abbrev after_one : World
after_one = (decide_recorded store (codes "r1") waiting approval desk).1

abbrev after_two : World
after_two = (decide_recorded store (codes "r1") waiting cancellation after_one).1

first_decision :
    decide_recorded store (codes "r1") waiting approval desk ≡ (ok approved_run, after_one)
unfolding decide_recorded transition_run transition validate_approval text_eq is_blank
first_decision = refl

second_decision :
    decide_recorded store (codes "r1") waiting cancellation after_one ≡ (ok canceled_run, after_two)
unfolding decide_recorded transition_run transition validate_approval text_eq is_blank
second_decision = refl

history-Ends : Ends history awaiting_approval
unfolding lifecycle replay transition text_eq
history-Ends = refl

desk-Recorded : Recorded journal waiting desk
desk-Recorded = record {
  is_run = refl;
  logged = λ log l. subst (λ es. Ends es awaiting_approval) (some-injective _ _ l) history-Ends;
  saved = (waiting, refl, refl, refl);
}

abbrev decided : World
decided = (decide host (codes "/r") (codes "r1") approval desk).1

decision : decide host (codes "/r") (codes "r1") approval desk ≡ (ok approved_run, decided)
unfolding decide store_of Process.run Workspace.resolve decide_recorded transition_run transition
    validate_approval text_eq is_blank
decision = refl

decide-IsDecided_example : IsDecided host (codes "/r") (codes "r1") approval desk approved_run
decide-IsDecided_example = decide-IsDecided host (codes "/r") (codes "r1") approval desk decision

abbrev repository : Repository
repository = record { root = codes "/r"; common_dir = codes "/r/.git"; head = new_commit }

resolved : Workspace.resolve host.sys (codes "/r") desk ≡ (ok repository, desk)
unfolding Workspace.resolve Workspace.git_output Process.run text_eq Clean.clean trim_space
    Clean.element Clean.join_path
resolved = refl

opens : Opens host (codes "/r/.git/agent-orchestrator") (codes "r1") journal (codes "/r") desk
unfolding Clean.join_path Clean.clean Clean.is_abs Clean.element any text_eq
opens r w₁ e =
    let same : repository ≡ r = cc (sym resolved ∙ e) in
    subst
      (λ q.
        Clean.join_path q.common_dir (codes "agent-orchestrator")
        ≡ codes "/r/.git/agent-orchestrator")
      same refl

reads : (r : Run) (w w' : World) → store.read_state (codes "r1") w ≡ (ok r, w') → w.state ≡ some r
reads r w w' h = ground arith

reading : Reading host (codes "/r/.git/agent-orchestrator") (codes "r1") journal
reading = record {
  execute = λ spec env w. (refl, refl);
  read = λ w. (refl, refl);
  reads = reads;
  lockable = record {
    now = λ w. (refl, refl);
    acquire = λ owner w. (refl, refl);
    release = λ owner w w' lock e v. (refl, refl);
  };
}

decide-Consistent_example :
    let (r, w') = decide host (codes "/r") (codes "r1") approval desk in
    Consistent journal w' × ((run' : Run) → r ≡ ok run' → Recorded journal run' w')
decide-Consistent_example =
    decide-Consistent host (codes "/r/.git/agent-orchestrator") (codes "r1") journal reading
      approval (codes "/r") waiting desk opens desk-Recorded

decide_recorded-stale_example :
    (journal.state after_two ≡ some canceled_run)
    × (canceled_run.state ≡ verdict cancellation.decision awaiting_approval)
    × ((log' : List Event) (s : RunState) → journal.log after_two ≡ some log' → ¬ Ends log' s)
decide_recorded-stale_example =
    decide_recorded-stale journal (codes "r1") waiting approval cancellation desk history
      desk-Recorded refl refl first_decision second_decision
