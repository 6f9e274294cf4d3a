-- ===== src/Tests/Engine.antt =====
-- Runs of the engine in the small world.
use agent_orchestrator_publi.Base.{◌≡◌, refl, Option, codes}
use agent_orchestrator_publi.Base.Errors.{Error}
use agent_orchestrator_publi.FilePath.Clean
use agent_orchestrator_publi.Domain.Task
use agent_orchestrator_publi.Domain.Run.{recovery_required}
use agent_orchestrator_publi.Runtime.Process
use agent_orchestrator_publi.Workspace
use agent_orchestrator_publi.Orchestrator.{Run, recovery_required as recover}
use agent_orchestrator_publi.Orchestrator.Exits.{going}
use agent_orchestrator_publi.Orchestrator.Execute
use agent_orchestrator_publi.Orchestrator.Execute.{run_task, locked_run, new_run}
use agent_orchestrator_publi.Orchestrator.Execute.Recorded.{locked_run-Consistent}
use agent_orchestrator_publi.Orchestrator.Journal.{Consistent, Recorded}
use agent_orchestrator_publi.Tests.World.{
  World, start, host, engine_of, agent, lost_agent, task, approved_digest, store, journal,
  agent-Confined,
}

abbrev first_run : (Run × Option Error) × World
first_run = run_task host (engine_of agent) task approved_digest start

abbrev lost_run : (Run × Option Error) × World
lost_run = run_task host (engine_of lost_agent) task approved_digest start

abbrev fresh_run : Run
fresh_run =
    new_run host (engine_of lost_agent) task approved_digest (codes "r1") (codes "/r")
      (codes "/s/r1/evidence")

locked_run-Consistent_example :
    let (r, w') =
      locked_run host
        (engine_of lost_agent)
        task
        approved_digest
        store
        lost_agent
        fresh_run
        start in
    Consistent journal w' × ((run' : Run) → r ≡ going run' → Recorded journal run' w')
locked_run-Consistent_example =
    locked_run-Consistent host (engine_of lost_agent) task approved_digest store (codes "r1")
      journal lost_agent (codes "/s/r1/evidence")
      (agent-Confined lost_agent (λ job w. refl) (λ session w. refl)) fresh_run start refl refl refl
      refl refl
