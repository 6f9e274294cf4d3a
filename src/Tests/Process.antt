-- ===== src/Tests/Process.antt =====
-- A program that is started in the small world.
use agent_orchestrator_publi.Base.{
  ◌≡◌, ◌≢◌, ◌↔◌, pos, true, none, some, List, [], ◌∷◌, ◌++◌, map, Text, codes, lookup, member,
}
use agent_orchestrator_publi.Base.Errors.{deadline_exceeded}
use agent_orchestrator_publi.Runtime.{Spec, Launch}
use agent_orchestrator_publi.Runtime.Process.{ProcessResult, binding, environment, run}
use agent_orchestrator_publi.Runtime.Process.Reports.{Exits, IsEnded, run-IsEnded}
use agent_orchestrator_publi.Runtime.Process.Sorted.{IsSorted, environment-IsSorted}
use agent_orchestrator_publi.Tests.World.{World, start, sys}

abbrev values : List (Text × Text)
values = (codes "PATH", codes "/bin") ∷ (codes "HOME", codes "/h") ∷ []

abbrev spec : Spec
spec = record {
  path = codes "git";
  args = codes "rev-parse" ∷ codes "HEAD" ∷ [];
  dir = codes "/r";
  env = values;
  timeout = pos 30;
}

exits : Exits (sys.execute spec (environment spec.env) start).0
exits e c q none_left = cc q

run-IsEnded_example :
    ((r : ProcessResult) (w : World)
      → (run sys spec start ≡ ((r, none), w)) ↔ (
          (spec.path ≢ [])
          × (l : Launch) × (sys.execute spec (environment spec.env) start ≡ (l, w))
          × IsEnded l r))
    × ((run sys spec start).0.0.timed_out ≡ true
        → (run sys spec start).0.1 ≡ some deadline_exceeded)
run-IsEnded_example = run-IsEnded sys spec start exits

environment-IsSorted_example :
    (keys : List Text) × (environment values ≡ map (binding values) keys)
    × IsSorted keys
    × ((key : Text)
        → (member key keys ≡ true) ↔ ((value : Text) × (lookup key values ≡ some value)))
    × ((key value : Text)
        → lookup key values ≡ some value
        → binding values key ≡ key ++ (b'=' ∷ value))
environment-IsSorted_example = environment-IsSorted values
