-- ===== src/Orchestrator/Decide/Whole.antt =====
-- `Engine.Decide` as a whole: the store it opens, the run it reads and the lock it takes.
use agent_orchestrator_publi.Base.{◌≡◌, refl, ℕ, Text, codes}
use agent_orchestrator_publi.Base.Errors.{ok}
use agent_orchestrator_publi.Domain.Run.{awaiting_approval, Approval}
use agent_orchestrator_publi.Domain.Run.Approvals.{IsBinding}
use agent_orchestrator_publi.Runtime.{releasing, releasing-ok, ◌>>=◌, >>=-ok}
use agent_orchestrator_publi.Store.{LockOwner, RunStore}
use agent_orchestrator_publi.Orchestrator.{Run}
use agent_orchestrator_publi.Orchestrator.Execute.{Host}
use agent_orchestrator_publi.Orchestrator.Decide.{decide_recorded, store_of, decide_read, decide}
use agent_orchestrator_publi.Orchestrator.Decide.Binding.{verdict, decide_recorded-IsBinding}

abbrev pub owner_of : {W : Type 0} → Host W → Run → ℕ → LockOwner
owner_of h run now = record {
  pid = h.sys.pid;
  command = codes "decide";
  generation = run.generation;
  acquired_at = now;
}

-- A decision that was taken: on a run that the repository's store has under this ID and that awaits
-- approval, with the lock of that run, by an approval that binds the run's digests.
pub record IsDecided {W : Type 0} (h : Host W) (root run_id : Text) (a : Approval) (w : W)
    (run' : Run) : Type 0 where
  pub store : RunStore W Run
  pub opened : W
  pub found : store_of h root w ≡ (ok store, opened)
  pub run : Run
  pub seen : W
  pub read : store.read_state run_id opened ≡ (ok run, seen)
  pub owner : LockOwner
  pub lock : Text
  pub locked : (w₁ w₂ : W) × (store.acquire_lock (store.run_dir run_id) owner w₁ ≡ (ok lock, w₂))
  pub generation : owner.generation ≡ run.generation
  pub awaited : run.state ≡ awaiting_approval
  pub binding : IsBinding a run.task_digest run.decision_packet_digest
  pub outcome : run' ≡ record run { state = verdict a.decision run.state }

-- If `Decide` returns a run and no error, then it has read that run from the repository's store,
-- has held the lock of the run with the generation that it read, and the run was awaiting
-- approval; the approval binds the two digests of the run, and the run that is returned is the one
-- that was read, in the state that the decision stands for.
pub decide-IsDecided :
    {W : Type 0} (h : Host W) (root run_id : Text) (a : Approval) (w : W) {run' : Run} {w' : W}
    → decide h root run_id a w ≡ (ok run', w')
    → IsDecided h root run_id a w run'
unfolding decide decide_read
decide-IsDecided {W} h root run_id a w {run'} c =
    let reading = λ (store : RunStore W Run).
      store.read_state run_id >>= λ run. decide_read h store run_id a run in
    let (store, w₁, found, c₁) = >>=-ok (store_of h root) reading w c in
    let (run, w₂, read, c₂) =
      >>=-ok (store.read_state run_id) (λ run. decide_read h store run_id a run) w₁ c₁ in
    let owner = λ (now : ℕ). owner_of h run now in
    let holding =
      λ (lock : Text). releasing (store.release_lock lock) (decide_recorded store run_id run a) in
    let (now, w₃, _, c₃) =
      >>=-ok h.sys.now (λ now. store.acquire_lock (store.run_dir run_id) (owner now) >>= holding) w₂
        c₂ in
    let (lock, w₄, locked, c₄) =
      >>=-ok (store.acquire_lock (store.run_dir run_id) (owner now)) holding w₃ c₃ in
    let (awaited, binding, outcome) =
      decide_recorded-IsBinding store run_id run a w₄
        (releasing-ok (store.release_lock lock) (decide_recorded store run_id run a) w₄ c₄) in
    record {
      store = store;
      opened = w₁;
      found = found;
      run = run;
      seen = w₂;
      read = read;
      owner = owner now;
      lock = lock;
      locked = (w₃, w₄, locked);
      generation = refl;
      awaited = awaited;
      binding = binding;
      outcome = outcome;
    }
