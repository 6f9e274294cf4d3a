-- ===== src/Store.antt =====
-- internal/store: what the orchestrator asks of the files of its runs.
pub mod Log
pub mod Files
pub mod Disk
pub mod Lock
pub mod Effects
use mathlib.Core.Option
use agent_orchestrator_publi.Base.{ℕ, ◌≡◌, ◌⊎◌, Option, none, List, [], ◌∷◌, ◌++◌, Text, codes}
use agent_orchestrator_publi.Base.Errors.{Result}
use agent_orchestrator_publi.Runtime.{M}

pub record Event : Type 0 where
  pub type : Text
  pub effect_id : Text
  pub payload : Text
  pub generation : ℕ

abbrev pub effect_intent : Text
effect_intent = codes "effect_intent"

abbrev pub effect_settlement : Text
effect_settlement = codes "effect_settlement"

pub record LockOwner : Type 0 where
  pub pid : ℕ
  pub command : Text
  pub generation : ℕ
  pub acquired_at : ℕ

-- A lock that has been released has the empty path.
pub record RunLock : Type 0 where
  pub path : Text

-- A store of runs whose state is an `S`. A lock is held under the path that `acquire_lock` returns.
pub record RunStore (W S : Type 0) : Type 0 where
  pub run_dir : Text → Text
  pub append_event : Text → Event → M W (Unit {0})
  pub write_state : Text → S → M W (Unit {0})
  pub read_state : Text → M W S
  pub acquire_lock : Text → LockOwner → M W Text
  pub release_lock : Text → M W (Unit {0})

-- `json.Marshal` and `json.Unmarshal` at the types that the store encodes. An `S` is the state.
pub record Codec (S : Type 0) : Type 0 where
  pub marshal_state : S → Result Text
  pub unmarshal_state : Text → Result S
  pub marshal_event : Event → Result Text
  pub unmarshal_event : Text → Result Event
  pub marshal_owner : LockOwner → Result Text

-- What becomes of a log when an event is appended: it is one event longer, or it cannot be read.
abbrev pub Longer : Event → Option (List Event) → Option (List Event) → Type 0
Longer e old new = (new ≡ Option.map (λ es. es ++ (e ∷ [])) old) ⊎ (new ≡ none)
