-- ===== src/Adapters/Results.antt =====
-- internal/adapters/result.go: the JSON object that an agent ends its answer with.
pub mod First
use agent_orchestrator_publi.Base.{
  ℕ, zero, suc, Bool, true, false, not, ◌||◌, ◌==◌, if◌then◌else◌, Option, none, some, List, [],
  ◌∷◌, Text, is_empty,
}
use agent_orchestrator_publi.Base.Errors.{
  Error, Result, ok, err, no_terminal_object, repaired_invalid, repair_failed,
}
use agent_orchestrator_publi.Domain.Task.{matches_commit}
use agent_orchestrator_publi.Runtime.{M}
use agent_orchestrator_publi.Adapters.{AdapterResult}

pub record TerminalPayload : Type 0 where
  pub session_id : Text
  pub result_commit : Text

-- `input[:n]`
unfoldable pub take : {A : Type 0} → ℕ → List A → List A
take zero xs = []
take (suc n) [] = []
take (suc n) (x ∷ xs) = x ∷ take n xs

-- What `decoder.Decode` makes of the text from a position on, unknown fields refused, and the
-- offset behind the value; or its failure.
abbrev pub Decoder : Type 0
Decoder = Text → Option (TerminalPayload × ℕ)

module _ (decode : Decoder) where
  -- The body of the loop at one position: the result that is returned there, if any.
  unfoldable pub judge_payload : Text → Option (TerminalPayload × ℕ) → Option AdapterResult
  unfolding matches_commit take
  judge_payload rest none = none
  judge_payload rest (some (payload, offset)) =
      if is_empty payload.session_id || not (matches_commit payload.result_commit)
      then none
      else some (record {
        session_id = payload.session_id;
        result_commit = payload.result_commit;
        structured_value = take offset rest;
        usage = record { input_tokens = 0; output_tokens = 0; wall_time = 0 };
      })

  unfoldable pub result_at : Text → Option AdapterResult
  unfolding judge_payload
  result_at [] = none
  result_at (c ∷ s) = if c == b'{' then judge_payload (c ∷ s) (decode (c ∷ s)) else none

  unfoldable pub parse_structured_result : Text → Result AdapterResult
  unfolding result_at
  parse_structured_result [] = err no_terminal_object
  parse_structured_result (c ∷ s) =
      let rest = parse_structured_result s in
      elim (result_at (c ∷ s)) [ some result ↦ ok result | none ↦ rest ]

  -- What becomes of the output of the repair.
  unfoldable pub parse_repaired : Result Text → Result AdapterResult
  unfolding parse_structured_result
  parse_repaired (err e) = err (repair_failed e)
  parse_repaired (ok repaired) = elim (parse_structured_result repaired) [
    | ok result ↦ ok result
    | err _ ↦ err repaired_invalid
  ]

  module _ {W : Type 0} where
    unfoldable pub parse_or_repair :
        Option (Text → M W Text) → Text → Result AdapterResult → M W AdapterResult
    unfolding parse_repaired
    parse_or_repair repair input (ok result) w = (ok result, w)
    parse_or_repair none input (err e) w = (err e, w)
    parse_or_repair (some f) input (err e) w =
        let (repaired, w') = f input w in (parse_repaired repaired, w')

    unfoldable pub parse_structured_result_with_repair :
        Text → Option (Text → M W Text) → M W AdapterResult
    unfolding parse_structured_result parse_or_repair
    parse_structured_result_with_repair input repair =
        parse_or_repair repair input (parse_structured_result input)
