-- ===== src/Adapters/Results/First.antt =====
-- Which result the scan for a terminal object finds.
use agent_orchestrator_publi.Base.{
  ℕ, is_empty, false, ◌≡◌, refl, sym, ap, ◌∙◌, ◌≢◌, ◌↔◌, ◌⊎◌, inl, inr, true, Option, none, some,
  [], ◌∷◌, Text, arith,
}
use agent_orchestrator_publi.Base.Errors.{ok}
use agent_orchestrator_publi.Domain.Task.{matches_commit}
use agent_orchestrator_publi.Adapters.{AdapterResult}
use agent_orchestrator_publi.Adapters.Results.{
  TerminalPayload, Decoder, take, judge_payload, result_at, parse_structured_result,
}

abbrev result_of : TerminalPayload → Text → AdapterResult
result_of payload value = record {
  session_id = payload.session_id;
  result_commit = payload.result_commit;
  structured_value = value;
  usage = record { input_tokens = 0; output_tokens = 0; wall_time = 0 };
}

-- A text that a schema-valid object stands at the beginning of, and the result that it gives.
pub record IsTerminal (decode : Decoder) (text : Text) (r : AdapterResult) : Type 0 where
  pub after : Text
  pub brace : text ≡ b'{' ∷ after
  pub payload : TerminalPayload
  pub offset : ℕ
  pub decoded : decode text ≡ some (payload, offset)
  pub session_given : payload.session_id ≢ []
  pub commit : matches_commit payload.result_commit ≡ true
  pub result : r ≡ result_of payload (take offset text)

judged :
    (decode : Decoder) (rest : Text) (o : Option (TerminalPayload × ℕ)) (r : AdapterResult)
    → judge_payload decode rest o ≡ some r
    → (payload : TerminalPayload) × (offset : ℕ) × (o ≡ some (payload, offset))
      × (payload.session_id ≢ [])
      × (matches_commit payload.result_commit ≡ true)
      × (r ≡ result_of payload (take offset rest))
unfolding judge_payload
judged decode rest none r h = absurd (cc h)
judged decode rest (some (payload, offset)) r h =
    (payload, offset, refl, ground arith, ground arith, ground arith)

judged_back :
    (decode : Decoder) (rest : Text) (payload : TerminalPayload) (offset : ℕ)
    → payload.session_id ≢ []
    → matches_commit payload.result_commit ≡ true
    → judge_payload decode rest (some (payload, offset))
      ≡ some (result_of payload (take offset rest))
unfolding judge_payload
judged_back decode rest payload offset g k = ground (arith, given payload.session_id)
  where
    given : (s : Text) → (is_empty s ≡ true) ⊎ (is_empty s ≡ false)
    given [] = inl refl
    given (c ∷ s) = inr refl

module _ (decode : Decoder) where
  result_at-IsTerminal :
      (text : Text) (r : AdapterResult)
      → (result_at decode text ≡ some r) ↔ IsTerminal decode text r
  unfolding result_at
  result_at-IsTerminal [] r = (λ h. absurd (cc h), λ t. absurd (cc t.brace))
  result_at-IsTerminal (c ∷ s) r = (there, back)
    where
      there : result_at decode (c ∷ s) ≡ some r → IsTerminal decode (c ∷ s) r
      there h =
          let (payload, offset, d, g, k, q) =
            judged decode (c ∷ s) (decode (c ∷ s)) r (ground arith) in
          record {
            after = s;
            brace = ground arith;
            payload = payload;
            offset = offset;
            decoded = d;
            session_given = g;
            commit = k;
            result = q;
          }

      back : IsTerminal decode (c ∷ s) r → result_at decode (c ∷ s) ≡ some r
      back t =
          opened t.brace
          ∙ ap (judge_payload decode (c ∷ s)) t.decoded
          ∙ judged_back decode (c ∷ s) t.payload t.offset t.session_given t.commit
          ∙ ap some (sym t.result)
        where
          opened :
              {after : Text}
              → c ∷ s ≡ b'{' ∷ after
              → result_at decode (c ∷ s) ≡ judge_payload decode (c ∷ s) (decode (c ∷ s))
          opened e = ground arith

  -- The first position of a text where a schema-valid object begins gives the result.
  pub data First : Text → AdapterResult → Type 0 where
    here : {text : Text} {r : AdapterResult} → IsTerminal decode text r → First text r
    later :
        {c : ℕ} {s : Text} {r : AdapterResult}
        → ((other : AdapterResult) → ¬ IsTerminal decode (c ∷ s) other)
        → First s r
        → First (c ∷ s) r

  abbrev FirstCases : Text → AdapterResult → Type 0
  FirstCases [] r = ⊥
  FirstCases (c ∷ s) r =
      IsTerminal decode (c ∷ s) r
      ⊎ (((other : AdapterResult) → ¬ IsTerminal decode (c ∷ s) other) × First s r)

  here_cases : (text : Text) {r : AdapterResult} → IsTerminal decode text r → FirstCases text r
  here_cases [] t = cc t.brace
  here_cases (c ∷ s) t = inl t

  First-cases : {text : Text} {r : AdapterResult} → First text r → FirstCases text r
  First-cases {text} (here t) = here_cases text t
  First-cases (later n f) = inr (n, f)

  -- The scan succeeds with a result exactly if the first place of the text where an opening brace
  -- begins a value with a session and a commit of forty hexadecimal digits, and no other field,
  -- gives it: the result has that session and commit and the bytes of that value.
  pub parse_structured_result-First :
      (input : Text) (r : AdapterResult)
      → (parse_structured_result decode input ≡ ok r) ↔ First input r
  unfolding parse_structured_result
  parse_structured_result-First [] r = (λ h. absurd (cc h), λ f. absurd (First-cases f))
  parse_structured_result-First (c ∷ s) r =
      go (result_at decode (c ∷ s)) refl (parse_structured_result-First s r)
    where
      go :
          (o : Option AdapterResult)
          → result_at decode (c ∷ s) ≡ o
          → (parse_structured_result decode s ≡ ok r) ↔ First s r
          → (elim o [ some result ↦ ok result | none ↦ parse_structured_result decode s ] ≡ ok r)
            ↔ First (c ∷ s) r
      go none q ih = (
        λ h. later (λ other t. absurd (cc (q, (result_at-IsTerminal (c ∷ s) other).1 t))) (ih.0 h),
        λ f. elim (First-cases f) [
          | inl t ↦ absurd (cc (q, (result_at-IsTerminal (c ∷ s) r).1 t))
          | inr (n, g) ↦ ih.1 g
        ],
      )
      go (some x) q ih = (
        λ h. here ((result_at-IsTerminal (c ∷ s) r).0 (cc (q, h))),
        λ f. elim (First-cases f) [
          | inl t ↦ cc (q, (result_at-IsTerminal (c ∷ s) r).1 t)
          | inr (n, g) ↦ absurd (n x ((result_at-IsTerminal (c ∷ s) x).0 q))
        ],
      )
