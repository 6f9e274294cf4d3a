-- ===== src/Adapters/Codex/Outcome.antt =====
-- What the codex adapter reports, and where it is refused.
use agent_orchestrator_publi.Base.{
  ℕ, ◌-◌, codes, ◌≡◌, sym, ap, ◌∙◌, subst, ◌≢◌, Option, none, some, Text,
}
use agent_orchestrator_publi.Base.Errors.{
  Result, ok, err, codex_failed, probe_failed, adapter_required,
}
use agent_orchestrator_publi.Runtime.{lift, pure, ◌>>=◌, wrapping, releasing-ok, >>=-ok, System}
use agent_orchestrator_publi.Workspace.{Repository}
use agent_orchestrator_publi.Policy.{strict, validate_execution}
use agent_orchestrator_publi.Domain.Task.{Task}
use agent_orchestrator_publi.Evidence.{Encoding}
use agent_orchestrator_publi.Adapters.{AdapterCapabilities, AdapterResult, Adapter}
use agent_orchestrator_publi.Adapters.Results.{Decoder, parse_structured_result}
use agent_orchestrator_publi.Adapters.Results.First.{First, parse_structured_result-First}
use agent_orchestrator_publi.Adapters.Codex.{
  CodexOptions, CodexSession, codex_capabilities, run_program, codex_probe, codex_adapter,
  codex_finish, codex_report, exec_spec, version_spec, codex_outcome, codex_run, read_file,
  resolve_with,
}
use agent_orchestrator_publi.Store.Disk.Rules.{wrapping-ok}
use agent_orchestrator_publi.Orchestrator.{Run}
use agent_orchestrator_publi.Orchestrator.Execute.{Engine, Host, the_adapter, admit, run_task}
use agent_orchestrator_publi.Orchestrator.Exits.{going}
use agent_orchestrator_publi.Orchestrator.Exits.Going.{
  check-going, >>=-going, bare-going, returned-none,
}

abbrev value_or : {A : Type 0} → A → Result A → A
value_or d (ok a) = a
value_or d (err _) = d

module _ {W : Type 0} (sys : System W) (enc : Encoding) (decode : Decoder)
    (options : CodexOptions W) where
  -- A result that is reported: the agent's last message held `reported`, and git answered with the
  -- head.
  pub record IsOutcome (s : CodexSession) (r : AdapterResult) : Type 0 where
    pub bytes : Text
    pub read_in : W
    pub read_out : W
    pub message :
        read_file sys enc decode options s.last_message_path read_in ≡ (ok bytes, read_out)
    pub reported : AdapterResult
    pub first : First decode bytes reported
    pub head_out : W
    pub head :
        resolve_with sys enc decode options s.job.workspace_dir read_out
        ≡ (ok r.result_commit, head_out)
    pub session : r.session_id ≡ reported.session_id
    pub value : r.structured_value ≡ reported.structured_value

  finished_with :
      (s : CodexSession) (started : ℕ) (reported : AdapterResult) (w : W) {r : AdapterResult}
      {w' : W}
      → codex_finish sys enc decode options s started reported w ≡ (ok r, w')
      → (w₁ : W) × (resolve_with sys enc decode options s.job.workspace_dir w
          ≡ (ok r.result_commit, w₁))
        × (r.session_id ≡ reported.session_id)
        × (r.structured_value ≡ reported.structured_value)
  unfolding codex_finish
  finished_with s started reported w h =
      let (head, w₁, m₁, c₁) =
        >>=-ok
          (wrapping (codes "resolve writer HEAD")
            (resolve_with sys enc decode options s.job.workspace_dir))
          (λ head. sys.now >>= λ finished. pure (record reported {
            result_commit = head;
            usage = record reported.usage { wall_time = finished - started };
          }))
          w h in
      let (finished, w₂, m₂, c₂) =
        >>=-ok sys.now
          (λ finished. pure (record reported {
            result_commit = head;
            usage = record reported.usage { wall_time = finished - started };
          }))
          w₁ c₁ in
      let e = ap (λ q. value_or reported q.0) c₂ in
      (
        w₁,
        wrapping-ok (codes "resolve writer HEAD")
              (resolve_with sys enc decode options s.job.workspace_dir) w m₁
            ∙ ap (λ x. (ok x.result_commit, w₁)) e,
        sym (ap (λ x. x.session_id) e),
        sym (ap (λ x. x.structured_value) e),
      )

  -- A session of codex that succeeds reports the session and the value of the first schema-valid
  -- object of the agent's last message, and as the result commit the head that git resolves in the
  -- workspace afterwards, whichever commit the agent has claimed.
  pub codex_run-IsOutcome :
      (s : CodexSession) (w : W) {r : AdapterResult} {w' : W}
      → codex_run sys enc decode options s w ≡ (ok r, w')
      → IsOutcome s r
  unfolding codex_run codex_outcome codex_report
  codex_run-IsOutcome s w {r} h =
      let (started, w₁, m₁, c₁) =
        >>=-ok sys.now
          (λ started.
            run_program sys enc decode options codex_failed (exec_spec sys enc decode options s)
            >>= λ _. codex_report sys enc decode options s started)
          w
          (releasing-ok (sys.remove s.last_message_path) (codex_outcome sys enc decode options s) w
            h) in
      let (_, w₂, m₂, c₂) =
        >>=-ok
          (run_program sys enc decode options codex_failed (exec_spec sys enc decode options s))
          (λ _. codex_report sys enc decode options s started) w₁ c₁ in
      let (bytes, w₃, m₃, c₃) =
        >>=-ok
          (wrapping (codes "read codex terminal result")
            (read_file sys enc decode options s.last_message_path))
          (λ bytes.
            lift (parse_structured_result decode bytes)
            >>= codex_finish sys enc decode options s started)
          w₂ c₂ in
      let (reported, w₄, m₄, c₄) =
        >>=-ok (lift (parse_structured_result decode bytes))
          (codex_finish sys enc decode options s started) w₃ c₃ in
      let (w₅, head, session, value) = finished_with s started reported w₄ c₄ in
      record {
        bytes = bytes;
        read_in = w₂;
        read_out = w₃;
        message =
            wrapping-ok (codes "read codex terminal result")
              (read_file sys enc decode options s.last_message_path) w₂ m₃;
        reported = reported;
        first = (parse_structured_result-First decode bytes reported).0 (ap (λ q. q.0) m₄);
        head_out = w₅;
        head =
            subst
              (λ w.
                resolve_with sys enc decode options s.job.workspace_dir w
                ≡ (ok r.result_commit, w₅))
              (ap (λ q. q.1) (sym m₄)) head;
        session = session;
        value = value;
      }

  probed :
      (w : W) {c : AdapterCapabilities} {w' : W}
      → codex_probe sys enc decode options w ≡ (ok c, w')
      → c ≡ codex_capabilities
  unfolding codex_probe
  probed w h =
      let (_, w₁, m₁, c₁) =
        >>=-ok
          (run_program sys enc decode options probe_failed (version_spec sys enc decode options))
          (λ _. pure codex_capabilities) w h in
      sym (ap (λ q. value_or codex_capabilities q.0) c₁)

  refused :
      {c : AdapterCapabilities}
      → c ≡ codex_capabilities
      → validate_execution strict
          (record { workspace_write = c.workspace_write; native_sandbox = c.native_sandbox })
        ≢ ok tt
  unfolding validate_execution
  refused q h = cc (
      ap
        (λ (c : AdapterCapabilities).
          validate_execution strict
            (record { workspace_write = c.workspace_write; native_sandbox = c.native_sandbox }))
        (sym q)
      ∙ h)

  module _ (h : Host W) (engine : Engine W CodexSession) (task : Task) (approved : Text) where
    chosen :
        (o : Option (Adapter W CodexSession)) (a : Adapter W CodexSession)
        → o ≡ some (codex_adapter sys enc decode options)
        → ◌≡◌ {A = Result (Adapter W CodexSession)}
            (elim o [ none ↦ err adapter_required | some a ↦ ok a ])
            (ok a)
        → a ≡ codex_adapter sys enc decode options
    chosen none a q h = absurd (cc h)
    chosen (some b) a q h = cc (q, h)

    admitted_strict :
        (w : W) {a : Repository × Adapter W CodexSession} {w' : W}
        → engine.mode ≡ strict
        → engine.adapter ≡ some (codex_adapter sys enc decode options)
        → admit h engine task approved w ≢ (going a, w')
    unfolding admit the_adapter
    admitted_strict w mode adapter c =
        let (a, w₁, m₁, c₁) = >>=-going _ _ w c in
        let (_, w₂, m₂, c₂) = >>=-going _ _ w₁ c₁ in
        let (_, w₃, m₃, c₃) = >>=-going _ _ w₂ c₂ in
        let (_, w₄, m₄, c₄) = >>=-going _ _ w₃ c₃ in
        let (_, w₅, m₅, c₅) = >>=-going _ _ w₄ c₄ in
        let (capabilities, w₆, m₆, c₆) = >>=-going _ _ w₅ c₅ in
        let (_, w₇, m₇, c₇) = >>=-going _ _ w₆ c₆ in
        let (_, w₈, m₈, c₈) = >>=-going _ _ w₇ c₇ in
        let same = chosen engine.adapter a adapter (check-going _ w m₁) in
        let probe = probed w₅ (
          subst (λ (b : Adapter W CodexSession). b.probe w₅ ≡ (ok capabilities, w₆)) same
            (bare-going _ w₅ m₆)) in
        refused probe (
          subst
            (λ m.
              validate_execution m (record {
                workspace_write = capabilities.workspace_write;
                native_sandbox = capabilities.native_sandbox;
              })
              ≡ ok tt)
            mode (check-going _ w₇ m₈))

    -- An engine in strict mode whose adapter is codex completes no run: it never returns a run without
    -- an error.
    pub run_task-refuses_codex :
        (w : W) {run : Run} {w' : W}
        → engine.mode ≡ strict
        → engine.adapter ≡ some (codex_adapter sys enc decode options)
        → run_task h engine task approved w ≢ ((run, none), w')
    unfolding run_task
    run_task-refuses_codex w mode adapter c =
        let (admitted, w₁, m₁, c₁) = >>=-going _ _ w (returned-none _ w c) in
        admitted_strict w mode adapter m₁
