-- ===== src/Service/Prepared.antt =====
-- A task that has been prepared can be approved by its digest.
use agent_orchestrator_publi.Base.{
  ◌≡◌, refl, sym, ap, subst, ◌∙◌, ◌≢◌, false, [], ◌∷◌, Text, is_empty, text_eq_refl, arith,
}
use agent_orchestrator_publi.Base.Errors.{Result, ok, >>=-eq-ok, ◌>>=◌ as bind}
use agent_orchestrator_publi.Domain.Task.{Task, validate_task, hex, digest_task}
use agent_orchestrator_publi.Domain.Task.Valid.{IsValidTask, validate_task-IsValidTask}
use agent_orchestrator_publi.Policy.{validate_approved_task}
use agent_orchestrator_publi.Runtime.{M, lift, ◌>>=◌, >>=-ok}
use agent_orchestrator_publi.Workspace
use agent_orchestrator_publi.Workspace.{Repository}
use agent_orchestrator_publi.Evidence.{task_value}
use agent_orchestrator_publi.Orchestrator.Execute.{Host}
use agent_orchestrator_publi.Service.{prepared, prepare}

ok-injective : {A : Type 0} {a b : A} → ◌≡◌ {A = Result A} (ok a) (ok b) → a ≡ b
ok-injective e = cc e

hex_given : (s : Text) → s ≢ [] → is_empty (hex s) ≡ false
unfolding hex
hex_given [] n = absurd (n refl)
hex_given (b ∷ s) n = refl

module _ (marshal : Task → Result Text) (sha : Text → Text) (given : (s : Text) → sha s ≢ []) where
  digest_task-ok :
      (t : Task) {d : Text}
      → digest_task marshal sha t ≡ ok d
      → (validate_task t ≡ ok tt) × (is_empty d ≡ false)
  unfolding digest_task
  digest_task-ok t {d} h =
      let (_, valid, h₁) =
        >>=-eq-ok (validate_task t) (λ _. bind (marshal t) (λ bytes. ok (hex (sha bytes)))) h in
      let (bytes, _, h₂) = >>=-eq-ok (marshal t) (λ bytes. ok (hex (sha bytes))) h₁ in
      let same : hex (sha bytes) ≡ d = ground arith in
      (valid, ap is_empty (sym same) ∙ hex_given (sha bytes) (given bytes))

  approves_itself :
      (t : Task) (d : Text)
      → digest_task marshal sha t ≡ ok d
      → is_empty d ≡ false
      → validate_approved_task marshal sha t d ≡ ok tt
  unfolding validate_approved_task
  approves_itself t d h n = rw (h, n, text_eq_refl d) refl

module _ {W : Type 0} (h : Host W) where
  abbrev pub marshal_task : Task → Result Text
  marshal_task t = h.enc.marshal (task_value t)

  -- A valid task that `ValidateApprovedTask` accepts with the digest, and that is the one given, on
  -- the root and the commit that git names for it.
  pub record IsPrepared (task : Task) (w : W) (t : Task) (d : Text) : Type 0 where
    pub valid : IsValidTask t
    pub approved : validate_approved_task marshal_task h.enc.sum256 t d ≡ ok tt
    pub repository : Repository
    pub between : W
    pub found : Workspace.resolve h.sys task.repository.root w ≡ (ok repository, between)
    pub based :
        (w₂ : W) × (Workspace.resolve_commit h.sys repository.root task.repository.base_ref between
          ≡ (ok t.repository.base_ref, w₂))
    pub same : t ≡ prepared h task repository.root t.repository.base_ref

  abbrev ends : Task → M W (Task × Text)
  ends t = lift (digest_task marshal_task h.enc.sum256 t) >>= λ d w. (ok (t, d), w)

  abbrev basing : Task → Repository → M W (Task × Text)
  basing task r = Workspace.resolve_commit h.sys r.root task.repository.base_ref >>= λ b.
      ends (prepared h task r.root b)

module _ {W : Type 0} (h : Host W) (given : (s : Text) → h.enc.sum256 s ≢ []) where
  -- As long as a checksum is never empty: a task that `Prepare` returns is the one that was given,
  -- on the root and the commit that git names for it; it is valid, and `ValidateApprovedTask`
  -- accepts it with the digest that is returned beside it.
  pub prepare-IsPrepared :
      (task : Task) (w : W) {t : Task} {d : Text} {w' : W}
      → prepare h task w ≡ (ok (t, d), w')
      → IsPrepared h task w t d
  unfolding prepare
  prepare-IsPrepared task w {t} {d} c =
      let (r, w₁, found, c₁) =
        >>=-ok (Workspace.resolve h.sys task.repository.root) (basing h task) w c in
      let (b, w₂, based, c₂) =
        >>=-ok (Workspace.resolve_commit h.sys r.root task.repository.base_ref)
          (λ b. ends h (prepared h task r.root b)) w₁ c₁ in
      let t₁ = prepared h task r.root b in
      let (d₁, w₃, digested, c₃) =
        >>=-ok (lift (digest_task (marshal_task h) h.enc.sum256 t₁)) (λ d w. (ok (t₁, d), w)) w₂
          c₂ in
      let (valid, some_digest) =
        digest_task-ok (marshal_task h) h.enc.sum256 given t₁ (ap (λ q. q.0) digested) in
      let ready : IsPrepared h task w t₁ d₁ = record {
        valid = (validate_task-IsValidTask t₁).0 valid;
        approved =
            approves_itself (marshal_task h) h.enc.sum256 given t₁ d₁ (ap (λ q. q.0) digested)
              some_digest;
        repository = r;
        between = w₁;
        found = found;
        based = (w₂, based);
        same = refl;
      } in
      subst (λ (q : Task × Text). IsPrepared h task w q.0 q.1) (ok-injective (ap (λ q. q.0) c₃))
        ready
