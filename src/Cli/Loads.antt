-- ===== src/Cli/Loads.antt =====
-- The file that a task is loaded from.
use agent_orchestrator_publi.Base.{
  ◌≡◌, refl, ap, ap₂, ◌∙◌, arith, inl, inr, Bool, Bool-cases, true, false, ◌&&◌, if◌then◌else◌,
  is_empty, Text, codes,
}
use agent_orchestrator_publi.Base.Errors.{Result, ok, err, wrapped, one_object_required}
use agent_orchestrator_publi.Domain.Task.{Task}
use agent_orchestrator_publi.Runtime.{Reading, contents, absent, unopened, broken}
use agent_orchestrator_publi.Orchestrator.Execute.{Host}
use agent_orchestrator_publi.Cli.{Library, decode_only, decode_file, load_task}

module _ {W : Type 0} (h : Host W) (lib : Library W) where
  -- The file at the path was read to its end, from `w` to `after`, and holds this task and nothing
  -- behind it.
  pub record IsFile (path : Text) (w : W) (task : Task) (after : W) : Type 0 where
    pub named : is_empty path ≡ false
    pub bytes : Text
    pub rest : Text
    pub read : h.sys.read path w ≡ (contents bytes, after)
    pub decoded : lib.decode_task bytes ≡ ok (task, rest)
    pub alone : lib.at_end rest ≡ true

  decode_only-ok :
      (whole : Bool) (bytes : Text) {task : Task}
      → decode_only h lib whole bytes ≡ ok task
      → (whole ≡ true)
        × (rest : Text) × (lib.decode_task bytes ≡ ok (task, rest))
        × (lib.at_end rest ≡ true)
  unfolding decode_only
  decode_only-ok whole bytes {task} q = go (lib.decode_task bytes) refl q
    where
      go :
          (d : Result (Task × Text))
          → lib.decode_task bytes ≡ d
          → (elim d [
            | err e ↦ err (wrapped (codes "decode task") e)
            | ok (t, rest) ↦ if whole && lib.at_end rest then ok t else err one_object_required
          ])
            ≡ ok task
          → (whole ≡ true)
            × (rest : Text) × (lib.decode_task bytes ≡ ok (task, rest))
            × (lib.at_end rest ≡ true)
      go (err x) e q = absurd (cc q)
      go (ok (t, rest)) e q = elim (Bool-cases (whole && lib.at_end rest)) [
        | inl both ↦
            let same : t ≡ task = cc (rw both at q) in
            (ground arith, rest, e ∙ ap (λ t. ok (t, rest)) same, ground arith)
        | inr un ↦ absurd (cc (rw un at q))
      ]

  decode_file-ok :
      (r : Reading) {task : Task}
      → decode_file h lib r ≡ ok task
      → (bytes : Text) × (r ≡ contents bytes) × (decode_only h lib true bytes ≡ ok task)
  unfolding decode_file
  decode_file-ok (contents bytes) q = (bytes, refl, q)
  decode_file-ok (absent m) q = absurd (cc q)
  decode_file-ok (unopened m) q = absurd (cc q)
  decode_file-ok (broken bytes m) q = absurd (cc (decode_only-ok false bytes q).0)

  pub load_task-IsFile :
      (path : Text) (w : W) {task : Task} {w' : W}
      → load_task h lib path w ≡ (ok task, w')
      → IsFile path w task w'
  unfolding load_task
  load_task-IsFile path w {task} {w'} q = elim (Bool-cases (is_empty path)) [
    | inl empty ↦ absurd (cc (ap (λ p. p.0) (rw empty at q)))
    | inr given ↦
        let q' : ◌≡◌ {A = Result Task × W}
            (decode_file h lib (h.sys.read path w).0, (h.sys.read path w).1) (ok task, w') =
          rw given at q in
        let (bytes, r, c) = decode_file-ok (h.sys.read path w).0 (ap (λ p. p.0) q') in
        let (_, rest, d, e) = decode_only-ok true bytes c in
        record {
          named = given;
          bytes = bytes;
          rest = rest;
          read = ap₂ (λ x y. (x, y)) r (ap (λ p. p.1) q');
          decoded = d;
          alone = e;
        }
  ]
