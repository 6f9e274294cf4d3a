-- ===== src/Runtime/Process/Reports.antt =====
-- What it says that `Run` reports no error, or a timeout.
use agent_orchestrator_publi.Base.{
  ℕ, pos, ◌⊎◌, inl, inr, ◌≡◌, ◌≢◌, refl, ap, sym, ◌∙◌, ◌↔◌, true, false, Option, none, some, [],
  ◌∷◌, Text, is_empty, if◌then◌else◌,
}
use agent_orchestrator_publi.Base.Errors.{Error, deadline_exceeded, process_path_required}
use agent_orchestrator_publi.Runtime.{
  Spec, Ended, ContextEnd, deadline, canceled, Launch, not_started, waited, not_killed, killed,
  System,
}
use agent_orchestrator_publi.Runtime.Process.{
  ProcessResult, no_result, result_of, environment, settle, after_launch, run,
}

-- `Wait` returns no error only where the program exited with code 0, as os/exec documents.
abbrev pub Exits : Launch → Type 0
Exits l =
    (e : Ended) (c : Option ContextEnd) → l ≡ waited e c → e.wait_error ≡ none → e.exit_code ≡ pos 0

-- The program ended by itself, before its context, with exit code 0 and without an error of its wait,
-- and left this result.
pub record IsEnded (l : Launch) (r : ProcessResult) : Type 0 where
  pub program : Ended
  pub alone : l ≡ waited program none
  pub well : program.wait_error ≡ none
  pub code : program.exit_code ≡ pos 0
  pub left : r ≡ result_of program false

settled :
    (e : Ended) (r : ProcessResult) (c : Option ContextEnd) (m : Option Text)
    → Exits (waited e c)
    → e.wait_error ≡ m
    → ◌≡◌ {A = ProcessResult × Option Error} (result_of e false, settle c m) (r, none)
    → IsEnded (waited e c) r
unfolding settle
settled e r (some c) m x q h = absurd (cc (ap (λ p. p.1) h))
settled e r none (some m) x q h = absurd (cc (ap (λ p. p.1) h))
settled e r none none x q h = record {
  program = e;
  alone = refl;
  well = q;
  code = x e none refl q;
  left = sym (ap (λ p. p.0) h);
}

after_launch-IsEnded :
    (l : Launch) (r : ProcessResult)
    → (Exits l → after_launch l ≡ (r, none) → IsEnded l r)
      × (IsEnded l r → after_launch l ≡ (r, none))
unfolding after_launch settle
after_launch-IsEnded l r = (there l, back)
  where
    there : (l : Launch) → Exits l → after_launch l ≡ (r, none) → IsEnded l r
    there (not_started from to m) x h = absurd (cc (ap (λ p. p.1) h))
    there (not_killed from m) x h = absurd (cc (ap (λ p. p.1) h))
    there (waited e c) x h = settled e r c e.wait_error x refl h
    there (killed c e) x h = absurd (cc (ap (λ p. p.1) h))

    back : IsEnded l r → after_launch l ≡ (r, none)
    back i =
        ap after_launch i.alone
        ∙ ap (λ m. (result_of i.program false, settle none m)) i.well
        ∙ ap (λ r. (r, none)) (sym i.left)

timed :
    (l : Launch) → (after_launch l).0.timed_out ≡ true → (after_launch l).1 ≡ some deadline_exceeded
unfolding after_launch settle
timed (not_started from to m) h = absurd (cc h)
timed (not_killed from m) h = absurd (cc h)
timed (waited e c) h = absurd (cc h)
timed (killed deadline e) h = refl
timed (killed canceled e) h = absurd (cc h)

module _ {W : Type 0} (sys : System W) (spec : Spec) (w : W) where
  abbrev Reported : Type 0
  Reported = (ProcessResult × Option Error) × W

  abbrev refused : Reported
  refused = ((record no_result { exit_code = pos 0 }, some process_path_required), w)

  abbrev launched : Launch × W
  launched = sys.execute spec (environment spec.env) w

  run-refused : spec.path ≡ [] → run sys spec w ≡ refused
  unfolding run
  run-refused q =
      ap (λ b. if b then refused else (after_launch launched.0, launched.1)) (ap is_empty q)

  run-launched :
      {c : ℕ} {p : Text}
      → spec.path ≡ c ∷ p
      → run sys spec w ≡ (after_launch launched.0, launched.1)
  unfolding run
  run-launched q =
      ap (λ b. if b then refused else (after_launch launched.0, launched.1)) (ap is_empty q)

  Path-cases : (p : Text) → (p ≡ []) ⊎ ((c : ℕ) × (t : Text) × (p ≡ c ∷ t))
  Path-cases [] = inl refl
  Path-cases (c ∷ t) = inr (c, t, refl)

  -- If `Wait` returns no error only where the program exited with code 0, as os/exec documents: `Run`
  -- reports no error exactly if the program has a path, was started with the sorted environment, and
  -- ended by itself, with exit code 0 and without an error of its wait, before its context did; the
  -- result is what it left. A result that is marked as timed out comes with the error of the deadline.
  pub run-IsEnded :
      Exits launched.0
      → ((r : ProcessResult) (w' : W)
          → (run sys spec w ≡ ((r, none), w'))
            ↔ ((spec.path ≢ []) × (l : Launch) × (launched ≡ (l, w')) × IsEnded l r))
        × ((run sys spec w).0.0.timed_out ≡ true → (run sys spec w).0.1 ≡ some deadline_exceeded)
  run-IsEnded exits = (
    λ r w'. (there r w' (Path-cases spec.path), back r w' (Path-cases spec.path)),
    late (Path-cases spec.path),
  )
    where
      there :
          (r : ProcessResult) (w' : W)
          → (spec.path ≡ []) ⊎ ((c : ℕ) × (t : Text) × (spec.path ≡ c ∷ t))
          → run sys spec w ≡ ((r, none), w')
          → (spec.path ≢ []) × (l : Launch) × (launched ≡ (l, w')) × IsEnded l r
      there r w' (inl q) h = absurd (cc (ap (λ p. p.0.1) (sym (run-refused q) ∙ h)))
      there r w' (inr (c, t, q)) h =
          let e = sym (run-launched q) ∙ h in
          (
            λ n. cc (n, q),
            launched.0,
            ap (λ p. (launched.0, p.1)) e,
            (after_launch-IsEnded launched.0 r).0 exits (ap (λ p. p.0) e),
          )

      back :
          (r : ProcessResult) (w' : W)
          → (spec.path ≡ []) ⊎ ((c : ℕ) × (t : Text) × (spec.path ≡ c ∷ t))
          → (spec.path ≢ []) × (l : Launch) × (launched ≡ (l, w')) × IsEnded l r
          → run sys spec w ≡ ((r, none), w')
      back r w' (inl q) (n, l, e, i) = absurd (n q)
      back r w' (inr (c, t, q)) (n, l, e, i) =
          run-launched q
          ∙ ap (λ p. (after_launch p.0, p.1)) e
          ∙ ap (λ o. (o, w')) ((after_launch-IsEnded l r).1 i)

      late :
          (spec.path ≡ []) ⊎ ((c : ℕ) × (t : Text) × (spec.path ≡ c ∷ t))
          → (run sys spec w).0.0.timed_out ≡ true
          → (run sys spec w).0.1 ≡ some deadline_exceeded
      late (inl q) h = absurd (cc (ap (λ p. p.0.0.timed_out) (run-refused q), h))
      late (inr (c, t, q)) h =
          ap (λ p. p.0.1) (run-launched q)
          ∙ timed launched.0 (sym (ap (λ p. p.0.0.timed_out) (run-launched q)) ∙ h)
