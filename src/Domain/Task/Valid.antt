-- ===== src/Domain/Task/Valid.antt =====
-- The contract that a task meets if and only if `ValidateTask` accepts it.
use agent_orchestrator_publi.Base.{
  ℕ, suc, ◌≤◌, ◌<◌, ◌≡◌, refl, ◌≢◌, ◌↔◌, Bool, true, false, Bool-cases, ℤ, pos, negsuc, is_positive,
  exceeds, equals, List, [], ◌∷◌, length, All, all, Text, text_eq_iff, arith, inl, inr,
}
use agent_orchestrator_publi.Base.Errors.{Field, deliverables, allowed_paths, argv_of, ok}
use agent_orchestrator_publi.FilePath.Space.{is_blank}
use agent_orchestrator_publi.FilePath.Split.{split}
use agent_orchestrator_publi.FilePath.Clean.{is_abs, clean, slash}
use agent_orchestrator_publi.Domain.Task.{
  DelegationLevel, execute_reversible, CommandSpec, Budget, Task, is_id_byte, is_hex_byte,
  matches_task_id, matches_commit, check_items, validate_required_strings, escapes, check_paths,
  validate_allowed_paths, check_command, check_acceptance, validate_delegation, validate_budget,
  is_abs_clean, validate_task,
}
use agent_orchestrator_publi.Domain.Task.Inside.{stays, escapes-stays}

abbrev HasText : Text → Type 0
HasText s = is_blank s ≡ false

-- A list with at least one member, and no blank one.
abbrev pub IsFilled : List Text → Type 0
IsFilled values = (values ≢ []) × All HasText values

abbrev InDay : ℤ → Type 0
InDay z = (n : ℕ) × (z ≡ pos n) × (0 < n) × (n ≤ 86400)

-- A relative path that never leaves the directory it starts in.
abbrev pub IsInside : Text → Type 0
IsInside path = (is_abs path ≡ false) × (stays 0 (split slash path) ≡ true)

abbrev IsCommand : CommandSpec → Type 0
IsCommand c = IsFilled c.argv × InDay c.timeout_seconds

pub record IsValidTask (t : Task) : Type 0 where
  pub id_given : t.id ≢ []
  pub id_bytes : All (λ c. is_id_byte c ≡ true) t.id
  pub root_abs : is_abs t.repository.root ≡ true
  pub root_clean : clean t.repository.root ≡ t.repository.root
  pub base_length : length t.repository.base_ref ≡ 40
  pub base_hex : All (λ c. is_hex_byte c ≡ true) t.repository.base_ref
  pub objective_given : HasText t.objective
  pub rationale_given : HasText t.rationale
  pub deliverables_filled : IsFilled t.deliverables
  pub paths_filled : IsFilled t.allowed_paths
  pub paths_inside : All IsInside t.allowed_paths
  pub commands_given : t.acceptance ≢ []
  pub commands : All IsCommand t.acceptance
  pub reversible : t.delegation ≡ execute_reversible
  pub one_attempt : t.budget.max_attempts ≡ pos 1
  pub seconds : InDay t.budget.max_seconds

all-All : {A : Type 0} (p : A → Bool) (xs : List A) → (all p xs ≡ true) ↔ All (λ x. p x ≡ true) xs
unfolding all
all-All p [] = (λ _. tt, λ _. refl)
all-All p (x ∷ xs) =
    let (there, back) = all-All p xs in
    (λ h. (ground arith, there (ground arith)), λ h. rw (h.0, back h.1))

check_items-All :
    (field : Field) (i : ℕ) (values : List Text)
    → (check_items field i values ≡ ok tt) ↔ All HasText values
unfolding check_items
check_items-All field i [] = (λ _. tt, λ _. refl)
check_items-All field i (v ∷ vs) =
    let (there, back) = check_items-All field (suc i) vs in
    (λ h. (ground arith, there (ground arith)), λ h. rw (h.0, back h.1))

validate_required_strings-IsFilled :
    (field : Field) (values : List Text)
    → (validate_required_strings field values ≡ ok tt) ↔ IsFilled values
unfolding validate_required_strings
validate_required_strings-IsFilled field [] = (λ h. cc, λ h. absurd (h.0 refl))
validate_required_strings-IsFilled field (v ∷ vs) =
    let (there, back) = check_items-All field 0 (v ∷ vs) in
    (λ h. ((λ e. cc), there h), λ h. back h.1)

escapes-IsInside : (path : Text) → (escapes path ≡ false) ↔ IsInside path
escapes-IsInside path = elim (Bool-cases (is_abs path)) [
  | inl abs ↦ (λ h. absurd (unfold escapes in ground arith), λ h. absurd (ground arith))
  | inr relative ↦ (
    λ h. (relative, ground (arith, escapes-stays path relative)),
    λ h. ground (arith, escapes-stays path relative),
  )
]

check_paths-All : (paths : List Text) → (check_paths paths ≡ ok tt) ↔ All IsInside paths
unfolding check_paths
check_paths-All [] = (λ _. tt, λ _. refl)
check_paths-All (p ∷ ps) =
    let (there, back) = check_paths-All ps in
    let (in_there, in_back) = escapes-IsInside p in
    (λ h. (in_there (ground arith), there (ground arith)), λ h. rw (in_back h.0, back h.1))

-- `validateAllowedPaths` accepts a list of paths exactly if it is not empty, no path is blank,
-- and each is relative and, followed element by element, never leaves the repository.
pub validate_allowed_paths-IsInside :
    (paths : List Text)
    → (validate_allowed_paths paths ≡ ok tt) ↔ (IsFilled paths × All IsInside paths)
unfolding validate_allowed_paths
validate_allowed_paths-IsInside paths =
    let (filled, filled_back) = validate_required_strings-IsFilled allowed_paths paths in
    let (inside, inside_back) = check_paths-All paths in
    (
      λ h. (filled (ground arith), inside (ground arith)),
      λ h. rw (filled_back h.0, inside_back h.1),
    )

InDay-of_tests : (z : ℤ) → is_positive z ≡ true → exceeds z 86400 ≡ false → InDay z
InDay-of_tests (pos n) p e = (n, refl, ground arith, ground arith)
InDay-of_tests (negsuc n) p e = absurd (ground arith)

tests_of_InDay : (z : ℤ) → InDay z → (is_positive z ≡ true) × (exceeds z 86400 ≡ false)
tests_of_InDay z (n, e, p, q) = rw e (ground arith, ground arith)

check_command-IsCommand : (i : ℕ) (c : CommandSpec) → (check_command i c ≡ ok tt) ↔ IsCommand c
unfolding check_command
check_command-IsCommand i c =
    let (filled, filled_back) = validate_required_strings-IsFilled (argv_of i) c.argv in
    (
      λ h. (filled (ground arith), InDay-of_tests c.timeout_seconds (ground arith) (ground arith)),
      λ h. let (p, q) = tests_of_InDay c.timeout_seconds h.1 in rw (filled_back h.0, p, q),
    )

check_acceptance-All :
    (i : ℕ) (cs : List CommandSpec) → (check_acceptance i cs ≡ ok tt) ↔ All IsCommand cs
unfolding check_acceptance
check_acceptance-All i [] = (λ _. tt, λ _. refl)
check_acceptance-All i (c ∷ cs) =
    let (first, first_back) = check_command-IsCommand i c in
    let (there, back) = check_acceptance-All (suc i) cs in
    (λ h. (first (ground arith), there (ground arith)), λ h. rw (first_back h.0, back h.1))

budget_checked :
    (b : Budget) → (validate_budget b ≡ ok tt) ↔ ((b.max_attempts ≡ pos 1) × InDay b.max_seconds)
unfolding validate_budget
budget_checked b = (
  λ h. (
    one b.max_attempts (ground arith),
    InDay-of_tests b.max_seconds (ground arith) (ground arith),
  ),
  λ h. let (p, q) = tests_of_InDay b.max_seconds h.1 in rw (h.0, p, q),
)
  where
    one : (z : ℤ) → equals z 1 ≡ true → z ≡ pos 1
    one (pos n) e = ground arith
    one (negsuc n) e = absurd (ground arith)

reversible_checked :
    (d : DelegationLevel) → (validate_delegation d ≡ ok tt) ↔ (d ≡ execute_reversible)
unfolding validate_delegation
reversible_checked d = (λ h. ground arith, λ h. rw h)

id_checked : (s : Text) → (matches_task_id s ≡ true) ↔ ((s ≢ []) × All (λ c. is_id_byte c ≡ true) s)
unfolding matches_task_id
id_checked [] = (λ h. cc, λ h. absurd (h.0 refl))
id_checked (c ∷ s) =
    let (there, back) = all-All is_id_byte (c ∷ s) in (λ h. ((λ e. cc), there h), λ h. back h.1)

commit_checked :
    (s : Text) → (matches_commit s ≡ true) ↔ ((length s ≡ 40) × All (λ c. is_hex_byte c ≡ true) s)
unfolding matches_commit
commit_checked s =
    let (there, back) = all-All is_hex_byte s in
    (λ h. (ground arith, there (ground arith)), λ h. rw (h.0, back h.1))

root_checked : (s : Text) → (is_abs_clean s ≡ true) ↔ ((is_abs s ≡ true) × (clean s ≡ s))
unfolding is_abs_clean
root_checked s = (
  λ h. (ground arith, ground (arith, text_eq_iff (clean s) s)),
  λ h. ground (arith, text_eq_iff (clean s) s),
)

-- Every step of `ValidateTask` passes.
record Passes (t : Task) : Type 0 where
  id : matches_task_id t.id ≡ true
  root : is_abs_clean t.repository.root ≡ true
  base : matches_commit t.repository.base_ref ≡ true
  objective : HasText t.objective
  rationale : HasText t.rationale
  filled : validate_required_strings deliverables t.deliverables ≡ ok tt
  paths : validate_allowed_paths t.allowed_paths ≡ ok tt
  given : t.acceptance ≢ []
  commands : check_acceptance 0 t.acceptance ≡ ok tt
  delegated : validate_delegation t.delegation ≡ ok tt
  bounded : validate_budget t.budget ≡ ok tt

Passes-of_validate : (t : Task) → validate_task t ≡ ok tt → Passes t
unfolding validate_task
Passes-of_validate t h = ground arith

validate_of_Passes : (t : Task) → Passes t → validate_task t ≡ ok tt
unfolding validate_task
validate_of_Passes t p = ground arith

valid_of_Passes : (t : Task) → Passes t → IsValidTask t
valid_of_Passes t p =
    let paths = (validate_allowed_paths-IsInside t.allowed_paths).0 p.paths in
    record {
      id_given = ((id_checked t.id).0 p.id).0;
      id_bytes = ((id_checked t.id).0 p.id).1;
      root_abs = ((root_checked t.repository.root).0 p.root).0;
      root_clean = ((root_checked t.repository.root).0 p.root).1;
      base_length = ((commit_checked t.repository.base_ref).0 p.base).0;
      base_hex = ((commit_checked t.repository.base_ref).0 p.base).1;
      objective_given = p.objective;
      rationale_given = p.rationale;
      deliverables_filled =
          (validate_required_strings-IsFilled deliverables t.deliverables).0 p.filled;
      paths_filled = paths.0;
      paths_inside = paths.1;
      commands_given = p.given;
      commands = (check_acceptance-All 0 t.acceptance).0 p.commands;
      reversible = (reversible_checked t.delegation).0 p.delegated;
      one_attempt = ((budget_checked t.budget).0 p.bounded).0;
      seconds = ((budget_checked t.budget).0 p.bounded).1;
    }

Passes-of_valid : (t : Task) → IsValidTask t → Passes t
Passes-of_valid t v = record {
  id = (id_checked t.id).1 (v.id_given, v.id_bytes);
  root = (root_checked t.repository.root).1 (v.root_abs, v.root_clean);
  base = (commit_checked t.repository.base_ref).1 (v.base_length, v.base_hex);
  objective = v.objective_given;
  rationale = v.rationale_given;
  filled = (validate_required_strings-IsFilled deliverables t.deliverables).1 v.deliverables_filled;
  paths = (validate_allowed_paths-IsInside t.allowed_paths).1 (v.paths_filled, v.paths_inside);
  given = v.commands_given;
  commands = (check_acceptance-All 0 t.acceptance).1 v.commands;
  delegated = (reversible_checked t.delegation).1 v.reversible;
  bounded = (budget_checked t.budget).1 (v.one_attempt, v.seconds);
}

-- `ValidateTask` accepts a task exactly if its contract holds: a proper ID, an absolute clean
-- root, a full lowercase commit, an objective and a rationale, deliverables and allowed paths with
-- no blank item, paths that stay inside the repository, at least one acceptance command, each
-- with a command line and a time limit from a second to a day, the level `execute_reversible`,
-- exactly one attempt, and at least a second and at most a day in all.
pub validate_task-IsValidTask : (t : Task) → (validate_task t ≡ ok tt) ↔ IsValidTask t
validate_task-IsValidTask t = (
  λ h. valid_of_Passes t (Passes-of_validate t h),
  λ v. validate_of_Passes t (Passes-of_valid t v),
)
