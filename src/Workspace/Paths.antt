-- ===== src/Workspace/Paths.antt =====
-- Changed paths and the allowlist of the task.
use agent_orchestrator_publi.Base.{
  ◌≡◌, refl, ◌↔◌, ◌⊎◌, inl, inr, Bool, true, false, Bool-cases, List, [], ◌∷◌, ◌++◌, reverse, Text,
  text_eq_iff, has_prefix, has_prefix-append, append-of-has_prefix, has_suffix, any, All, arith,
  sym, ap, ◌∙◌,
}
use agent_orchestrator_publi.Base.Errors.{ok}
use mathlib.Core.List.{reverse-append, reverse-reverse}
use agent_orchestrator_publi.FilePath.Clean.{clean, slash}
use agent_orchestrator_publi.Workspace.{permits, validate_allowed_paths}

-- Some member of a list, with its place.
abbrev pub Some : {A : Type 0} → (A → Type 0) → List A → Type 0
Some P [] = ⊥
Some P (x ∷ xs) = P x ⊎ Some P xs

-- A cleaned path lies under a rule that is a directory, or is a rule that is a file.
abbrev pub Under : Text → Text → Type 0
Under path rule =
    ((dir rest : Text) × (rule ≡ dir ++ (slash ∷ [])) × (path ≡ dir ++ (slash ∷ rest)))
    ⊎ ((has_suffix rule (slash ∷ []) ≡ false) × (path ≡ clean rule))

directory_rule :
    (rule : Text)
    → has_suffix rule (slash ∷ []) ≡ true
    → (dir : Text) × (rule ≡ dir ++ (slash ∷ []))
unfolding has_suffix
directory_rule rule h =
    let (r, e) = append-of-has_prefix (reverse rule) (slash ∷ []) h in
    (reverse r, sym (reverse-reverse rule) ∙ ap reverse e ∙ reverse-append (slash ∷ []) r)

rule_directory : (dir : Text) → has_suffix (dir ++ (slash ∷ [])) (slash ∷ []) ≡ true
unfolding has_suffix has_prefix
rule_directory dir = rw (reverse-append dir (slash ∷ [])) refl

append_one : (dir rest : Text) → (dir ++ (slash ∷ [])) ++ rest ≡ dir ++ (slash ∷ rest)
append_one [] rest = refl
append_one (c ∷ dir) rest = ap (λ s. c ∷ s) (append_one dir rest)

permits-Under : (path rule : Text) → permits path rule ≡ true → Under path rule
unfolding permits
permits-Under path rule h = elim (Bool-cases (has_suffix rule (slash ∷ []))) [
  | inl d ↦
      let (dir, e) = directory_rule rule d in
      let (rest, f) = append-of-has_prefix path rule (ground arith) in
      inl (dir, rest, e, f ∙ ap (λ r. r ++ rest) e ∙ append_one dir rest)
  | inr n ↦ inr (n, ground (arith, text_eq_iff path (clean rule)))
]

Under-permits : (path rule : Text) → Under path rule → permits path rule ≡ true
unfolding permits
Under-permits path rule (inl (dir, rest, e, f)) =
    rw (e, f, rule_directory dir, ← append_one dir rest)
      (has_prefix-append (dir ++ (slash ∷ [])) rest)
Under-permits path rule (inr (n, e)) = rw n ((text_eq_iff path (clean rule)).1 e)

any-Some :
    (p : Text → Bool) (P : Text → Type 0) (rules : List Text)
    → ((rule : Text) → (p rule ≡ true) ↔ P rule)
    → (any p rules ≡ true) ↔ Some P rules
unfolding any
any-Some p P [] k = (λ h. absurd (ground arith), λ h. elim h [ ])
any-Some p P (r ∷ rules) k =
    let (there, back) = any-Some p P rules k in
    (
      λ h. elim (Bool-cases (p r)) [ inl e ↦ inl ((k r).0 e) | inr e ↦ inr (there (ground arith)) ],
      λ h. elim h [ inl e ↦ ground (arith, (k r).1 e) | inr s ↦ ground (arith, back s) ],
    )

-- `ValidateAllowedPaths` accepts the changed paths exactly if each of them, cleaned, lies under
-- one of the rules: below a rule that ends in a slash, or equal to another rule, cleaned.
pub validate_allowed_paths-Under :
    (changed allowed : List Text)
    → (validate_allowed_paths changed allowed ≡ ok tt)
      ↔ All (λ path. Some (Under (clean path)) allowed) changed
unfolding validate_allowed_paths
validate_allowed_paths-Under [] allowed = (λ _. tt, λ _. refl)
validate_allowed_paths-Under (path ∷ changed) allowed =
    let (there, back) = validate_allowed_paths-Under changed allowed in
    let (some, some_back) =
      any-Some (permits (clean path)) (Under (clean path)) allowed
        (λ rule. (permits-Under (clean path) rule, Under-permits (clean path) rule)) in
    (λ h. (some (ground arith), there (ground arith)), λ h. rw (some_back h.0) (back h.1))
