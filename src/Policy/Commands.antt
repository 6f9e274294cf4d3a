-- ===== src/Policy/Commands.antt =====
-- The command lines that `ValidateCommand` accepts.
use agent_orchestrator_publi.Base.{
  ◌≡◌, refl, ◌↔◌, true, false, List, [], ◌∷◌, Text, codes, text_eq_iff, member, any, All, arith,
}
use agent_orchestrator_publi.Base.Errors.{ok}
use agent_orchestrator_publi.FilePath.Clean.{base}
use agent_orchestrator_publi.Policy.{
  Policy, wrappers, interpreters, is_inline, check_inline, check_actions, validate_action,
  validate_command,
}

pub record IsPermitted (p : Policy) (program : Text) (arguments : List Text) : Type 0 where
  pub direct : member (base program) wrappers ≡ false
  pub from_files :
      member (base program) interpreters ≡ true → All (λ a. is_inline a ≡ false) arguments
  pub permitted : member (base program) p.denied_actions ≡ false
  pub git_permitted :
      base program ≡ codes "git" → All (λ a. member a p.denied_actions ≡ false) arguments

check_inline-All :
    (command : Text) (arguments : List Text)
    → (check_inline command arguments ≡ ok tt) ↔ All (λ a. is_inline a ≡ false) arguments
unfolding check_inline any
check_inline-All command [] = (λ _. tt, λ _. refl)
check_inline-All command (a ∷ arguments) =
    let (there, back) = check_inline-All command arguments in
    (λ h. (ground arith, there (ground arith)), λ h. rw h.0 (back h.1))

check_actions-All :
    (p : Policy) (arguments : List Text)
    → (check_actions p arguments ≡ ok tt) ↔ All (λ a. member a p.denied_actions ≡ false) arguments
unfolding check_actions
check_actions-All p [] = (λ _. tt, λ _. refl)
check_actions-All p (a ∷ arguments) =
    let (there, back) = check_actions-All p arguments in
    (λ h. (ground arith, there (ground arith)), λ h. rw h.0 (back h.1))

IsPermitted-of_validate :
    (p : Policy) (program : Text) (arguments : List Text)
    → validate_command p (program ∷ arguments) ≡ ok tt
    → IsPermitted p program arguments
unfolding validate_command validate_action
IsPermitted-of_validate p program arguments h = record {
  direct = ground arith;
  from_files = λ m. (check_inline-All (base program) arguments).0 (ground arith);
  permitted = ground arith;
  git_permitted = λ g.
      (check_actions-All p arguments).0 (ground (arith, text_eq_iff (base program) (codes "git")));
}

validate_of_IsPermitted :
    (p : Policy) (program : Text) (arguments : List Text)
    → IsPermitted p program arguments
    → validate_command p (program ∷ arguments) ≡ ok tt
unfolding validate_command validate_action
validate_of_IsPermitted p program arguments v =
    let interpreted = λ (m : member (base program) interpreters ≡ true).
      (check_inline-All (base program) arguments).1 (v.from_files m) in
    let git =
      λ (g : base program ≡ codes "git"). (check_actions-All p arguments).1 (v.git_permitted g) in
    ground (arith, text_eq_iff (base program) (codes "git"))

-- `ValidateCommand` accepts a command line exactly if it names a program, the program is no
-- wrapper and no denied action, no argument of an interpreter gives code in place of a file, and
-- no argument of git is a denied action.
pub validate_command-IsPermitted :
    (p : Policy) (argv : List Text)
    → (validate_command p argv ≡ ok tt) ↔ (
        (program : Text) × (arguments : List Text) × (argv ≡ program ∷ arguments)
        × IsPermitted p program arguments)
validate_command-IsPermitted p [] =
    (λ h. absurd (unfold validate_command in cc), λ h. absurd (cc h.2))
validate_command-IsPermitted p (program ∷ arguments) = (
  λ h. (program, arguments, refl, IsPermitted-of_validate p program arguments h),
  λ v. rw v.2 (validate_of_IsPermitted p v.0 v.1 v.3),
)
