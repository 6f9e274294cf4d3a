-- ===== src/Tests/Redaction.antt =====
-- The redactor on a concrete text.
use agent_orchestrator_publi.Base.{
  ℕ, ◌≡◌, refl, Bool, true, ◌||◌, if◌then◌else◌, List, [], ◌∷◌, ◌++◌, ◌∙◌, ap, Text, codes, member,
  text_eq, has_prefix, arith,
}
use agent_orchestrator_publi.FilePath.Split.{Lacks}
use agent_orchestrator_publi.Redaction
use agent_orchestrator_publi.Redaction.{Patterns, longer, new_redactor, redact}
use agent_orchestrator_publi.Redaction.Hidden.{
  Within, Spliced, finished, copied, replaced, IsApart, IsReplacing, redact-hides,
}

unfoldable insert : (Text → Text → Bool) → Text → List Text → List Text
insert less k [] = k ∷ []
insert less k (j ∷ js) = let rest = insert less k js in if less k j then k ∷ j ∷ js else j ∷ rest

unfoldable sort : (Text → Text → Bool) → List Text → List Text
unfolding insert
sort less [] = []
sort less (k ∷ ks) = insert less k (sort less ks)

member-insert :
    (less : Text → Text → Bool) (s k : Text) (ks : List Text)
    → member s (insert less k ks) ≡ (text_eq k s || member s ks)
unfolding member insert
member-insert less s k [] = refl
member-insert less s k (j ∷ js) = ground (arith, member-insert less s k js)

member-sort : (s : Text) (ks : List Text) → member s (sort longer ks) ≡ member s ks
unfolding member sort
member-sort s [] = refl
member-sort s (k ∷ ks) =
    member-insert longer s k (sort longer ks) ∙ ap (λ b. text_eq k s || b) (member-sort s ks)

copy : (x : Text) → Spliced (λ _. Unit) x x
copy [] = finished
copy (c ∷ x) = copied tt (copy x)

-- The first pattern is taken to match the empty text at the beginning.
abbrev patterns : Patterns
patterns = record {
  bearer = λ x. codes "[REDACTED]" ++ x;
  credential = λ x. x;
  private_key = λ x. x;
}

patterns-IsReplacing : IsReplacing patterns
patterns-IsReplacing = record {
  bearer = λ x. replaced [] (copy x);
  credential = copy;
  private_key = copy;
}

abbrev secrets : List Text
secrets = codes "k1" ∷ [] ∷ codes "sk-k1" ∷ []

abbrev log : Text
log = codes "a sk-k1 k1k1 b"

-- The longer secret goes first.
redacts :
    redact patterns (new_redactor sort secrets) log
    ≡ codes "[REDACTED]a [REDACTED] [REDACTED][REDACTED] b"
unfolding redact new_redactor Redaction.filter_secrets Redaction.replace_secrets
    Redaction.replace_all Redaction.replace_from sort has_prefix
redacts = refl

listed : member (codes "k1") secrets ≡ true
unfolding member text_eq
listed = refl

absent : (c : ℕ) (a r t : Text) → Lacks c t → t ≡ a ++ (c ∷ r) → ⊥
absent c [] r [] l q = cc q
absent c [] r (d ∷ t) l q = absurd (ground (arith, l.0))
absent c (x ∷ a) r [] l q = cc q
absent c (x ∷ a) r (d ∷ t) l q = absent c a r t l.1 (cc q)

k_lacking : Lacks b'k' (codes "[REDACTED]")
k_lacking = (refl, (refl, (refl, (refl, (refl, (refl, (refl, (refl, (refl, (refl, tt))))))))))

key-IsApart : IsApart (codes "k1")
key-IsApart = record {
  given = λ e. cc e;
  no_left = (refl, (refl, tt));
  no_right = (refl, (refl, tt));
  elsewhere = λ w. absent b'k' w.0 (codes "1" ++ w.1) (codes "[REDACTED]") k_lacking w.2;
}

redact-hides_example : ¬ Within (codes "k1") (redact patterns (new_redactor sort secrets) log)
redact-hides_example =
    redact-hides patterns patterns-IsReplacing sort member-sort secrets (codes "k1") listed
      key-IsApart log
