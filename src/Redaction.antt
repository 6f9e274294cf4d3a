-- ===== src/Redaction.antt =====
-- internal/redaction/redactor.go: the secrets that are replaced in what is kept as evidence.
pub mod Hidden
use agent_orchestrator_publi.Base.{
  ℕ, zero, suc, ◌-◌, Bool, true, false, not, ltb, if◌then◌else◌, List, [], ◌∷◌, ◌++◌, Text, codes,
  length, is_empty, has_prefix,
}

abbrev pub replacement : Text
replacement = codes "[REDACTED]"

-- `strings.ReplaceAll(input, secret, replacement)` for a secret that is not empty, behind the first
-- bytes of the input, which belong to a secret that has been replaced.
unfoldable pub replace_from : ℕ → Text → Text → Text
unfolding has_prefix
replace_from skip secret [] = []
replace_from (suc skip) secret (c ∷ s) = replace_from skip secret s
replace_from zero secret (c ∷ s) =
    let behind = replace_from (length secret - 1) secret s in
    let kept = replace_from zero secret s in
    if has_prefix (c ∷ s) secret then replacement ++ behind else c ∷ kept

unfoldable pub replace_all : Text → Text → Text
unfolding replace_from
replace_all input secret = replace_from 0 secret input

-- `ReplaceAllString` for the three patterns, with their replacements.
pub record Patterns : Type 0 where
  pub bearer : Text → Text
  pub credential : Text → Text
  pub private_key : Text → Text

unfoldable pub filter_secrets : List Text → List Text
filter_secrets [] = []
filter_secrets (secret ∷ secrets) =
    let rest = filter_secrets secrets in if not (is_empty secret) then secret ∷ rest else rest

abbrev pub longer : Text → Text → Bool
longer a b = ltb (length b) (length a)

-- `New`; `sort.Slice` leaves the order of secrets of one length open.
unfoldable pub new_redactor : ((Text → Text → Bool) → List Text → List Text) → List Text → List Text
unfolding filter_secrets
new_redactor sort_slice secrets = sort_slice longer (filter_secrets secrets)

-- The loop of `Redact`.
unfoldable pub replace_secrets : List Text → Text → Text
unfolding replace_all
replace_secrets [] output = output
replace_secrets (secret ∷ secrets) output = replace_secrets secrets (replace_all output secret)

unfoldable pub redact : Patterns → List Text → Text → Text
unfolding replace_secrets
redact patterns secrets input =
    patterns.private_key (patterns.credential (patterns.bearer (replace_secrets secrets input)))
