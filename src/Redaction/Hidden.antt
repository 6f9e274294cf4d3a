-- ===== src/Redaction/Hidden.antt =====
-- A secret that is replaced does not come back.
use mathlib.Core.List.{append_assoc}
use agent_orchestrator_publi.Base.{
  ℕ, zero, suc, ◌-◌, ◌≡◌, ◌≢◌, refl, sym, ap, ◌∙◌, subst, ◌⊎◌, inl, inr, Bool, true, false,
  if◌then◌else◌, Bool-cases, List, [], ◌∷◌, ◌++◌, Text, codes, length, has_prefix,
  has_prefix-append, member, text_eq, text_eq_iff, arith,
}
use agent_orchestrator_publi.FilePath.Split.{Lacks}
use agent_orchestrator_publi.Redaction.{
  replacement, replace_from, replace_all, Patterns, filter_secrets, longer, new_redactor,
  replace_secrets, redact,
}

-- A text that stands somewhere in another.
abbrev pub Within : Text → Text → Type 0
Within s t = (before : Text) × (after : Text) × (t ≡ before ++ (s ++ after))

-- Parts of a text have been replaced, and the rest copied, byte by byte, from places where `P` holds.
pub data Spliced (P : Text → Type 0) : Text → Text → Type 0 where
  finished : Spliced P [] []
  copied : {c : ℕ} {x y : Text} → P (c ∷ x) → Spliced P x y → Spliced P (c ∷ x) (c ∷ y)
  replaced : {x y : Text} (old : Text) → Spliced P x y → Spliced P (old ++ x) (replacement ++ y)

-- What the theorem asks of a secret: it is not empty, has no bracket, and is no part of the text
-- that replaces it.
pub record IsApart (s : Text) : Type 0 where
  pub given : s ≢ []
  pub no_left : Lacks b'[' s
  pub no_right : Lacks b']' s
  pub elsewhere : ¬ Within s replacement

-- A text that has no closing bracket and begins before one ends before it.
ends_before : (s b u t : Text) → Lacks b']' s → u ++ (b']' ∷ t) ≡ s ++ b → (r : Text) × (u ≡ s ++ r)
ends_before [] b u t l q = (u, refl)
ends_before (d ∷ s) b [] t l q = absurd (ground (arith, l.0))
ends_before (d ∷ s) b (c ∷ u) t l q =
    let (r, e) = ends_before s b u t l.1 (ground arith) in (r, ground arith)

before_or_behind :
    (s u a b t : Text)
    → s ≢ []
    → Lacks b']' s
    → u ++ (b']' ∷ t) ≡ a ++ (s ++ b)
    → Within s u ⊎ ((a' : Text) × (t ≡ a' ++ (s ++ b)))
before_or_behind [] u a b t n l q = absurd (n refl)
before_or_behind (d ∷ s) [] [] b t n l q = absurd (ground (arith, l.0))
before_or_behind (d ∷ s) [] (c ∷ a) b t n l q = inr (a, ground arith)
before_or_behind (d ∷ s) (c ∷ u) [] b t n l q =
    let (r, e) = ends_before (d ∷ s) b (c ∷ u) t l q in inl ([], r, e)
before_or_behind (d ∷ s) (c ∷ u) (x ∷ a) b t n l q =
    elim (before_or_behind (d ∷ s) u a b t n l (ground arith)) [
      | inl (p, r, e) ↦ inl (c ∷ p, r, ap (λ v. c ∷ v) e)
      | inr z ↦ inr z
    ]

module _ {P : Text → Type 0} where
  -- A text without an opening bracket at the beginning of the result has been copied.
  copied_prefix :
      (s b : Text) {x y : Text}
      → Lacks b'[' s
      → Spliced P x y
      → y ≡ s ++ b
      → (b' : Text) × (x ≡ s ++ b')
  copied_prefix [] b {x} l sp q = (x, refl)
  copied_prefix (d ∷ s) b l finished q = absurd (ground arith)
  copied_prefix (d ∷ s) b l (copied {c} p sp) q =
      let (b', e) = copied_prefix s b l.1 sp (ground arith) in (b', ground arith)
  copied_prefix (d ∷ s) b l (replaced old sp) q = absurd (ground (arith, l.0))

  at_start : (s b : Text) {x y : Text} → s ≢ [] → Lacks b'[' s → Spliced P x y → y ≡ s ++ b → P x
  at_start [] b n l sp q = absurd (n refl)
  at_start (d ∷ s) b n l finished q = absurd (ground arith)
  at_start (d ∷ s) b n l (copied p sp) q = p
  at_start (d ∷ s) b n l (replaced old sp) q = absurd (ground (arith, l.0))

  -- A secret in the result has been there before, at a place that was copied.
  located :
      (s a b : Text) {x y : Text}
      → IsApart s
      → Spliced P x y
      → y ≡ a ++ (s ++ b)
      → (a' : Text) × (b' : Text) × (x ≡ a' ++ (s ++ b')) × P (s ++ b')
  located s [] b {x} h sp q =
      let (b', e) = copied_prefix s b h.no_left sp q in
      ([], b', e, subst P e (at_start s b h.given h.no_left sp q))
  located s (c ∷ a) b h finished q = absurd (ground arith)
  located s (c ∷ a) b h (copied {c = d} p sp) q =
      let (a', b', e, k) = located s a b h sp (ground arith) in (d ∷ a', b', ap (λ v. d ∷ v) e, k)
  located s (c ∷ a) b h (replaced {y} old sp) q =
      elim (before_or_behind s (codes "[REDACTED") (c ∷ a) b y h.given h.no_right q) [
        | inl w ↦ absurd (
            h.elsewhere (
              w.0,
              w.1 ++ codes "]",
              ap (λ v. v ++ codes "]") w.2
                  ∙ append_assoc w.0 (s ++ w.1) (codes "]")
                  ∙ ap (λ v. w.0 ++ v) (append_assoc s w.1 (codes "]")),
            ))
        | inr (a₁, e) ↦
            let (a', b', e', k) = located s a₁ b h sp e in
            (old ++ a', b', ap (λ v. old ++ v) e' ∙ sym (append_assoc old a' (s ++ b')), k)
      ]

  -- So a secret that was not there is not there afterwards.
  stays_out : (s : Text) {x y : Text} → IsApart s → Spliced P x y → ¬ Within s x → ¬ Within s y
  stays_out s h sp n (a, b, q) = let (a', b', e, _) = located s a b h sp q in n (a', b', e)

-- What is left to say once the first bytes are skipped.
abbrev Skipped : (Text → Type 0) → ℕ → Text → Text → Type 0
Skipped P zero x y = Spliced P x y
Skipped P (suc n) [] y = Spliced P [] y
Skipped P (suc n) (c ∷ x) y = Skipped P n x y

behind-Skipped :
    {P : Text → Type 0} (n : ℕ) (x y : Text)
    → Skipped P n x y
    → (old : Text) × (x' : Text) × (x ≡ old ++ x') × Spliced P x' y
behind-Skipped zero x y sp = ([], x, refl, sp)
behind-Skipped (suc n) [] y sp = ([], [], refl, sp)
behind-Skipped (suc n) (c ∷ x) y sp =
    let (old, x', e, k) = behind-Skipped n x y sp in (c ∷ old, x', ap (λ v. c ∷ v) e, k)

-- No secret begins at a place that is copied.
abbrev Passed : Text → Text → Type 0
Passed secret x = has_prefix x secret ≡ false

replace_from-Skipped :
    (n : ℕ) (secret x : Text) → Skipped (Passed secret) n x (replace_from n secret x)
unfolding replace_from
replace_from-Skipped zero secret [] = finished
replace_from-Skipped (suc n) secret [] = finished
replace_from-Skipped (suc n) secret (c ∷ x) = replace_from-Skipped n secret x
replace_from-Skipped zero secret (c ∷ x) =
    go (has_prefix (c ∷ x) secret) refl (replace_from-Skipped (length secret - 1) secret x)
      (replace_from-Skipped zero secret x)
  where
    go :
        (b : Bool)
        → has_prefix (c ∷ x) secret ≡ b
        → Skipped (Passed secret) (length secret - 1) x (replace_from (length secret - 1) secret x)
        → Spliced (Passed secret) x (replace_from zero secret x)
        → Spliced (Passed secret) (c ∷ x) (
            if b
            then replacement ++ replace_from (length secret - 1) secret x
            else c ∷ replace_from zero secret x)
    go true q behind kept =
        let (old, x', e, sp) =
          behind-Skipped (length secret - 1) x (replace_from (length secret - 1) secret x) behind in
        subst
          (λ v.
            Spliced (Passed secret) (c ∷ v)
              (replacement ++ replace_from (length secret - 1) secret x))
          (sym e) (replaced (c ∷ old) sp)
    go false q behind kept = copied q kept

replace_all-Spliced : (x secret : Text) → Spliced (Passed secret) x (replace_all x secret)
unfolding replace_all
replace_all-Spliced x secret = replace_from-Skipped zero secret x

-- `strings.ReplaceAll` leaves nothing of a secret that is apart.
replaced_out : (s x : Text) → IsApart s → ¬ Within s (replace_all x s)
replaced_out s x h (a, b, q) =
    let (a', b', e, k) = located s a b h (replace_all-Spliced x s) q in
    absurd (cc (has_prefix-append s b', k))

stays_out_of_all :
    (s : Text) (secrets : List Text) (x : Text)
    → IsApart s
    → ¬ Within s x
    → ¬ Within s (replace_secrets secrets x)
unfolding replace_secrets
stays_out_of_all s [] x h n = n
stays_out_of_all s (t ∷ secrets) x h n =
    stays_out_of_all s secrets (replace_all x t) h (stays_out s h (replace_all-Spliced x t) n)

replace_secrets-hides :
    (s : Text) (secrets : List Text) (x : Text)
    → IsApart s
    → member s secrets ≡ true
    → ¬ Within s (replace_secrets secrets x)
unfolding replace_secrets member
replace_secrets-hides s [] x h m = absurd (cc m)
replace_secrets-hides s (t ∷ secrets) x h m = elim (Bool-cases (text_eq t s)) [
  | inl q ↦
      stays_out_of_all s secrets (replace_all x t) h (
        subst (λ v. ¬ Within s (replace_all x v)) (sym ((text_eq_iff t s).0 q))
          (replaced_out s x h))
  | inr q ↦ replace_secrets-hides s secrets (replace_all x t) h (ground (arith, q, m))
]

member-filter_secrets :
    (s : Text) (secrets : List Text)
    → s ≢ []
    → member s secrets ≡ true
    → member s (filter_secrets secrets) ≡ true
unfolding filter_secrets member
member-filter_secrets s [] n m = m
member-filter_secrets s ([] ∷ secrets) n m = elim (Bool-cases (text_eq [] s)) [
  | inl q ↦ absurd (n (sym ((text_eq_iff [] s).0 q)))
  | inr q ↦ member-filter_secrets s secrets n (ground (arith, q, m))
]
member-filter_secrets s ((c ∷ t) ∷ secrets) n m = ground (arith, member-filter_secrets s secrets n)

-- What is relied on of the patterns: they replace parts of a text by the replacement, and copy the
-- rest.
pub record IsReplacing (patterns : Patterns) : Type 0 where
  pub bearer : (x : Text) → Spliced (λ _. Unit) x (patterns.bearer x)
  pub credential : (x : Text) → Spliced (λ _. Unit) x (patterns.credential x)
  pub private_key : (x : Text) → Spliced (λ _. Unit) x (patterns.private_key x)

-- If a redactor is made for some secrets and its sorting loses none of them, then whatever it
-- redacts, no secret that is apart from the replacement stands anywhere in what it returns.
pub redact-hides :
    (patterns : Patterns)
    → IsReplacing patterns
    → (sort_slice : (Text → Text → Bool) → List Text → List Text)
    → ((s : Text) (ts : List Text) → member s (sort_slice longer ts) ≡ member s ts)
    → (secrets : List Text) (s : Text) → member s secrets ≡ true
    → IsApart s
    → (input : Text) → ¬ Within s (redact patterns (new_redactor sort_slice secrets) input)
unfolding redact new_redactor
redact-hides patterns r sort_slice keeps secrets s m h input =
    let listed = keeps s (filter_secrets secrets) ∙ member-filter_secrets s secrets h.given m in
    let first =
      replace_secrets-hides s (sort_slice longer (filter_secrets secrets)) input h listed in
    stays_out s h (r.private_key _)
      (stays_out s h (r.credential _) (stays_out s h (r.bearer _) first))
