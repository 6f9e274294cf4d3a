-- ===== src/Policy/Env.antt =====
-- The environment that `FilterEnv` lets through.
use agent_orchestrator_publi.Base.{
  ◌≡◌, refl, ◌&&◌, if◌then◌else◌, Option, none, some, List, [], ◌∷◌, Text, text_eq, text_eq_iff,
  member, lookup, lookup-insert, arith, Option-cases, inl, inr, ◌∙◌,
}
use agent_orchestrator_publi.Policy.{Policy, admit, filter_env_onto, filter_env}

abbrev or_else : Option Text → Option Text → Option Text
or_else (some v) o = some v
or_else none o = o

lookup-admit :
    (p : Policy) (key k : Text) (source result : List (Text × Text))
    → lookup k (admit p key source result) ≡ (
        if text_eq key k && member k p.allowed_env
        then or_else (lookup k source) (lookup k result)
        else lookup k result)
unfolding admit
lookup-admit p key k source result = elim (Option-cases (lookup key source)) [
  | inl absent ↦ ground (arith, text_eq_iff key k)
  | inr (v, found) ↦ ground (arith, text_eq_iff key k, lookup-insert key k v result)
]

lookup-filter_env_onto :
    (p : Policy) (requested : List Text) (source result : List (Text × Text)) (k : Text)
    → lookup k (filter_env_onto p requested source result) ≡ (
        if member k requested && member k p.allowed_env
        then or_else (lookup k source) (lookup k result)
        else lookup k result)
unfolding filter_env_onto member
lookup-filter_env_onto p [] source result k = refl
lookup-filter_env_onto p (key ∷ requested) source result k =
    lookup-filter_env_onto p requested source (admit p key source result) k
    ∙ unfold member in ground (arith, lookup-admit p key k source result)

-- `FilterEnv` gives a variable the value that it has in the source if the variable is both
-- requested and allowed, and leaves out every other variable.
pub lookup-filter_env :
    (p : Policy) (requested : List Text) (source : List (Text × Text)) (k : Text)
    → lookup k (filter_env p requested source)
      ≡ (if member k requested && member k p.allowed_env then lookup k source else none)
unfolding filter_env
lookup-filter_env p requested source k =
    lookup-filter_env_onto p requested source [] k ∙ unfold lookup in ground arith
