-- ===== src/Domain/Task/Inside.antt =====
-- Allowed paths stay inside the repository: the test on the cleaned text agrees with a walk over
-- the path's elements that never goes above the directory it starts in.
use mathlib.Core.List.{reverse-append}
use agent_orchestrator_publi.Base.{
  ℕ, zero, suc, ◌≡◌, refl, ap, Bool, true, false, not, Bool-cases, ◌||◌, List, [], ◌∷◌, ◌++◌,
  reverse, length, All, Text, text_eq, has_prefix, arith, inl, inr, Option, none, some,
  Option-cases, ◌⊎◌,
}
use agent_orchestrator_publi.FilePath.Split.{split, join, Lacks, split-Lacks}
use agent_orchestrator_publi.FilePath.Clean.{
  Element, skip, up, name, element, up_from, keep, resolve, render, clean, clean_elements, slash,
  dot_dot, is_abs,
}
use agent_orchestrator_publi.Domain.Task.{escapes}

-- Where an element leads from `depth` directories below the start, if not above it.
descend : ℕ → Text → Option ℕ
descend depth e = elim (element e) [
  | skip ↦ some depth
  | name ↦ some (suc depth)
  | up ↦ elim depth [ zero ↦ none | suc d ↦ some d ]
]

unfoldable pub stays : ℕ → List Text → Bool
unfolding descend
stays depth [] = true
stays depth (e ∷ es) = elim (descend depth e) [ none ↦ false | some d ↦ stays d es ]

abbrev IsName : Text → Type 0
IsName e = (element e ≡ name) × Lacks slash e

-- The elements kept end in a `..` that no name can take away.
abbrev EndsUp : List Text → Type 0
EndsUp kept = (names : List Text) × (kept ≡ names ++ (dot_dot ∷ []))

up_from-EndsUp : (kept : List Text) → EndsUp kept → EndsUp (up_from false kept)
unfolding up_from element
up_from-EndsUp kept ([], e) = rw e (dot_dot ∷ [], refl)
up_from-EndsUp kept (last ∷ names, e) =
    rw e
      (elim (element last)
        as (λ k. EndsUp (elim k [
          | up ↦ dot_dot ∷ last ∷ names ++ (dot_dot ∷ [])
          | _ ↦ names ++ (dot_dot ∷ [])
        ])) [ up ↦ (dot_dot ∷ last ∷ names, refl) | skip ↦ (names, refl) | name ↦ (names, refl) ])

keep-EndsUp : (kept : List Text) (e : Text) → EndsUp kept → EndsUp (keep false kept e)
unfolding keep
keep-EndsUp kept e h =
    elim (element e)
      as (λ k. EndsUp (elim k [ skip ↦ kept | up ↦ up_from false kept | name ↦ e ∷ kept ])) [
        | skip ↦ h
        | up ↦ up_from-EndsUp kept h
        | name ↦ (e ∷ h.0, ap (λ k. e ∷ k) h.1)
      ]

resolve-EndsUp : (es kept : List Text) → EndsUp kept → EndsUp (resolve false kept es)
unfolding resolve
resolve-EndsUp [] kept h = h
resolve-EndsUp (e ∷ es) kept h = resolve-EndsUp es (keep false kept e) (keep-EndsUp kept e h)

Element-cases : (k : Element) → (k ≡ skip) ⊎ ((k ≡ up) ⊎ (k ≡ name))
Element-cases skip = inl refl
Element-cases up = inr (inl refl)
Element-cases name = inr (inr refl)

keep_skip : (kept : List Text) (e : Text) → element e ≡ skip → keep false kept e ≡ kept
unfolding keep
keep_skip kept e k = rw (k, keep)

keep_up : (kept : List Text) (e : Text) → element e ≡ up → keep false kept e ≡ up_from false kept
unfolding keep
keep_up kept e k = rw (k, keep)

keep_name : (kept : List Text) (e : Text) → element e ≡ name → keep false kept e ≡ e ∷ kept
unfolding keep
keep_name kept e k = rw (k, keep)

up_from-name :
    (last : Text) (kept : List Text) → element last ≡ name → up_from false (last ∷ kept) ≡ kept
unfolding up_from
up_from-name last kept k = rw (k, up_from)

-- While the walk stays, the elements kept are names, one for each directory of depth.
keep_staying :
    (kept : List Text) (e : Text) (d : ℕ)
    → All IsName kept
    → Lacks slash e
    → descend (length kept) e ≡ some d
    → All IsName (keep false kept e) × (length (keep false kept e) ≡ d)
unfolding descend
keep_staying kept e d names lacks h = elim (Element-cases (element e)) [
  | inl k ↦ rw (keep_skip kept e k) (names, ground arith)
  | inr (inl k) ↦ rw (keep_up kept e k) (popped kept names (ground arith))
  | inr (inr k) ↦ rw (keep_name kept e k) (((k, lacks), names), ground arith)
]
  where
    popped :
        (kept : List Text)
        → All IsName kept
        → elim (length kept) [ zero ↦ none | suc n ↦ some n ] ≡ some d
        → All IsName (up_from false kept) × (length (up_from false kept) ≡ d)
    popped [] names h = absurd (ground arith)
    popped (last ∷ kept) names h = rw (up_from-name last kept names.0.0) (names.1, ground arith)

-- Where it leaves, nothing was kept, and a `..` is.
keep_leaving :
    (kept : List Text) (e : Text) → descend (length kept) e ≡ none → EndsUp (keep false kept e)
unfolding descend up_from
keep_leaving [] e h = rw (keep_up [] e (ground arith)) ([], refl)
keep_leaving (last ∷ kept) e h = absurd (ground arith)

resolve_staying :
    (es kept : List Text)
    → All IsName kept
    → All (Lacks slash) es
    → stays (length kept) es ≡ true
    → All IsName (resolve false kept es)
unfolding stays resolve
resolve_staying [] kept names lacks h = names
resolve_staying (e ∷ es) kept names lacks h = elim (Option-cases (descend (length kept) e)) [
  | inl leaves ↦ absurd (ground arith)
  | inr (d, at) ↦
      let (names', depth) = keep_staying kept e d names lacks.0 at in
      resolve_staying es (keep false kept e) names' lacks.1 (rw depth (ground arith))
]

resolve_leaving :
    (es kept : List Text)
    → All IsName kept
    → All (Lacks slash) es
    → stays (length kept) es ≡ false
    → EndsUp (resolve false kept es)
unfolding stays resolve
resolve_leaving [] kept names lacks h = absurd (ground arith)
resolve_leaving (e ∷ es) kept names lacks h = elim (Option-cases (descend (length kept) e)) [
  | inl leaves ↦ resolve-EndsUp es (keep false kept e) (keep_leaving kept e leaves)
  | inr (d, at) ↦
      let (names', depth) = keep_staying kept e d names lacks.0 at in
      resolve_leaving es (keep false kept e) names' lacks.1 (rw depth (ground arith))
]

Bool-false : {b : Bool} → (b ≡ true → ⊥) → b ≡ false
Bool-false {b = true} h = absurd (h refl)
Bool-false {b = false} h = refl

-- The test of `validateAllowedPaths` on the rendered text of the elements.
abbrev points_up : Text → Bool
points_up path = text_eq path dot_dot || has_prefix path (dot_dot ++ (slash ∷ []))

name-no_dots : (e rest : Text) → IsName e → points_up (e ++ (slash ∷ rest)) ≡ false
unfolding element text_eq has_prefix
name-no_dots [] rest n = absurd (ground arith)
name-no_dots (a ∷ []) rest n = ground arith
name-no_dots (a ∷ b ∷ []) rest n = ground arith
name-no_dots (a ∷ b ∷ c ∷ e) rest n = ground arith

name-no_dots_alone : (e : Text) → IsName e → points_up e ≡ false
unfolding element text_eq has_prefix
name-no_dots_alone [] n = absurd (ground arith)
name-no_dots_alone (a ∷ []) n = ground arith
name-no_dots_alone (a ∷ b ∷ []) n = ground arith
name-no_dots_alone (a ∷ b ∷ c ∷ e) n = ground arith

render_names : (es : List Text) → All IsName es → points_up (render false es) ≡ false
unfolding render text_eq has_prefix
render_names [] n = refl
render_names (e ∷ []) n = name-no_dots_alone e n.0
render_names (e ∷ f ∷ es) n = name-no_dots e (join (slash ∷ []) (f ∷ es)) n.0

render_up : (es : List Text) → points_up (render false (dot_dot ∷ es)) ≡ true
unfolding render text_eq has_prefix
render_up [] = refl
render_up (e ∷ es) = refl

All-append {ℓ κ} :
    {A : Type ℓ} (P : A → Type κ) (xs ys : List A) → All P xs → All P ys → All P (xs ++ ys)
All-append P [] ys a b = b
All-append P (x ∷ xs) ys a b = (a.0, All-append P xs ys a.1 b)

All-reverse {ℓ κ} : {A : Type ℓ} (P : A → Type κ) (xs : List A) → All P xs → All P (reverse xs)
All-reverse P [] a = a
All-reverse P (x ∷ xs) a =
    rw (reverse-append (x ∷ []) xs)
      (All-append P (reverse xs) (x ∷ []) (All-reverse P xs a.1) (a.0, tt))

escapes_relative :
    (path : Text)
    → is_abs path ≡ false
    → escapes path ≡ points_up (render false (reverse (resolve false [] (split slash path))))
unfolding escapes clean clean_elements
escapes_relative path relative = rw relative

inside_names :
    (es : List Text)
    → All (Lacks slash) es
    → stays 0 es ≡ true
    → points_up (render false (reverse (resolve false [] es))) ≡ true
    → ⊥
inside_names es lacks inside h =
    let none_up =
      render_names _
        (All-reverse IsName (resolve false [] es) (resolve_staying es [] tt lacks inside)) in
    cc

outside_up :
    (es : List Text)
    → All (Lacks slash) es
    → stays 0 es ≡ false
    → points_up (render false (reverse (resolve false [] es))) ≡ true
outside_up es lacks outside =
    let (names, e) = resolve_leaving es [] tt lacks outside in
    rw (e, reverse-append names (dot_dot ∷ [])) (render_up (reverse names))

-- A relative path is refused exactly if the walk over its elements leaves the repository.
pub escapes-stays :
    (path : Text) → is_abs path ≡ false → escapes path ≡ not (stays 0 (split slash path))
escapes-stays path relative =
    let lacks = split-Lacks slash path in
    elim (Bool-cases (stays 0 (split slash path))) [
      | inl inside ↦
          rw (escapes_relative path relative, inside, Bool-false (inside_names _ lacks inside))
      | inr outside ↦ rw (escapes_relative path relative, outside, outside_up _ lacks outside)
    ]
