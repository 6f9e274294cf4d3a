-- ===== src/Runtime/Process/Sorted.antt =====
-- The order of `sort.Strings`, and the environment that a program is started with.
use agent_orchestrator_publi.Base.{
  ◌≡◌, refl, sym, ap, ◌∙◌, ◌↔◌, inl, inr, true, false, ◌||◌, Bool-cases, Option, none, some, List,
  [], ◌∷◌, ◌++◌, map, Text, All, lookup, member, text_eq, arith,
}
use agent_orchestrator_publi.Runtime.Process.{
  text_le, insert_sorted, sort_texts, key_of, binding, environment,
}

abbrev pub IsSorted : List Text → Type 0
IsSorted [] = Unit
IsSorted (k ∷ ks) = All (λ j. text_le k j ≡ true) ks × IsSorted ks

text_le-total : (s t : Text) → text_le s t ≡ false → text_le t s ≡ true
unfolding text_le
text_le-total [] t h = absurd (cc h)
text_le-total (a ∷ s) [] h = refl
text_le-total (a ∷ s) (b ∷ t) h = ground (arith, text_le-total s t)

text_le_trans : (s t u : Text) → text_le s t ≡ true → text_le t u ≡ true → text_le s u ≡ true
unfolding text_le
text_le_trans [] t u h k = refl
text_le_trans (a ∷ s) [] u h k = absurd (cc h)
text_le_trans (a ∷ s) (b ∷ t) [] h k = absurd (cc k)
text_le_trans (a ∷ s) (b ∷ t) (c ∷ u) h k = ground (arith, text_le_trans s t u)

below :
    (k j : Text) (ks : List Text)
    → text_le k j ≡ true
    → All (λ i. text_le j i ≡ true) ks
    → All (λ i. text_le k i ≡ true) ks
below k j [] h a = tt
below k j (i ∷ ks) h a = (text_le_trans k j i h a.0, below k j ks h a.1)

All-insert_sorted :
    (k j : Text) (ks : List Text)
    → text_le k j ≡ true
    → All (λ i. text_le k i ≡ true) ks
    → All (λ i. text_le k i ≡ true) (insert_sorted j ks)
unfolding insert_sorted
All-insert_sorted k j [] h a = (h, tt)
All-insert_sorted k j (i ∷ ks) h a = elim (Bool-cases (text_le j i)) [
  | inl q ↦ rw q (h, a)
  | inr q ↦ rw q (a.0, All-insert_sorted k j ks h a.1)
]

insert_sorted-IsSorted : (k : Text) (ks : List Text) → IsSorted ks → IsSorted (insert_sorted k ks)
unfolding insert_sorted
insert_sorted-IsSorted k [] s = (tt, tt)
insert_sorted-IsSorted k (j ∷ ks) s = elim (Bool-cases (text_le k j)) [
  | inl q ↦ rw q ((q, below k j ks q s.0), s)
  | inr q ↦
      rw q (All-insert_sorted j k ks (text_le-total k j q) s.0, insert_sorted-IsSorted k ks s.1)
]

pub sort_texts-IsSorted : (ks : List Text) → IsSorted (sort_texts ks)
unfolding sort_texts
sort_texts-IsSorted [] = tt
sort_texts-IsSorted (k ∷ ks) = insert_sorted-IsSorted k (sort_texts ks) (sort_texts-IsSorted ks)

member-insert_sorted :
    (id k : Text) (ks : List Text) → member id (insert_sorted k ks) ≡ (text_eq k id || member id ks)
unfolding member insert_sorted
member-insert_sorted id k [] = refl
member-insert_sorted id k (j ∷ js) = ground (arith, member-insert_sorted id k js)

pub member-sort_texts : (id : Text) (ks : List Text) → member id (sort_texts ks) ≡ member id ks
unfolding member sort_texts
member-sort_texts id [] = refl
member-sort_texts id (k ∷ ks) =
    member-insert_sorted id k (sort_texts ks)
    ∙ ap (λ b. text_eq k id || b) (member-sort_texts id ks)

abbrev Set : Text → List (Text × Text) → Type 0
Set key values = (value : Text) × (lookup key values ≡ some value)

member-keys :
    (key : Text) (values : List (Text × Text))
    → (member key (map key_of values) ≡ true) ↔ Set key values
unfolding member lookup
member-keys key [] = (λ h. absurd (cc h), λ s. absurd (cc s.1))
member-keys key ((k, v) ∷ values) =
    let (there, back) = member-keys key values in
    elim (Bool-cases (text_eq k key)) [
      | inl q ↦ (λ h. (v, ground (arith, q)), λ s. ground (arith, q))
      | inr q ↦ (
        λ h. let (value, e) = there (ground (arith, q, h)) in (value, ground (arith, q, e)),
        λ s. ground (arith, q, back (s.0, ground (arith, q, s.1))),
      )
    ]

-- A program is started with `KEY=value` for each key of the map and for no other, with the value
-- that the map has for it, in the byte order of the keys.
pub environment-IsSorted :
    (values : List (Text × Text))
    → (keys : List Text) × (environment values ≡ map (binding values) keys)
      × IsSorted keys
      × ((key : Text)
          → (member key keys ≡ true) ↔ ((value : Text) × (lookup key values ≡ some value)))
      × ((key value : Text)
          → lookup key values ≡ some value
          → binding values key ≡ key ++ (b'=' ∷ value))
unfolding environment
environment-IsSorted values =
    let keys = sort_texts (map key_of values) in
    (
      keys,
      refl,
      sort_texts-IsSorted (map key_of values),
      λ key.
          let (there, back) = member-keys key values in
          (
            λ h. there (sym (member-sort_texts key (map key_of values)) ∙ h),
            λ s. member-sort_texts key (map key_of values) ∙ back s,
          ),
      λ key value q.
          ap
            (λ (o : Option Text).
              key ++ (b'=' ∷ elim o as (λ _. Text) [ some value ↦ value | none ↦ [] ]))
            q,
    )
