-- ===== src/FilePath/Last.antt =====
-- The last byte of a joined path is that of its name: paths with different ends are different.
use mathlib.Core.List.{reverse-append, append_assoc}
use agent_orchestrator_publi.Base.{
  ℕ, ◌≡◌, refl, sym, ap, ◌∙◌, Bool, true, false, ◌==◌, Bool-cases, inl, inr, List, [], ◌∷◌, ◌++◌,
  reverse, Text, arith,
}
use agent_orchestrator_publi.FilePath.Split.{split, join, Lacks}
use agent_orchestrator_publi.FilePath.Clean.{
  slash, is_abs, Element, element, up_from, keep, resolve, clean_elements, render, clean, join_path,
}

unfoldable pub last_byte : Text → ℕ
last_byte [] = 0
last_byte (c ∷ []) = c
last_byte (c ∷ d ∷ s) = last_byte (d ∷ s)

pub last_byte-append : (a s : Text) (c : ℕ) → last_byte (a ++ (c ∷ s)) ≡ last_byte (c ∷ s)
unfolding last_byte
last_byte-append [] s c = refl
last_byte-append (a ∷ []) s c = refl
last_byte-append (a ∷ b ∷ t) s c = last_byte-append (b ∷ t) s c

split_one : (sep : ℕ) (s : Text) → Lacks sep s → split sep s ≡ s ∷ []
unfolding split
split_one sep [] l = refl
split_one sep (c ∷ s) l = rw (l.0, split_one sep s l.1) refl

split_shape : (sep : ℕ) (s : Text) → (p : Text) × (ps : List Text) × (split sep s ≡ p ∷ ps)
unfolding split
split_shape sep [] = ([], [], refl)
split_shape sep (c ∷ s) =
    let (p, ps, h) = split_shape sep s in
    elim (Bool-cases (c == sep)) [
      | inl e ↦ ([], p ∷ ps, rw (e, h) refl)
      | inr e ↦ (c ∷ p, ps, rw (e, h) refl)
    ]

split-append : (sep : ℕ) (a b : Text) → split sep (a ++ (sep ∷ b)) ≡ split sep a ++ split sep b
unfolding split
split-append sep [] b = ground arith
split-append sep (c ∷ a) b =
    let (p, ps, h) = split_shape sep a in
    elim (Bool-cases (c == sep)) [
      | inl e ↦ rw (e, split-append sep a b) refl
      | inr e ↦ rw (e, split-append sep a b, h) refl
    ]

resolve-append :
    (r : Bool) (kept xs ys : List Text)
    → resolve r kept (xs ++ ys) ≡ resolve r (resolve r kept xs) ys
unfolding resolve
resolve-append r kept [] ys = refl
resolve-append r kept (x ∷ xs) ys = resolve-append r (keep r kept x) xs ys

join_last :
    (sep : Text) (xs : List Text) (e : Text) → (pre : Text) × (join sep (xs ++ (e ∷ [])) ≡ pre ++ e)
unfolding join
join_last sep [] e = ([], refl)
join_last sep (x ∷ []) e = (x ++ sep, sym (append_assoc x sep e))
join_last sep (x ∷ y ∷ xs) e =
    let (pre, h) = join_last sep (y ∷ xs) e in
    (
      x ++ (sep ++ pre),
      ap (λ t. x ++ (sep ++ t)) h
          ∙ ap (λ t. x ++ t) (sym (append_assoc sep pre e))
          ∙ sym (append_assoc x (sep ++ pre) e),
    )

render_last :
    (r : Bool) (xs : List Text) (e : Text) → (pre : Text) × (render r (xs ++ (e ∷ [])) ≡ pre ++ e)
unfolding render
render_last true xs e =
    let (pre, h) = join_last (slash ∷ []) xs e in (slash ∷ pre, ap (λ t. slash ∷ t) h)
render_last false [] e = join_last (slash ∷ []) [] e
render_last false (x ∷ xs) e = join_last (slash ∷ []) (x ∷ xs) e

module _ (c : ℕ) (name : Text) (lacks : Lacks slash (c ∷ name))
    (named : element (c ∷ name) ≡ Element.name) where
  kept_last : (r : Bool) (kept : List Text) → resolve r kept ((c ∷ name) ∷ []) ≡ (c ∷ name) ∷ kept
  unfolding resolve keep
  kept_last r kept =
      ap
        (λ (x : Element). elim x [
          | Element.skip ↦ kept
          | Element.up ↦ up_from r kept
          | Element.name ↦ (c ∷ name) ∷ kept
        ])
        named

  clean_last :
      (path : Text) (xs : List Text)
      → split slash path ≡ xs ++ ((c ∷ name) ∷ [])
      → last_byte (clean path) ≡ last_byte (c ∷ name)
  unfolding clean clean_elements
  clean_last path xs h =
      let r = is_abs path in
      let k = resolve r [] xs in
      let found : resolve r [] (split slash path) ≡ (c ∷ name) ∷ k =
        ap (resolve r []) h ∙ resolve-append r [] xs ((c ∷ name) ∷ []) ∙ kept_last r k in
      let (pre, e) = render_last r (reverse k) (c ∷ name) in
      ap (λ es. last_byte (render r (reverse es))) found
      ∙ ap (λ es. last_byte (render r es)) (reverse-append ((c ∷ name) ∷ []) k)
      ∙ ap last_byte e
      ∙ last_byte-append pre name c

  pub last_byte-join_path :
      (dir : Text) → last_byte (join_path dir (c ∷ name)) ≡ last_byte (c ∷ name)
  unfolding join_path
  last_byte-join_path [] = clean_last (c ∷ name) [] (split_one slash (c ∷ name) lacks)
  last_byte-join_path (d ∷ dir) =
      clean_last ((d ∷ dir) ++ (slash ∷ c ∷ name)) (split slash (d ∷ dir)) (
        split-append slash (d ∷ dir) (c ∷ name)
        ∙ ap (λ ps. split slash (d ∷ dir) ++ ps) (split_one slash (c ∷ name) lacks))
