-- ===== src/Store/Log/Grown.antt =====
-- A log that an event, or the beginning of one, is written behind.
use mathlib.Core.List.{append-nil}
use agent_orchestrator_publi.Base.{
  ℕ, ◌≡◌, ◌≢◌, refl, sym, ap, subst, ◌∙◌, ◌⊎◌, inl, inr, List, [], ◌∷◌, ◌++◌, Text, arith,
}
use agent_orchestrator_publi.Base.Errors.{Error, Result, ok, err, ◌>>=◌, >>=-eq-ok, Result-cases}
use agent_orchestrator_publi.FilePath.Split.{Lacks}
use agent_orchestrator_publi.Store.{Event, Codec}
use agent_orchestrator_publi.Store.Log.{
  newline, cut, drop_cr, tokens, decode_line, decode_lines, decode_events,
}

-- What is relied on of `encoding/json`: the encoding of an event has no newline and no carriage
-- return at its end, it is read back, no part of it that stops early is a value, and nothing may
-- follow a value on its line.
pub record IsFaithful {S : Type 0} (codec : Codec S) : Type 0 where
  pub one_line : (e : Event) (b : Text) → codec.marshal_event e ≡ ok b → Lacks newline b
  pub some_bytes : (e : Event) → codec.marshal_event e ≢ ok []
  pub read_back :
      (e : Event) (b : Text)
      → codec.marshal_event e ≡ ok b
      → codec.unmarshal_event (drop_cr b) ≡ ok e
  pub whole :
      (e : Event) (b p r : Text)
      → codec.marshal_event e ≡ ok b
      → p ++ r ≡ b
      → p ≢ []
      → r ≢ []
      → (x : Error) × (codec.unmarshal_event (drop_cr p) ≡ err x)
  pub alone :
      (e before : Event) (b p q r : Text)
      → codec.marshal_event e ≡ ok b
      → p ++ r ≡ b
      → p ≢ []
      → q ≢ []
      → codec.unmarshal_event (drop_cr q) ≡ ok before
      → (x : Error) × (codec.unmarshal_event (drop_cr (q ++ p)) ≡ err x)
  pub state_read_back :
      (s : S) (b : Text)
      → codec.marshal_state s ≡ ok b
      → codec.unmarshal_state (b ++ (newline ∷ [])) ≡ ok s

-- A text without a newline goes behind the last line.
cut-append : (a b : Text) → Lacks newline b → cut (a ++ b) ≡ ((cut a).0, (cut a).1 ++ b)
unfolding cut
cut-append [] [] l = refl
cut-append [] (c ∷ b) l = ground (arith, cut-append [] b l.1)
cut-append (c ∷ a) b l = ground (arith, cut-append a b l)

-- A newline makes it a line.
cut-append_line :
    (a b : Text)
    → Lacks newline b
    → cut (a ++ (b ++ (newline ∷ []))) ≡ ((cut a).0 ++ (((cut a).1 ++ b) ∷ []), [])
unfolding cut
cut-append_line [] [] l = refl
cut-append_line [] (c ∷ b) l = ground (arith, cut-append_line [] b l.1)
cut-append_line (c ∷ a) b l = ground (arith, cut-append_line a b l)

-- A proper part of a text, or all of it.
part_of : (p r b : Text) (x : ℕ) → p ++ r ≡ b ++ (x ∷ []) → (r ≡ []) ⊎ ((r₀ : Text) × (p ++ r₀ ≡ b))
part_of [] r b x h = inr (b, refl)
part_of (c ∷ []) [] [] x h = inl refl
part_of (c ∷ []) (d ∷ r) [] x h = absurd (ground arith)
part_of (c ∷ d ∷ p) r [] x h = absurd (ground arith)
part_of (c ∷ p) r (d ∷ b) x h = elim (part_of p r b x (ground arith)) [
  | inl e ↦ inl e
  | inr (r₀, e) ↦ inr (r₀, ground arith)
]

Lacks-prefix : (p r : Text) → Lacks newline (p ++ r) → Lacks newline p
Lacks-prefix [] r l = tt
Lacks-prefix (c ∷ p) r l = (l.0, Lacks-prefix p r l.1)

Fails : {A : Type 0} → Result A → Type 0
Fails r = (x : Error) × (r ≡ err x)

module _ {S : Type 0} (codec : Codec S) where
  line_ok :
      (l : Text) {e : Event} → decode_line codec l ≡ ok e → codec.unmarshal_event (drop_cr l) ≡ ok e
  unfolding decode_line
  line_ok l h = ground arith

  line_err :
      (l : Text) {x : Error}
      → codec.unmarshal_event (drop_cr l) ≡ err x
      → Fails (decode_line codec l)
  unfolding decode_line Fails
  line_err l h = elim (Result-cases (decode_line codec l)) [
    | inl (e, k) ↦ absurd (ground arith)
    | inr f ↦ f
  ]

  lines_ok :
      (ls : List Text) (l : Text) {es : List Event} {e : Event}
      → decode_lines codec ls ≡ ok es
      → decode_line codec l ≡ ok e
      → decode_lines codec (ls ++ (l ∷ [])) ≡ ok (es ++ (e ∷ []))
  unfolding decode_lines
  lines_ok [] l h k = ground arith
  lines_ok (m ∷ ls) l {es} {e} h k =
      let (e₁, d, h₁) =
        >>=-eq-ok (decode_line codec m) (λ e. decode_lines codec ls >>= λ es. ok (e ∷ es)) h in
      let (es₁, d₁, h₂) = >>=-eq-ok (decode_lines codec ls) (λ es. ok (e₁ ∷ es)) h₁ in
      rw (d, lines_ok ls l d₁ k)
        (ap (λ (r : Result (List Event)). r >>= λ v. ok (v ++ (e ∷ []))) h₂)

  lines_err :
      (ls : List Text) (l : Text)
      → Fails (decode_line codec l)
      → Fails (decode_lines codec (ls ++ (l ∷ [])))
  unfolding decode_lines Fails
  lines_err [] l (x, k) = (x, ground arith)
  lines_err (m ∷ ls) l f = elim (Result-cases (decode_line codec m)) [
    | inl (e, d) ↦ let (x, g) = lines_err ls l f in (x, rw (d, g) refl)
    | inr (x, d) ↦ (x, rw d refl)
  ]

  last_ok :
      (ls : List Text) (l : Text) {es : List Event}
      → decode_lines codec (ls ++ (l ∷ [])) ≡ ok es
      → (e : Event) × (decode_line codec l ≡ ok e)
  unfolding Fails
  last_ok ls l h = elim (Result-cases (decode_line codec l)) [
    | inl k ↦ k
    | inr f ↦ let (x, g) = lines_err ls l f in absurd (ground arith)
  ]

  -- The events so far and a new one, or none of them for an error.
  abbrev pub Grew : List Event → Event → Result (List Event) → Type 0
  Grew es e r = (r ≡ ok (es ++ (e ∷ []))) ⊎ ((x : Error) × (r ≡ err x))

  module _ (faithful : IsFaithful codec) (e : Event) (b : Text)
      (encoded : codec.marshal_event e ≡ ok b) where
    -- A line of its own.
    own_line :
        (ls : List Text) {es : List Event}
        → decode_lines codec ls ≡ ok es
        → Grew es e (decode_lines codec (ls ++ (b ∷ [])))
    unfolding Fails
    own_line ls h = elim (Result-cases (decode_line codec b)) [
      | inl (e', k) ↦
          let same : e' ≡ e = ground (arith, line_ok b k, faithful.read_back e b encoded) in
          inl (lines_ok ls b h (k ∙ ap ok same))
      | inr f ↦ inr (lines_err ls b f)
    ]

    -- Behind a line that was left without its newline.
    shared_line :
        (ls : List Text) (c : ℕ) (q p r : Text) {es : List Event}
        → p ++ r ≡ b
        → p ≢ []
        → decode_lines codec (ls ++ ((c ∷ q) ∷ [])) ≡ ok es
        → Fails (decode_lines codec (ls ++ (((c ∷ q) ++ p) ∷ [])))
    unfolding Fails
    shared_line ls c q p r part some h =
        let (before, k) = last_ok ls (c ∷ q) h in
        let (x, f) =
          faithful.alone e before b p (c ∷ q) r encoded part some (λ n. cc n) (line_ok (c ∷ q) k) in
        lines_err ls ((c ∷ q) ++ p) (line_err ((c ∷ q) ++ p) f)

    line_grown :
        (ls : List Text) (q : Text) {es : List Event}
        → decode_lines codec (tokens (ls, q)) ≡ ok es
        → Grew es e (decode_lines codec (ls ++ ((q ++ b) ∷ [])))
    unfolding Fails
    line_grown ls [] h = own_line ls h
    line_grown ls (c ∷ q) h =
        inr (
          shared_line ls c q b [] (append-nil b) (λ n. faithful.some_bytes e (encoded ∙ ap ok n)) h)

    part_grown :
        (ls : List Text) (q p r : Text) {es : List Event}
        → p ++ r ≡ b
        → decode_lines codec (tokens (ls, q)) ≡ ok es
        → (decode_lines codec (tokens (ls, q ++ p)) ≡ ok es)
          ⊎ Grew es e (decode_lines codec (tokens (ls, q ++ p)))
    unfolding Fails
    part_grown ls q [] r part h = inl (rw (append-nil q) h)
    part_grown ls [] (c ∷ p) [] {es} part h =
        let same : c ∷ p ≡ b = sym (append-nil (c ∷ p)) ∙ part in
        inr (
          subst (λ (t : Text). Grew es e (decode_lines codec (ls ++ (t ∷ [])))) (sym same)
            (own_line ls h))
    part_grown ls [] (c ∷ p) (d ∷ r) part h =
        let (x, f) = faithful.whole e b (c ∷ p) (d ∷ r) encoded part (λ n. cc n) (λ n. cc n) in
        inr (inr (lines_err ls (c ∷ p) (line_err (c ∷ p) f)))
    part_grown ls (d ∷ q) (c ∷ p) r part h =
        inr (inr (shared_line ls d q (c ∷ p) r part (λ n. cc n) h))

    -- An event that is written whole.
    pub decode_events-append :
        (log : Text) {es : List Event}
        → decode_events codec log ≡ ok es
        → Grew es e (decode_events codec (log ++ (b ++ (newline ∷ []))))
    unfolding decode_events
    decode_events-append log h =
        rw (cut-append_line log b (faithful.one_line e b encoded))
          (line_grown (cut log).0 (cut log).1 h)

    -- An event of which the first bytes are written.
    pub decode_events-append_part :
        (log p r : Text) {es : List Event}
        → p ++ r ≡ b ++ (newline ∷ [])
        → decode_events codec log ≡ ok es
        → (decode_events codec (log ++ p) ≡ ok es) ⊎ Grew es e (decode_events codec (log ++ p))
    unfolding decode_events
    decode_events-append_part log p r {es} part h = elim (part_of p r b newline part) [
      | inl all ↦
          let same : p ≡ b ++ (newline ∷ []) =
            sym (append-nil p) ∙ ap (λ t. p ++ t) (sym all) ∙ part in
          inr (
            subst (λ (t : Text). Grew es e (decode_events codec (log ++ t))) (sym same)
              (decode_events-append log h))
      | inr (r₀, some) ↦
          let lacks =
            Lacks-prefix p r₀ (subst (Lacks newline) (sym some) (faithful.one_line e b encoded)) in
          rw (cut-append log p lacks) (part_grown (cut log).0 (cut log).1 p r₀ some h)
    ]

    torn_line :
        (ls : List Text) (q : Text) {es : List Event}
        → q ≢ []
        → decode_lines codec (tokens (ls, q)) ≡ ok es
        → Fails (decode_lines codec (ls ++ ((q ++ b) ∷ [])))
    unfolding Fails
    torn_line ls [] n h = absurd (n refl)
    torn_line ls (c ∷ q) n h =
        shared_line ls c q b [] (append-nil b) (λ n. faithful.some_bytes e (encoded ∙ ap ok n)) h

    -- An event that is written behind a line without its newline.
    pub decode_events-append_torn :
        (log : Text) {es : List Event}
        → (cut log).1 ≢ []
        → decode_events codec log ≡ ok es
        → (x : Error) × (decode_events codec (log ++ (b ++ (newline ∷ []))) ≡ err x)
    unfolding decode_events Fails
    decode_events-append_torn log n h =
        rw (cut-append_line log b (faithful.one_line e b encoded))
          (torn_line (cut log).0 (cut log).1 n h)
