-- ===== src/Tests/Table.antt =====
-- An encoding of the members of a list, each by one byte, that is read back.
use agent_orchestrator_publi.Base.{
  ℕ, suc, ◌≤◌, ◌≡◌, ◌≢◌, refl, sym, ap, ◌∙◌, subst, ◌==◌, if◌then◌else◌, List, [], ◌∷◌, ◌++◌, Text,
  codes, text_discrete, arith,
}
use agent_orchestrator_publi.Base.Errors.{Result, ok, err, external}
use native.Mathlib.Decide.{ℕ_discrete}
use agent_orchestrator_publi.Domain.Run.{RunState}
use agent_orchestrator_publi.Policy.{ExecutionMode}
use agent_orchestrator_publi.FilePath.Split.{Lacks}
use agent_orchestrator_publi.Store.{Event, Codec}
use agent_orchestrator_publi.Store.Log.{newline, drop_cr}
use agent_orchestrator_publi.Store.Log.Grown.{IsFaithful}
use agent_orchestrator_publi.Orchestrator.{Run}

module _ {A : Type 0} (same : Discrete A) where
  unfoldable pub encode : ℕ → List A → A → Result Text
  encode i [] a = err (external [])
  encode i (x ∷ xs) a =
      let rest = encode (suc i) xs a in elim (same x a) [ yes _ ↦ ok (i ∷ []) | no _ ↦ rest ]

  unfoldable pub member_at : ℕ → List A → ℕ → Result A
  member_at i [] c = err (external [])
  member_at i (x ∷ xs) c = let rest = member_at (suc i) xs c in if c == i then ok x else rest

  unfoldable pub decode : ℕ → List A → Text → Result A
  unfolding member_at
  decode i xs (c ∷ []) = member_at i xs c
  decode i xs _ = err (external [])

  pub encoded :
      (i : ℕ) (xs : List A) (a : A) (b : Text)
      → encode i xs a ≡ ok b
      → (c : ℕ) × (b ≡ c ∷ []) × (i ≤ c) × (member_at i xs c ≡ ok a)
  unfolding encode member_at
  encoded i [] a b h = absurd (cc h)
  encoded i (x ∷ xs) a b h = go (same x a) h (encoded (suc i) xs a b)
    where
      go :
          (d : Dec (x ≡ a))
          → elim d [ yes _ ↦ ok (i ∷ []) | no _ ↦ encode (suc i) xs a ] ≡ ok b
          → (encode (suc i) xs a ≡ ok b
              → (c : ℕ) × (b ≡ c ∷ []) × (suc i ≤ c) × (member_at (suc i) xs c ≡ ok a))
          → (c : ℕ) × (b ≡ c ∷ []) × (i ≤ c) × (member_at i (x ∷ xs) c ≡ ok a)
      go (yes e) h rest = (i, cc h, omega arith, ground (arith, e))
      go (no e) h rest = let (c, q, l, m) = rest h in (c, q, omega (arith, l), ground (arith, l, m))

two :
    {A : Type 0} (same : Discrete A) (i : ℕ) (xs : List A) (c : ℕ) (t : Text)
    → t ≢ []
    → decode same i xs (c ∷ t) ≡ err (external [])
unfolding decode
two same i xs c [] n = absurd (n refl)
two same i xs c (d ∷ t) n = refl

-- Behind another text, a byte that is no carriage return stays.
drop_cr-ne : (d : ℕ) (s : Text) (c : ℕ) → 100 ≤ c → drop_cr (d ∷ (s ++ (c ∷ []))) ≢ []
unfolding drop_cr
drop_cr-ne d [] c l e = absurd (ground arith)
drop_cr-ne d (x ∷ s) c l e = absurd (ground arith)

drop_cr-two :
    (d : ℕ) (s : Text) (c : ℕ)
    → 100 ≤ c
    → (t : Text) × (drop_cr (d ∷ (s ++ (c ∷ []))) ≡ d ∷ t) × (t ≢ [])
unfolding drop_cr
drop_cr-two d [] c l = (drop_cr (c ∷ []), refl, λ e. absurd (ground arith))
drop_cr-two d (x ∷ s) c l = (drop_cr (x ∷ (s ++ (c ∷ []))), refl, drop_cr-ne x s c l)

abbrev event_discrete : Discrete Event
event_discrete = hlevel (text_discrete, ℕ_discrete)

abbrev digests : Run → Text × Text × Text × Text
digests r = (r.task_digest, r.decision_packet_digest, r.evidence_digest, r.verification_digest)

abbrev places : Run → Text × Text × Text × Text
places r = (r.id, r.repository_root, r.recovery_workspace, r.evidence_dir)

abbrev marks : Run → Text × Text × RunState × ExecutionMode × ℕ
marks r = (r.base_commit, r.result_commit, r.state, r.execution_mode, r.generation)

abbrev texts_discrete : Discrete (Text × Text × Text × Text)
texts_discrete = hlevel text_discrete

abbrev marks_discrete : Discrete (Text × Text × RunState × ExecutionMode × ℕ)
marks_discrete = hlevel (text_discrete, ℕ_discrete)

abbrev of_groups :
    (x a : Run) → digests x ≡ digests a → places x ≡ places a → marks x ≡ marks a → x ≡ a
of_groups x a p q r = cc (p, q, r)

abbrev run_discrete : Discrete Run
run_discrete x a = elim (texts_discrete (digests x) (digests a)) [
  | no n ↦ no (λ e. n (ap digests e))
  | yes p ↦ elim (texts_discrete (places x) (places a)) [
    | no n ↦ no (λ e. n (ap places e))
    | yes q ↦ elim (marks_discrete (marks x) (marks a)) [
      | no n ↦ no (λ e. n (ap marks e))
      | yes r ↦ yes (of_groups x a p q r)
    ]
  ]
]

module _ (events : List Event) (runs : List Run) where
  abbrev pub table_codec : Codec Run
  table_codec = record {
    marshal_state = encode run_discrete 100 runs;
    unmarshal_state =
        λ b. elim b [ [] ↦ err (external []) | c ∷ _ ↦ member_at run_discrete 100 runs c ];
    marshal_event = encode event_discrete 100 events;
    unmarshal_event = decode event_discrete 100 events;
    marshal_owner = λ owner. ok (codes "owner");
  }

  one_byte :
      (e : Event) (b : Text)
      → encode event_discrete 100 events e ≡ ok b
      → (c : ℕ) × (b ≡ c ∷ []) × (100 ≤ c) × (member_at event_discrete 100 events c ≡ ok e)
  one_byte e b h = encoded event_discrete 100 events e b h

  part : (p r : Text) (c : ℕ) → p ++ r ≡ c ∷ [] → p ≢ [] → (p ≡ c ∷ []) × (r ≡ [])
  part [] r c q n = absurd (n refl)
  part (x ∷ []) r c q n = (ground arith, ground arith)
  part (x ∷ y ∷ p) r c q n = absurd (ground arith)

  pub table-IsFaithful : IsFaithful table_codec
  unfolding drop_cr decode
  table-IsFaithful = record {
    one_line = λ e b h.
        let (c, q, l, m) = one_byte e b h in subst (Lacks newline) (sym q) (ground (arith, l), tt);
    some_bytes = λ e h. let (c, q, l, m) = one_byte e [] h in absurd (cc q);
    read_back = λ e b h.
        let (c, q, l, m) = one_byte e b h in
        ap (λ t. decode event_discrete 100 events (drop_cr t)) q
        ∙ ap (decode event_discrete 100 events) (kept c l)
        ∙ m;
    whole =
        λ e b p r h q n k. let (c, s, l, m) = one_byte e b h in absurd (k (part p r c (q ∙ s) n).1);
    alone = λ e before b p q r h s n k d.
        let (c, t, l, m) = one_byte e b h in
        (
          external [],
          ap (λ p. decode event_discrete 100 events (drop_cr (q ++ p))) (part p r c (s ∙ t) n).0
              ∙ behind q c l k,
        );
    state_read_back = λ s b h.
        let (c, q, l, m) = encoded run_discrete 100 runs s b h in
        ap (λ b. table_codec.unmarshal_state (b ++ (newline ∷ []))) q ∙ m;
  }
    where
      kept : (c : ℕ) → 100 ≤ c → drop_cr (c ∷ []) ≡ c ∷ []
      kept c l = ground (arith, l)

      behind :
          (q : Text) (c : ℕ)
          → 100 ≤ c
          → q ≢ []
          → decode event_discrete 100 events (drop_cr (q ++ (c ∷ []))) ≡ err (external [])
      behind [] c l k = absurd (k refl)
      behind (d ∷ q) c l k =
          let (t, e, n) = drop_cr-two d q c l in
          ap (decode event_discrete 100 events) e ∙ two event_discrete 100 events d t n
