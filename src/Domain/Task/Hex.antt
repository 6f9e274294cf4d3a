-- ===== src/Domain/Task/Hex.antt =====
-- Hexadecimal digits, and a digest that is made of them, can be read back.
use agent_orchestrator_publi.Base.{
  ℕ, ◌+◌, ◌-◌, ◌*◌, ◌/◌, ◌%◌, ◌<◌, ◌≡◌, refl, sym, ap, ap₂, ◌∙◌, true, leb, if◌then◌else◌, [], ◌∷◌,
  Text, All, length, arith,
}
use agent_orchestrator_publi.Base.{subst}
use agent_orchestrator_publi.Base.Errors.{Result, ok, >>=-eq-ok, ◌>>=◌ as bind}
use agent_orchestrator_publi.Domain.Task.{
  Task, validate_task, digest_task, is_hex_byte, hex_digit, hex,
}

abbrev pub AreBytes : Text → Type 0
AreBytes s = All (λ b. b < 256) s

-- The value of a lower-case digit.
unfoldable pub digit_value : ℕ → ℕ
digit_value c = if leb b'a' c then c - b'a' + 10 else c - b'0'

-- The bytes that pairs of digits stand for.
unfoldable pub unhex : Text → Text
unfolding digit_value
unhex [] = []
unhex (c ∷ []) = []
unhex (c ∷ d ∷ s) = (16 * digit_value c + digit_value d) ∷ unhex s

digit_value-hex_digit : (n : ℕ) → n < 16 → digit_value (hex_digit n) ≡ n
unfolding digit_value hex_digit
digit_value-hex_digit n l = ground (arith, l)

is_hex_byte-hex_digit : (n : ℕ) → n < 16 → is_hex_byte (hex_digit n) ≡ true
unfolding is_hex_byte hex_digit
is_hex_byte-hex_digit n l = ground (arith, l)

pub unhex-hex :
    (s : Text)
    → AreBytes s
    → (unhex (hex s) ≡ s)
      × (length (hex s) ≡ 2 * length s)
      × All (λ c. is_hex_byte c ≡ true) (hex s)
unfolding unhex hex
unhex-hex [] a = (refl, refl, tt)
unhex-hex (b ∷ s) (l, a) =
    let (e, n, h) = unhex-hex s a in
    (
      ap₂ (λ x y. x ∷ y)
          (omega (
            arith,
            digit_value-hex_digit (b / 16) (omega (arith, l)),
            digit_value-hex_digit (b % 16) (omega (arith, l)),
          ))
          e,
      omega (arith, n),
      (
        is_hex_byte-hex_digit (b / 16) (omega (arith, l)),
        (is_hex_byte-hex_digit (b % 16) (omega (arith, l)), h),
      ),
    )

pub hex-injective : (s t : Text) → AreBytes s → AreBytes t → hex s ≡ hex t → s ≡ t
hex-injective s t a b q = sym (unhex-hex s a).0 ∙ ap unhex q ∙ (unhex-hex t b).0

module _ (marshal : Task → Result Text) (sha : Text → Text) where
  -- What a digest is of.
  pub digested :
      (t : Task) {d : Text}
      → digest_task marshal sha t ≡ ok d
      → (bytes : Text) × (marshal t ≡ ok bytes) × (hex (sha bytes) ≡ d)
  unfolding digest_task
  digested t {d} h =
      let (_, valid, h₁) =
        >>=-eq-ok (validate_task t) (λ _. bind (marshal t) (λ bytes. ok (hex (sha bytes)))) h in
      let (bytes, m, h₂) = >>=-eq-ok (marshal t) (λ bytes. ok (hex (sha bytes))) h₁ in
      (bytes, m, ground arith)

  -- A digest that `DigestTask` returns of a task is of one that `ValidateTask` accepts, and consists of
  -- two lower-case hexadecimal digits for each byte of the checksum of its encoding, which can be
  -- read back from it; as long as checksums consist of bytes.
  pub digest_task-unhex :
      ((s : Text) → AreBytes (sha s))
      → (t : Task) {d : Text} → digest_task marshal sha t ≡ ok d
      → (bytes : Text) × (marshal t ≡ ok bytes)
        × (unhex d ≡ sha bytes)
        × (length d ≡ 2 * length (sha bytes))
        × All (λ c. is_hex_byte c ≡ true) d
        × (validate_task t ≡ ok tt)
  unfolding digest_task
  digest_task-unhex are t {d} h =
      let (bytes, m, e) = digested t h in
      let (back, long, digits) = unhex-hex (sha bytes) (are bytes) in
      let (_, valid, _) =
        >>=-eq-ok (validate_task t) (λ _. bind (marshal t) (λ bytes. ok (hex (sha bytes)))) h in
      (
        bytes,
        m,
        ap unhex (sym e) ∙ back,
        ap (λ (s : Text). length s) (sym e) ∙ long,
        subst (All (λ c. is_hex_byte c ≡ true)) e digits,
        valid,
      )
