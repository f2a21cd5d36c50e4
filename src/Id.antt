-- ===== src/Id.antt =====
-- aggligator/src/id.rs: the connection id, which is encrypted with the secret that both ends share.
use Prim.Native.Nat.{bit_xor, bit_xor-bitwise, digits, differ}
use aggligator.Base.{ℕ, zero, suc, ◌+◌, ◌*◌, ◌/◌, ◌%◌, ◌≤◌, ◌<◌, ◌≡◌, refl, ap₂, ◌∙◌, take, arith}
use aggligator.Bytes.{Bytes, ByteOrder}

-- `BE::read_u128(secret.as_bytes())`
unfoldable pub key_of : ⦃o : ByteOrder⦄ → Bytes → ℕ
key_of ⦃o⦄ secret = o.get (take 16 secret)

-- `EncryptedConnId::new`
unfoldable pub encrypt : ⦃o : ByteOrder⦄ → ℕ → Bytes → ℕ
encrypt id secret = bit_xor (key_of secret) id

unfoldable pub decrypt : ⦃o : ByteOrder⦄ → ℕ → Bytes → ℕ
decrypt encrypted secret = bit_xor (key_of secret) encrypted

abbrev xor_digits : ℕ → ℕ → ℕ → ℕ
xor_digits n a b = digits (λ b. b) differ n a b

xor_fuel : (n m a b : ℕ) → a ≤ n → a ≤ m → xor_digits n a b ≡ xor_digits m a b
xor_fuel zero zero a b p q = refl
xor_fuel zero (suc m) zero b p q = refl
xor_fuel zero (suc m) (suc a) b p q = absurd (omega arith)
xor_fuel (suc n) zero zero b p q = refl
xor_fuel (suc n) zero (suc a) b p q = absurd (omega arith)
xor_fuel (suc n) (suc m) zero b p q = refl
xor_fuel (suc n) (suc m) (suc a) b p q =
    omega (arith, xor_fuel n m (suc a / 2) (b / 2) (omega arith) (omega arith))

zero-bit_xor : (b : ℕ) → bit_xor 0 b ≡ b
zero-bit_xor b = bit_xor-bitwise 0 b

differ_twice : (x y : ℕ) → x < 2 → y < 2 → (differ x (differ x y) ≡ y) × (differ x y < 2)
differ_twice zero y h k = (refl, k)
differ_twice (suc zero) zero h k = (refl, omega arith)
differ_twice (suc zero) (suc zero) h k = (refl, omega arith)
differ_twice (suc zero) (suc (suc y)) h k = absurd (omega arith)
differ_twice (suc (suc x)) y h k = absurd (omega arith)

xor_step :
    (a b : ℕ) → bit_xor (suc a) b ≡ bit_xor (suc a / 2) (b / 2) * 2 + differ (suc a % 2) (b % 2)
xor_step a b = omega (
  arith,
  bit_xor-bitwise (suc a) b,
  bit_xor-bitwise (suc a / 2) (b / 2),
  xor_fuel a (suc a / 2) (suc a / 2) (b / 2) (omega arith) (omega arith),
)

xor_twice_fuel : (n k a : ℕ) → k ≤ n → bit_xor k (bit_xor k a) ≡ a
xor_twice_fuel n zero a h = zero-bit_xor (bit_xor 0 a) ∙ zero-bit_xor a
xor_twice_fuel zero (suc k) a h = absurd (omega arith)
xor_twice_fuel (suc n) (suc k) a h =
    let half : ℕ = bit_xor (suc k / 2) (a / 2) in
    let (same, small) = differ_twice (suc k % 2) (a % 2) (omega arith) (omega arith) in
    let digit : ℕ = differ (suc k % 2) (a % 2) in
    let quotient : bit_xor (suc k) a / 2 ≡ half = omega (arith, xor_step k a, small) in
    let last : bit_xor (suc k) a % 2 ≡ digit = omega (arith, xor_step k a, small) in
    xor_step k (bit_xor (suc k) a)
    ∙ ap₂ (λ (x y : ℕ). bit_xor (suc k / 2) x * 2 + differ (suc k % 2) y) quotient last
    ∙ omega (arith, xor_twice_fuel n (suc k / 2) (a / 2) (omega arith), same)

-- Decrypting with the secret that an id was encrypted with gives the id.
pub decrypt-encrypt :
    ⦃o : ByteOrder⦄ → (id : ℕ) (secret : Bytes) → decrypt (encrypt id secret) secret ≡ id
unfolding decrypt encrypt
decrypt-encrypt id secret = xor_twice_fuel (key_of secret) (key_of secret) id (omega arith)
