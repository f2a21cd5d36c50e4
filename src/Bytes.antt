-- ===== src/Bytes.antt =====
-- Reading from and writing to byte buffers.
-- The crates byteorder and bytes, which turn integers into bytes, are the parameter `ByteOrder`.
pub mod Laws
pub mod BigEndian
use aggligator.Base.{
  ℕ, zero, suc, ◌<◌, ◌^◌, ◌≡◌, Bool, true, false, Option, none, some, List, [], ◌∷◌, ◌++◌, length,
  ltb, if◌then◌else◌, take, drop,
}
use aggligator.Base.Result.{Result, ok, err}

abbrev pub Bytes : Type 0
Bytes = List ℕ

-- `put w n` are the `w` bytes of the integer `n`, and `get` is the integer that bytes stand for.
pub record ByteOrder : Type 0 where
  pub put : ℕ → ℕ → Bytes
  pub get : Bytes → ℕ
  pub length-put : (w n : ℕ) → length (put w n) ≡ w
  pub get-put : (w n : ℕ) → n < 256 ^ w → get (put w n) ≡ n

-- Errors of `read` and `write`: the end of the buffer, and the protocol errors with their causes.
pub data IoError : Type 0 where
  unexpected_eof : IoError
  invalid_magic : IoError
  wrong_version : ℕ → IoError
  zero_server_id : IoError
  zero_recv_buffer : IoError
  unknown_refused_reason : ℕ → IoError
  invalid_message_id : ℕ → IoError
  user_data_too_long : IoError

-- `impl io::Read` over a memory buffer: what is read, and the rest of the buffer.
abbrev pub Reader {ℓ} : Type ℓ → Type ℓ
Reader A = Bytes → Result IoError (A × Bytes)

infixl 5 ◌>>=◌ ◌>>◌
abbrev pub ◌>>=◌ {ℓ κ} : {A : Type ℓ} {B : Type κ} → Reader A → (A → Reader B) → Reader B
◌>>=◌ m f r = elim (m r) [ ok (a, rest) ↦ f a rest | err e ↦ err e ]

abbrev pub ◌>>◌ {ℓ κ} : {A : Type ℓ} {B : Type κ} → Reader A → Reader B → Reader B
m >> k = m >>= λ _. k

abbrev pub pure {ℓ} : {A : Type ℓ} → A → Reader A
pure a r = ok (a, r)

abbrev pub fail {ℓ} : {A : Type ℓ} → IoError → Reader A
fail e r = err e

-- `read_exact` into a buffer of `n` bytes
unfoldable pub read_exact : ℕ → Reader Bytes
read_exact n r = if ltb (length r) n then err unexpected_eof else ok (take n r, drop n r)

unfoldable pub read_u8 : Reader ℕ
read_u8 [] = err unexpected_eof
read_u8 (b ∷ r) = ok (b, r)

-- `reader.bytes().count()`
unfoldable pub count_rest : Reader ℕ
count_rest r = ok (length r, [])

module _ ⦃o : ByteOrder⦄ where
  unfoldable pub read_uint : ℕ → Reader ℕ
  read_uint w = do b ← read_exact w; pure (o.get b)
