-- ===== src/Msg/Errors.antt =====
-- What the decoder and the encoder refuse.
use aggligator.Base.{
  ℕ, ◌≡◌, ◌≤◌, ◌<◌, ◌^◌, ◌⊎◌, inl, inr, true, Option, [], ◌∷◌, ◌++◌, length, arith, Bool, refl,
}
use aggligator.Base.Result.{Result, ok, err}
use aggligator.Bytes.{
  Bytes, ByteOrder, IoError, Reader, ◌>>=◌, invalid_message_id, user_data_too_long, read_exact,
  read_u8,
}
use aggligator.Cfg.{ExchangedCfg}
use aggligator.Msg.{LinkMsg, welcome, connect, magic, protocol_version}
use aggligator.Msg.Write.{write_user_data, write_body, encode}
use aggligator.Msg.Read.{bytes_eq, read_preamble, read_welcome, read_connect, read_body, read}

bytes_eq→eq : (xs ys : Bytes) → bytes_eq xs ys ≡ true → xs ≡ ys
unfolding bytes_eq
bytes_eq→eq [] [] h = refl
bytes_eq→eq [] (y ∷ ys) h = ground arith
bytes_eq→eq (x ∷ xs) [] h = ground arith
bytes_eq→eq (x ∷ xs) (y ∷ ys) h = ground (arith, bytes_eq→eq xs ys)

-- Only the magic identifier with the right version passes.
read_preamble_ok :
    (r rest : Bytes) → read_preamble r ≡ ok (tt, rest) → r ≡ magic ++ (protocol_version ∷ rest)
unfolding read_preamble read_exact read_u8
read_preamble_ok (a ∷ b ∷ c ∷ d ∷ e ∷ v ∷ r) rest h =
    ground (arith, bytes_eq→eq (a ∷ b ∷ c ∷ d ∷ e ∷ []) magic)
read_preamble_ok r rest h = ground arith

-- A reader that begins with the preamble succeeds only behind it.
after_preamble :
    {A : Type 0} (f : Unit {0} → Reader A) (r : Bytes) {p : A × Bytes}
    → (read_preamble >>= f) r ≡ ok p
    → (t : Bytes) × (r ≡ magic ++ (protocol_version ∷ t))
after_preamble f r {p} h = go (read_preamble r) refl h
  where
    go :
        (x : Result IoError (Unit {0} × Bytes))
        → read_preamble r ≡ x
        → (elim x [ ok (a, rest) ↦ f a rest | err e ↦ err e ]) ≡ ok p
        → (t : Bytes) × (r ≡ magic ++ (protocol_version ∷ t))
    go (ok (tt, t)) e k = (t, read_preamble_ok r t e)
    go (err x) e k = cc

module _ ⦃o : ByteOrder⦄ where
  -- A message whose first byte is no message id is refused with that id, whatever follows.
  pub read_unknown_id :
      (id : ℕ) (r : Bytes) → (id ≡ 0) ⊎ (16 < id) → read (id ∷ r) ≡ err (invalid_message_id id)
  unfolding read read_body read_u8
  read_unknown_id id r h = ground arith

  -- A handshake message is accepted only behind the magic identifier and the protocol version.
  pub read_handshake_prefix :
      (id : ℕ) (r : Bytes) (m : LinkMsg) (rest : Bytes)
      → (id ≡ 1) ⊎ (id ≡ 2)
      → read (id ∷ r) ≡ ok (m, rest)
      → (t : Bytes) × (r ≡ magic ++ (protocol_version ∷ t))
  unfolding read read_body read_u8 read_welcome read_connect
  read_handshake_prefix id r m rest (inl e) h = after_preamble _ r (rw e at h)
  read_handshake_prefix id r m rest (inr e) h = after_preamble _ r (rw e at h)

  -- Both handshake messages refuse to be encoded when the user data does not fit its length field.
  pub encode_too_long :
      (ext : ℕ) (key : Bytes) (sid cid : ℕ) (osid : Option ℕ) (ex : Bool) (ud : Bytes)
      (cfg : ExchangedCfg)
      → 2 ^ 16 ≤ length ud
      → (encode (welcome ext key sid ud cfg) ≡ err user_data_too_long)
        × (encode (connect ext key osid cid ex ud cfg) ≡ err user_data_too_long)
  unfolding encode write_body write_user_data
  encode_too_long ext key sid cid osid ex ud cfg h = ground arith
