-- ===== src/Codec/Sound.antt =====
-- What a packet that `decode` returns has passed.
use aggligator.Base.{
  ℕ, ◌≤◌, ◌≡◌, some, length, arith, take, drop, length-drop, length-take_le, ◌+◌, ◌%◌, ◌^◌,
}
use aggligator.Base.Result.{ok}
use aggligator.Bytes.{Bytes, ByteOrder}
use aggligator.Codec.{
  IntegrityCodec, header, decode_data, decode_header, finish, after_header, decode,
}

module _ (crc32 : Bytes → ℕ) ⦃o : ByteOrder⦄ where
  -- A packet that a decoder waiting for a header returns: the header in front of it holds the
  -- packet's length, which is within the limit, the expected sequence number and the packet's checksum, and
  -- the decoder then waits for the header with the next number.
  pub record Verified (c : IntegrityCodec) (src p : Bytes) (c' : IntegrityCodec) (rest : Bytes)
      : Type 0 where
    pub whole : 10 + length p ≤ length src
    pub sized : o.get (take 4 src) ≡ length p
    pub within : length p ≤ c.max_frame_len
    pub expected : o.get (take 2 (drop 4 src)) ≡ c.decode_seq
    pub checked : o.get (take 4 (drop 6 src)) ≡ crc32 p
    pub content : p ≡ take (o.get (take 4 src)) (drop 10 src)
    pub left : rest ≡ drop (o.get (take 4 src)) (drop 10 src)
    pub next : c'.decode_seq ≡ (c.decode_seq + 1) % 2 ^ 16
    pub waits : c'.state ≡ header

  pub decode-Verified :
      (c : IntegrityCodec) (src p : Bytes) {c' : IntegrityCodec} {rest : Bytes}
      → c.state ≡ header
      → decode crc32 c src ≡ (ok (some p), c', rest)
      → Verified c src p c' rest
  unfolding decode decode_header decode_data after_header finish
  decode-Verified c src p st e =
      ground (arith, length-drop 10 src, length-take_le (o.get (take 4 src)) (drop 10 src))
