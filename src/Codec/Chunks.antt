-- ===== src/Codec/Chunks.antt =====
-- A decoder that waits for bytes loses none: how the stream is cut into buffers makes no difference.
use aggligator.Base.{
  ℕ, ◌≤◌, ◌≡◌, refl, Option, none, some, ◌++◌, length, arith, length-append, drop, take-append_le,
  drop-append_le, length-drop, sym, ◌∙◌,
}
use aggligator.Base.Result.{ok, err}
use aggligator.Bytes.{Bytes, ByteOrder}
use aggligator.Codec.{
  IntegrityCodec, Header, DecodeState, header, payload, header_len, Decoded, decode_data,
  decode_header, finish, after_header, decode,
}

module _ (crc32 : Bytes → ℕ) ⦃o : ByteOrder⦄ where
  -- A header that was read is read the same in a longer buffer.
  decode_header-append :
      (c : IntegrityCodec) (src more : Bytes)
      → header_len ≤ length src
      → decode_header c (src ++ more) ≡ (let (r, c', s) = decode_header c src in (r, c', s ++ more))
  unfolding decode_header
  decode_header-append c src more h = ground (
    arith,
    length-append src more,
    take-append_le 4 src more,
    drop-append_le 4 src more,
    drop-append_le 6 src more,
    drop-append_le 10 src more,
    take-append_le 2 (drop 4 src) more,
    take-append_le 4 (drop 6 src) more,
    length-drop 4 src,
    length-drop 6 src,
  )

  finish_wait :
      (c : IntegrityCodec) (h : Header) (src : Bytes) {c' : IntegrityCodec} {s' : Bytes}
      → finish (decode_data crc32 c h src) ≡ (ok none, c', s')
      → (c' ≡ c) × (s' ≡ src)
  unfolding decode_data finish
  finish_wait c h src e = ground arith

  header_none :
      (c : IntegrityCodec) (src : Bytes) {c1 : IntegrityCodec} {s1 : Bytes}
      → decode_header c src ≡ (ok none, c1, s1)
      → (c1 ≡ c) × (s1 ≡ src)
  unfolding decode_header
  header_none c src e = ground arith

  header_some :
      (c : IntegrityCodec) (src : Bytes) {h : Header} {c1 : IntegrityCodec} {s1 : Bytes}
      → decode_header c src ≡ (ok (some h), c1, s1)
      → header_len ≤ length src
  unfolding decode_header
  header_some c src e = ground arith

  decode_at_header :
      (c : IntegrityCodec) (src : Bytes)
      → c.state ≡ header
      → decode crc32 c src ≡ after_header crc32 (decode_header c src)
  unfolding decode
  decode_at_header c src e = rw e refl

  decode_at_payload :
      (c : IntegrityCodec) (h : Header) (src : Bytes)
      → c.state ≡ payload h
      → decode crc32 c src ≡ finish (decode_data crc32 c h src)
  unfolding decode
  decode_at_payload c h src e = rw e refl

  waits_at_header :
      (c : IntegrityCodec) (src more : Bytes) (d : Decoded (Option Header)) {c' : IntegrityCodec}
      {s' : Bytes}
      → decode_header c src ≡ d
      → c.state ≡ header
      → after_header crc32 d ≡ (ok none, c', s')
      → decode crc32 c (src ++ more) ≡ decode crc32 c' (s' ++ more)
  unfolding after_header
  waits_at_header c src more (ok none, c1, s1) e st k = ground (arith, header_none c src e)
  waits_at_header c src more (ok (some h), c1, s1) e st k =
      let held = record c1 { state = payload h } in
      ground (
        arith,
        decode_at_header c (src ++ more) st,
        decode_header-append c src more (header_some c src e),
        finish_wait held h s1 k,
        decode_at_payload held h (s1 ++ more) refl,
      )
  waits_at_header c src more (err x, c1, s1) e st k = cc

  -- A call that returned no packet can be made again when more bytes are there: the outcome is that of
  -- one call on the whole buffer.
  pub decode_wait :
      (c : IntegrityCodec) (src more : Bytes) {c' : IntegrityCodec} {s' : Bytes}
      → decode crc32 c src ≡ (ok none, c', s')
      → decode crc32 c (src ++ more) ≡ decode crc32 c' (s' ++ more)
  decode_wait c src more {c' = c'} {s' = s'} e = go c.state refl
    where
      go :
          (st : DecodeState)
          → c.state ≡ st
          → decode crc32 c (src ++ more) ≡ decode crc32 c' (s' ++ more)
      go header k = waits_at_header c src more _ refl k (sym (decode_at_header c src k) ∙ e)
      go (payload h) k =
          let (same, left) = finish_wait c h src (sym (decode_at_payload c h src k) ∙ e) in
          rw (same, left)
