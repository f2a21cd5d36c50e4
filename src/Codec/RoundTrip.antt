-- ===== src/Codec/RoundTrip.antt =====
-- Decoding what was encoded.
use aggligator.Base.{
  ℕ, ◌+◌, ◌%◌, ◌^◌, ◌≤◌, ◌<◌, ◌≡◌, refl, some, ◌++◌, length, arith, length-append, drop,
  take-append, drop-append, sym, append_assoc,
}
use aggligator.Base.Result.{ok}
use aggligator.Bytes.{Bytes, ByteOrder}
use aggligator.Codec.{
  IntegrityCodec, Header, header, payload, decode_data, decode_header, finish, after_header, decode,
}

-- A frame behind which `rest` follows.
module _ ⦃o : ByteOrder⦄ where
  abbrev pub framed : ℕ → ℕ → ℕ → Bytes → Bytes
  framed len seq sum tail = o.put 4 len ++ (o.put 2 seq ++ (o.put 4 sum ++ tail))

  module _ (len seq sum : ℕ) (tail : Bytes) where
    drop_4 : drop 4 (framed len seq sum tail) ≡ o.put 2 seq ++ (o.put 4 sum ++ tail)
    drop_4 = drop-append (o.put 4 len) _ (o.length-put 4 len)

    drop_6 : drop 6 (framed len seq sum tail) ≡ o.put 4 sum ++ tail
    drop_6 =
        let front = o.put 4 len ++ o.put 2 seq in
        rw (← append_assoc (o.put 4 len) (o.put 2 seq) (o.put 4 sum ++ tail)) (
          drop-append {n = 6} front _ (
            omega (
              arith,
              length-append (o.put 4 len) (o.put 2 seq),
              o.length-put 4 len,
              o.length-put 2 seq,
            )))

    drop_10 : drop 10 (framed len seq sum tail) ≡ tail
    drop_10 =
        let front = (o.put 4 len ++ o.put 2 seq) ++ o.put 4 sum in
        rw
          (
            ← append_assoc (o.put 4 len) (o.put 2 seq) (o.put 4 sum ++ tail),
            ← append_assoc (o.put 4 len ++ o.put 2 seq) (o.put 4 sum) tail,
          )
          (drop-append {n = 10} front _ (
            omega (
              arith,
              length-append (o.put 4 len ++ o.put 2 seq) (o.put 4 sum),
              length-append (o.put 4 len) (o.put 2 seq),
              o.length-put 4 len,
              o.length-put 2 seq,
              o.length-put 4 sum,
            )))

    pub length-framed : length (framed len seq sum tail) ≡ 10 + length tail
    length-framed = omega (
      arith,
      length-append (o.put 4 len) (o.put 2 seq ++ (o.put 4 sum ++ tail)),
      length-append (o.put 2 seq) (o.put 4 sum ++ tail),
      length-append (o.put 4 sum) tail,
      o.length-put 4 len,
      o.length-put 2 seq,
      o.length-put 4 sum,
    )

  decode_header-framed :
      (c : IntegrityCodec) (len sum : ℕ) (tail : Bytes)
      → len ≤ c.max_frame_len
      → len < 2 ^ 32
      → sum < 2 ^ 32
      → c.decode_seq < 2 ^ 16
      → decode_header c (framed len c.decode_seq sum tail) ≡ (
        ok (some (record { length = len; checksum = sum })),
        record c { decode_seq = (c.decode_seq + 1) % 2 ^ 16 },
        tail,
      )
  unfolding decode_header
  decode_header-framed c len sum tail h1 h2 h3 h4 = ground (
    arith,
    length-framed len c.decode_seq sum tail,
    drop_4 len c.decode_seq sum tail,
    drop_6 len c.decode_seq sum tail,
    drop_10 len c.decode_seq sum tail,
    take-append (o.put 4 len) (o.put 2 c.decode_seq ++ (o.put 4 sum ++ tail)) (o.length-put 4 len),
    take-append (o.put 2 c.decode_seq) (o.put 4 sum ++ tail) (o.length-put 2 c.decode_seq),
    take-append (o.put 4 sum) tail (o.length-put 4 sum),
    o.get-put 4 len h2,
    o.get-put 2 c.decode_seq h4,
    o.get-put 4 sum h3,
  )

-- What the encoder appends for one packet.
module _ (crc32 : Bytes → ℕ) ⦃o : ByteOrder⦄ where
  abbrev pub frame : ℕ → Bytes → Bytes → Bytes
  frame seq bytes rest = framed (length bytes) seq (crc32 bytes) (bytes ++ rest)

  -- A packet that both sides' limits admit, with a checksum that is a `u32`.
  abbrev pub Fits : IntegrityCodec → Bytes → Type 0
  Fits c bytes =
      (length bytes ≤ c.max_frame_len) × (c.max_frame_len < 2 ^ 32) × (crc32 bytes < 2 ^ 32)

  -- The decoder, waiting for a header, takes one packet off the encoder's output.
  abbrev pub advanced : IntegrityCodec → IntegrityCodec
  advanced c = record c { state = header; decode_seq = (c.decode_seq + 1) % 2 ^ 16 }

  decode_data-append :
      (c : IntegrityCodec) (h : Header) (bytes rest : Bytes)
      → h.length ≡ length bytes
      → h.checksum ≡ crc32 bytes
      → decode_data crc32 c h (bytes ++ rest) ≡ (ok (some bytes), c, rest)
  unfolding decode_data
  decode_data-append c h bytes rest e k = ground (
    arith,
    length-append bytes rest,
    take-append {n = h.length} bytes rest (sym e),
    drop-append {n = h.length} bytes rest (sym e),
  )

  pub decode-frame :
      (c : IntegrityCodec) (bytes rest : Bytes)
      → c.state ≡ header
      → c.decode_seq < 2 ^ 16
      → Fits c bytes
      → decode crc32 c (frame c.decode_seq bytes rest) ≡ (ok (some bytes), advanced c, rest)
  unfolding decode after_header finish
  decode-frame c bytes rest e h f = ground (
    arith,
    decode_header-framed c (length bytes) (crc32 bytes) (bytes ++ rest) f.0 (omega arith) f.2 h,
    decode_data-append
        (record c {
          state = payload (record { length = length bytes; checksum = crc32 bytes });
          decode_seq = (c.decode_seq + 1) % 2 ^ 16;
        })
        (record { length = length bytes; checksum = crc32 bytes }) bytes rest refl refl,
  )
