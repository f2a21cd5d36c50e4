-- ===== src/Codec/Stream.antt =====
-- Packets encoded one behind another into a buffer, and decoded from it.
use aggligator.Base.{
  ℕ, zero, suc, ◌+◌, ◌%◌, ◌^◌, ◌<◌, ◌≡◌, refl, Option, none, some, List, [], ◌∷◌, ◌++◌, length,
  arith, All, append-nil, append_assoc, ap, sym, ◌∙◌,
}
use aggligator.Base.Result.{Result, ok, err, ◌>>=◌}
use aggligator.Bytes.{Bytes, ByteOrder}
use aggligator.Codec.{IntegrityCodec, IntegrityError, Decoded, header, decode, encode}
use aggligator.Codec.RoundTrip.{framed, frame, Fits, advanced, decode-frame}

-- A call of `decode` that returned a packet.
packet : Decoded (Option Bytes) → Option (Bytes × IntegrityCodec × Bytes)
packet (ok (some p), c, src) = some (p, c, src)
packet (ok none, c, src) = none
packet (err e, c, src) = none

cons_packet :
    Bytes
    → Option (List Bytes × IntegrityCodec × Bytes)
    → Option (List Bytes × IntegrityCodec × Bytes)
cons_packet p (some (ps, c, src)) = some (p ∷ ps, c, src)
cons_packet p none = none

module _ (crc32 : Bytes → ℕ) ⦃o : ByteOrder⦄ where
  pub encode_all :
      IntegrityCodec → List Bytes → Bytes → Result IntegrityError (IntegrityCodec × Bytes)
  encode_all c [] dst = ok (c, dst)
  encode_all c (p ∷ ps) dst = do (c', dst') ← encode crc32 c p dst; encode_all c' ps dst'

  -- `n` calls of `decode`, each of which has to return a packet.
  pub decode_n : ℕ → IntegrityCodec → Bytes → Option (List Bytes × IntegrityCodec × Bytes)
  unfolding packet cons_packet
  decode_n zero c src = some ([], c, src)
  decode_n (suc n) c src = elim (packet (decode crc32 c src)) [
    | some (p, c', src') ↦ cons_packet p (decode_n n c' src')
    | none ↦ none
  ]

  -- The bytes of packets that are numbered from `seq` on.
  stream : ℕ → List Bytes → Bytes
  stream seq [] = []
  stream seq (p ∷ ps) = frame crc32 seq p (stream ((seq + 1) % 2 ^ 16) ps)

  encode-framed :
      (c : IntegrityCodec) (p dst : Bytes)
      → Fits crc32 c p
      → encode crc32 c p dst
        ≡ ok (
          record c { encode_seq = (c.encode_seq + 1) % 2 ^ 16 },
          dst ++ framed (length p) c.encode_seq (crc32 p) p,
        )
  unfolding encode
  encode-framed c p dst f = ground arith

  encode_all-stream :
      (c : IntegrityCodec) (ps : List Bytes) (dst : Bytes)
      → All (Fits crc32 c) ps
      → (c' : IntegrityCodec) × (encode_all c ps dst ≡ ok (c', dst ++ stream c.encode_seq ps))
  unfolding encode_all stream
  encode_all-stream c [] dst h = (c, rw append-nil refl)
  encode_all-stream c (p ∷ ps) dst (f, fs) =
      let c' = record c { encode_seq = (c.encode_seq + 1) % 2 ^ 16 } in
      let rest = stream ((c.encode_seq + 1) % 2 ^ 16) ps in
      let (d, e) = encode_all-stream c' ps (dst ++ framed (length p) c.encode_seq (crc32 p) p) fs in
      (d, rw (encode-framed c p dst f) (e ∙ ap (λ (b : Bytes). ok (d, b)) (simp append_assoc)))

  decode_n-stream :
      (c : IntegrityCodec) (ps : List Bytes)
      → c.state ≡ header
      → c.decode_seq < 2 ^ 16
      → All (Fits crc32 c) ps
      → (c' : IntegrityCodec) × (decode_n (length ps) c (stream c.decode_seq ps)
          ≡ some (ps, c', []))
  unfolding decode_n stream
  decode_n-stream c [] e h f = (c, refl)
  decode_n-stream c (p ∷ ps) e h (f, fs) =
      let rest = stream ((c.decode_seq + 1) % 2 ^ 16) ps in
      let (c', k) = decode_n-stream (advanced crc32 c) ps refl (omega arith) fs in
      (c', ground (arith, decode-frame crc32 c p rest e h f, k))

  -- Any packets within the frame limit that one codec encodes into an empty buffer are what as many calls of
  -- a decoder at the same sequence number return, in order, and they use up the buffer.
  pub decode_n-encode_all :
      (e c : IntegrityCodec) (ps : List Bytes)
      → c.state ≡ header
      → c.decode_seq ≡ e.encode_seq
      → c.decode_seq < 2 ^ 16
      → All (Fits crc32 e) ps
      → All (Fits crc32 c) ps
      → (e' c' : IntegrityCodec) × (src : Bytes) × (encode_all e ps [] ≡ ok (e', src))
        × (decode_n (length ps) c src ≡ some (ps, c', []))
  decode_n-encode_all e c ps st same h fe fc =
      let (e', p) = encode_all-stream e ps [] fe in
      let (c', q) = decode_n-stream c ps st h fc in
      (e', c', stream c.decode_seq ps, p ∙ ap (λ (n : ℕ). ok (e', stream n ps)) (sym same), q)
