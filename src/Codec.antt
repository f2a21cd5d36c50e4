-- ===== src/Codec.antt =====
-- aggligator/src/io/codec.rs: `IntegrityCodec`, which frames packets over a stream of bytes with a length,
-- a sequence number and a checksum. `crc32` is `crc32_iso_hdlc` of the crate crc_fast.
-- How much memory `reserve` asks for is left out; it changes no byte.
pub mod RoundTrip
pub mod Stream
pub mod Chunks
pub mod Sound
mod Tests
use aggligator.Base.{
  ℕ, ◌+◌, ◌*◌, ◌%◌, ◌^◌, ◌==◌, Option, none, some, List, [], ◌∷◌, ◌++◌, length, ltb, if◌then◌else◌,
  take, drop,
}
use aggligator.Base.Result.{Result, ok, err}
use aggligator.Bytes.{Bytes, ByteOrder}

pub data IntegrityError : Type 0 where
  packet_too_big seq_skipped data_corrupted : IntegrityError

pub record Header : Type 0 where
  pub length : ℕ
  pub checksum : ℕ

pub data DecodeState : Type 0 where
  header : DecodeState
  payload : Header → DecodeState

pub record IntegrityCodec : Type 0 where
  pub max_frame_len : ℕ
  pub state : DecodeState
  pub decode_seq : ℕ
  pub encode_seq : ℕ

-- `HEADER_LEN`
abbrev pub header_len : ℕ
header_len = 10

-- `IntegrityCodec::new`
abbrev pub new : IntegrityCodec
new = record { max_frame_len = 8 * 1024 * 1024; state = header; decode_seq = 0; encode_seq = 0 }

abbrev pub set_max_packet_size : IntegrityCodec → ℕ → IntegrityCodec
set_max_packet_size c n = record c { max_frame_len = n }

-- A method's result, the codec and the buffer after it; on an error too.
abbrev pub Decoded : Type 0 → Type 0
Decoded A = Result IntegrityError A × IntegrityCodec × Bytes

-- Back to the header state when a packet is complete.
unfoldable pub finish : Decoded (Option Bytes) → Decoded (Option Bytes)
finish (ok (some d), c, src) = (ok (some d), record c { state = header }, src)
finish (ok none, c, src) = (ok none, c, src)
finish (err e, c, src) = (err e, c, src)

module _ (crc32 : Bytes → ℕ) where
  unfoldable pub decode_data : IntegrityCodec → Header → Bytes → Decoded (Option Bytes)
  decode_data c h src =
      if ltb (length src) h.length
      then (ok none, c, src)
      else if h.checksum == crc32 (take h.length src)
      then (ok (some (take h.length src)), c, drop h.length src)
      else (err data_corrupted, c, drop h.length src)

module _ ⦃o : ByteOrder⦄ where
  unfoldable pub decode_header : IntegrityCodec → Bytes → Decoded (Option Header)
  decode_header c src =
      if ltb (length src) header_len
      then (ok none, c, src)
      else if ltb c.max_frame_len (o.get (take 4 src))
      then (err packet_too_big, c, drop 4 src)
      else if o.get (take 2 (drop 4 src)) == c.decode_seq
      then (
        ok (some (record { length = o.get (take 4 src); checksum = o.get (take 4 (drop 6 src)) })),
        record c { decode_seq = (c.decode_seq + 1) % 2 ^ 16 },
        drop 10 src,
      )
      else (err seq_skipped, c, drop 6 src)

module _ (crc32 : Bytes → ℕ) ⦃o : ByteOrder⦄ where
  unfoldable pub after_header : Decoded (Option Header) → Decoded (Option Bytes)
  after_header (ok (some h), c, src) =
      finish (decode_data crc32 (record c { state = payload h }) h src)
  after_header (ok none, c, src) = (ok none, c, src)
  after_header (err e, c, src) = (err e, c, src)

  -- `Decoder::decode`
  unfoldable pub decode : IntegrityCodec → Bytes → Decoded (Option Bytes)
  decode c src = elim c.state [
    | header ↦ after_header (decode_header c src)
    | payload h ↦ finish (decode_data crc32 c h src)
  ]

  -- `Encoder::encode`: the codec and the output buffer after it.
  unfoldable pub encode :
      IntegrityCodec → Bytes → Bytes → Result IntegrityError (IntegrityCodec × Bytes)
  encode c bytes dst =
      if ltb c.max_frame_len (length bytes)
      then err packet_too_big
      else ok (
        record c { encode_seq = (c.encode_seq + 1) % 2 ^ 16 },
        dst
            ++ (o.put 4 (length bytes % 2 ^ 32)
                ++ (o.put 2 c.encode_seq ++ (o.put 4 (crc32 bytes) ++ bytes))),
      )
