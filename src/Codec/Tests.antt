-- ===== src/Codec/Tests.antt =====
-- The theorems on the codec, with the number of bytes as the checksum.
use aggligator.Base.{ℕ, ◌≡◌, refl, some, List, [], ◌∷◌, ◌++◌, length, arith}
use aggligator.Base.Result.{ok}
use aggligator.Bytes.{Bytes}
use aggligator.Bytes.BigEndian.{big_endian, put, get}
use aggligator.Codec.{
  IntegrityCodec, new, payload, decode, decode_header, decode_data, after_header, finish,
}
use aggligator.Codec.Stream.{encode_all, decode_n, decode_n-encode_all}
use aggligator.Codec.Sound.{Verified, decode-Verified}
use aggligator.Codec.Chunks.{decode_wait}

abbrev count : Bytes → ℕ
count b = length b

abbrev packets : List Bytes
packets = (1 ∷ 2 ∷ []) ∷ [] ∷ (3 ∷ []) ∷ []

decode_n-encode_all_example :
    (e' c' : IntegrityCodec) × (src : Bytes) × (encode_all count new packets [] ≡ ok (e', src))
    × (decode_n count 3 new src ≡ some (packets, c', []))
decode_n-encode_all_example =
    decode_n-encode_all count new new packets refl refl (omega arith)
      (
        (omega arith, omega arith, omega arith),
        ((omega arith, omega arith, omega arith), ((omega arith, omega arith, omega arith), tt)),
      )
      (
        (omega arith, omega arith, omega arith),
        ((omega arith, omega arith, omega arith), ((omega arith, omega arith, omega arith), tt)),
      )

-- One packet of two bytes, and a byte behind it.
abbrev wire : Bytes
wire = put 4 2 ++ (put 2 0 ++ (put 4 2 ++ (1 ∷ 2 ∷ 9 ∷ [])))

abbrev after_one : IntegrityCodec
after_one = record new { decode_seq = 1 }

decode-Verified_example : Verified count new wire (1 ∷ 2 ∷ []) after_one (9 ∷ [])
unfolding decode decode_header decode_data after_header finish put get
decode-Verified_example = decode-Verified count new wire (1 ∷ 2 ∷ []) refl refl

-- The same packet cut in the middle of its payload.
abbrev wire_start : Bytes
wire_start = put 4 2 ++ (put 2 0 ++ (put 4 2 ++ (1 ∷ [])))

abbrev in_payload : IntegrityCodec
in_payload = record new { state = payload (record { length = 2; checksum = 2 }); decode_seq = 1 }

decode_wait_example :
    decode count new (wire_start ++ (2 ∷ [])) ≡ decode count in_payload ((1 ∷ []) ++ (2 ∷ []))
unfolding decode decode_header after_header decode_data finish put get
decode_wait_example = decode_wait count new wire_start (2 ∷ []) refl
