-- ===== src/Msg/Tests.antt =====
-- The theorems on messages at a handshake message.
use aggligator.Base.{◌≡◌, refl, inl, true, some, [], ◌∷◌, ◌++◌, replicate, arith}
use aggligator.Bytes.{Bytes, read_u8, read_exact, read_uint, count_rest}
use aggligator.Bytes.BigEndian.{big_endian, put, get}
use aggligator.Cfg.{ExchangedCfg}
use aggligator.Msg.{LinkMsg, connect, welcome, magic, protocol_version}
use aggligator.Msg.Read.{
  bytes_eq, read_preamble, read_cfg, read_user_data, read_welcome, read_body, read,
}
use aggligator.Msg.RoundTrip.{ReadsBack, read-encode}
use aggligator.Msg.Errors.{read_handshake_prefix}

abbrev cfg : ExchangedCfg
cfg = record { recv_buffer = 1024 }

abbrev key : Bytes
key = replicate 32 9

abbrev hello : LinkMsg
hello = connect 0 key (some 5) 77 true (1 ∷ 2 ∷ []) cfg

read-encode_example : ReadsBack hello
read-encode_example =
    read-encode hello
      (omega arith, refl, omega arith, omega arith, omega arith, omega arith, omega arith)
      (omega arith)

abbrev welcome_bytes : Bytes
welcome_bytes =
    magic ++ (protocol_version ∷ (put 4 0 ++ (key ++ (put 16 5 ++ (put 2 0 ++ put 4 1024)))))

read_handshake_prefix_example : (t : Bytes) × (welcome_bytes ≡ magic ++ (protocol_version ∷ t))
unfolding put get read read_body read_welcome read_preamble bytes_eq read_u8 read_exact read_uint
    read_user_data read_cfg count_rest
read_handshake_prefix_example =
    read_handshake_prefix 1 welcome_bytes (welcome 0 key 5 [] cfg) [] (inl refl) refl
