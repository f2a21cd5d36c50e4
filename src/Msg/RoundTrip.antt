-- ===== src/Msg/RoundTrip.antt =====
-- Reading back what was written.
use aggligator.Base.{
  ℕ, zero, suc, ◌≡◌, ◌<◌, refl, ap, ◌^◌, Bool, none, some, [], ◌∷◌, ◌++◌, length, arith, append-nil,
  append_assoc,
}
use aggligator.Base.Result.{ok}
use aggligator.Bytes.{Bytes, ByteOrder, read_exact, read_u8, read_uint, count_rest}
use aggligator.Bytes.Laws.{read_exact-append, read_uint-put}
use aggligator.Cfg.{ExchangedCfg}
use aggligator.Msg.{
  LinkMsg, welcome, connect, accepted, refused, ping, pong, data_msg, ack, consumed, send_finish,
  receive_close, receive_finish, test_data, set_block, goodbye, terminate, user_data_of,
  RefusedReason, IsMsg, magic, protocol_version, reason_id, reason_of_id, msg_id,
}
use aggligator.Msg.Write.{bool_u8, write_cfg, write_user_data, write_body, encode, test_bytes}
use aggligator.Msg.Read.{
  server_id_opt, read_preamble, read_cfg, read_user_data, read_welcome, read_connect, read_consumed,
  read_body, read,
}

pub reason_of_id-reason_id :
    (r : RefusedReason) (b : Bytes) → reason_of_id (reason_id r) b ≡ ok (r, b)
unfolding reason_of_id reason_id
reason_of_id-reason_id r b = ground arith

length-test_bytes : (k n : ℕ) → length (test_bytes k n) ≡ k
unfolding test_bytes
length-test_bytes zero n = refl
length-test_bytes (suc k) n = ap suc (length-test_bytes k (suc n))

read_preamble-magic :
    (rest : Bytes) → read_preamble (magic ++ (protocol_version ∷ rest)) ≡ ok (tt, rest)
unfolding read_preamble read_exact read_u8
read_preamble-magic rest = ground arith

module _ ⦃o : ByteOrder⦄ where
  read_cfg-write_cfg :
      (cfg : ExchangedCfg) (rest : Bytes)
      → 0 < cfg.recv_buffer
      → cfg.recv_buffer < 2 ^ 32
      → read_cfg (write_cfg cfg ++ rest) ≡ ok (cfg, rest)
  unfolding read_cfg write_cfg
  read_cfg-write_cfg cfg rest h k = ground (arith, read_uint-put 4 cfg.recv_buffer rest k)

  write_user_data_ok :
      (ud : Bytes) → length ud < 2 ^ 16 → write_user_data ud ≡ ok (o.put 2 (length ud) ++ ud)
  unfolding write_user_data
  write_user_data_ok ud h = ground arith

  read_user_data-put :
      (ud rest : Bytes)
      → length ud < 2 ^ 16
      → read_user_data ((o.put 2 (length ud) ++ ud) ++ rest) ≡ ok (ud, rest)
  unfolding read_user_data
  read_user_data-put ud rest h = rw append_assoc (
      ground (
        arith,
        read_uint-put 2 (length ud) (ud ++ rest) h,
        read_exact-append (length ud) ud rest refl,
      ))

  read_cfg-write_cfg_end :
      (cfg : ExchangedCfg)
      → 0 < cfg.recv_buffer
      → cfg.recv_buffer < 2 ^ 32
      → read_cfg (write_cfg cfg) ≡ ok (cfg, [])
  read_cfg-write_cfg_end cfg h k = rw append-nil at (read_cfg-write_cfg cfg [] h k)

  -- What stands behind the length of the user data, in both handshake messages.
  abbrev tail_of : Bytes → ExchangedCfg → Bytes
  tail_of ud cfg = (o.put 2 (length ud) ++ ud) ++ write_cfg cfg

  abbrev welcome_bytes : ℕ → Bytes → ℕ → Bytes → ExchangedCfg → Bytes
  welcome_bytes ext key sid ud cfg =
      magic ++ (protocol_version ∷ (o.put 4 ext ++ (key ++ (o.put 16 sid ++ tail_of ud cfg))))

  abbrev connect_bytes : ℕ → Bytes → ℕ → ℕ → Bool → Bytes → ExchangedCfg → Bytes
  connect_bytes ext key sid cid ex ud cfg =
      magic
      ++ (protocol_version
          ∷ (o.put 4 ext
              ++ (key ++ (o.put 16 sid ++ (o.put 16 cid ++ (bool_u8 ex ∷ tail_of ud cfg))))))

  read_welcome-put :
      (ext : ℕ) (key : Bytes) (sid : ℕ) (ud : Bytes) (cfg : ExchangedCfg)
      → length ud < 2 ^ 16
      → IsMsg (welcome ext key sid ud cfg)
      → read_welcome (welcome_bytes ext key sid ud cfg) ≡ ok (welcome ext key sid ud cfg, [])
  unfolding read_welcome
  read_welcome-put ext key sid ud cfg hu h = ground (
    arith,
    read_preamble-magic (o.put 4 ext ++ (key ++ (o.put 16 sid ++ tail_of ud cfg))),
    read_uint-put 4 ext (key ++ (o.put 16 sid ++ tail_of ud cfg)) h.0,
    read_exact-append 32 key (o.put 16 sid ++ tail_of ud cfg) h.1,
    read_uint-put 16 sid (tail_of ud cfg) h.3,
    read_user_data-put ud (write_cfg cfg) hu,
    read_cfg-write_cfg_end cfg h.4 h.5,
  )

  read_connect-put :
      (ext : ℕ) (key : Bytes) (sid : ℕ) (cid : ℕ) (ex : Bool) (ud : Bytes) (cfg : ExchangedCfg)
      → length ud < 2 ^ 16
      → ext < 2 ^ 32
      → length key ≡ 32
      → sid < 2 ^ 128
      → cid < 2 ^ 128
      → 0 < cfg.recv_buffer
      → cfg.recv_buffer < 2 ^ 32
      → read_connect (connect_bytes ext key sid cid ex ud cfg)
        ≡ ok (connect ext key (server_id_opt sid) cid ex ud cfg, [])
  unfolding read_connect read_u8
  read_connect-put ext key sid cid ex ud cfg hu h0 h1 h2 h3 h4 h5 = ground (
    arith,
    read_preamble-magic
        (o.put 4 ext ++ (key ++ (o.put 16 sid ++ (o.put 16 cid ++ (bool_u8 ex ∷ tail_of ud cfg))))),
    read_uint-put 4 ext (key ++ (o.put 16 sid ++ (o.put 16 cid ++ (bool_u8 ex ∷ tail_of ud cfg))))
        h0,
    read_exact-append 32 key (o.put 16 sid ++ (o.put 16 cid ++ (bool_u8 ex ∷ tail_of ud cfg))) h1,
    read_uint-put 16 sid (o.put 16 cid ++ (bool_u8 ex ∷ tail_of ud cfg)) h2,
    read_uint-put 16 cid (bool_u8 ex ∷ tail_of ud cfg) h3,
    read_user_data-put ud (write_cfg cfg) hu,
    read_cfg-write_cfg_end cfg h4 h5,
  )

  read_u32-put_end : (n : ℕ) → n < 2 ^ 32 → read_uint 4 (o.put 4 n) ≡ ok (n, [])
  read_u32-put_end n h = rw append-nil at (read_uint-put 4 n [] h)

  read_consumed-put :
      (seq n : ℕ)
      → seq < 2 ^ 32
      → n < 2 ^ 32
      → read_consumed (o.put 4 seq ++ o.put 4 n) ≡ ok (consumed seq n, [])
  unfolding read_consumed
  read_consumed-put seq n h k =
      ground (arith, read_uint-put 4 seq (o.put 4 n) h, read_u32-put_end n k)

  abbrev pub ReadsBack : LinkMsg → Type 0
  ReadsBack m = (b : Bytes) × (encode m ≡ ok b) × (read b ≡ ok (m, []))

  -- Every message with fields of their widths and user data below 64 KiB is encoded, and the
  -- decoder returns the message from its bytes and leaves none of them.
  pub read-encode : (m : LinkMsg) → IsMsg m → length (user_data_of m) < 2 ^ 16 → ReadsBack m
  unfolding encode write_body msg_id read read_body read_u8 count_rest
  read-encode (welcome ext key sid ud cfg) h hu = (
    1 ∷ welcome_bytes ext key sid ud cfg,
    ground (arith, write_user_data_ok ud hu),
    ground (arith, read_welcome-put ext key sid ud cfg hu h),
  )
  read-encode (connect ext key none cid ex ud cfg) h hu = (
    2 ∷ connect_bytes ext key 0 cid ex ud cfg,
    ground (arith, write_user_data_ok ud hu),
    ground (arith, read_connect-put ext key 0 cid ex ud cfg hu h.0 h.1 (omega arith) h.2 h.3 h.4),
  )
  read-encode (connect ext key (some sid) cid ex ud cfg) h hu = (
    2 ∷ connect_bytes ext key sid cid ex ud cfg,
    ground (arith, write_user_data_ok ud hu),
    ground (arith, read_connect-put ext key sid cid ex ud cfg hu h.0 h.1 h.3 h.4 h.5 h.6),
  )
  read-encode accepted h hu = (_, refl, refl)
  read-encode (refused r) h hu = (_, refl, ground (arith, reason_of_id-reason_id r []))
  read-encode ping h hu = (_, refl, refl)
  read-encode pong h hu = (_, refl, refl)
  read-encode (data_msg s) h hu = (_, refl, ground (arith, read_u32-put_end s h))
  read-encode (ack s) h hu = (_, refl, ground (arith, read_u32-put_end s h))
  read-encode (consumed s n) h hu = (_, refl, ground (arith, read_consumed-put s n h.0 h.1))
  read-encode (send_finish s) h hu = (_, refl, ground (arith, read_u32-put_end s h))
  read-encode (receive_close s) h hu = (_, refl, ground (arith, read_u32-put_end s h))
  read-encode (receive_finish s) h hu = (_, refl, ground (arith, read_u32-put_end s h))
  read-encode (test_data n) h hu = (_, refl, ground (arith, length-test_bytes n 0))
  read-encode (set_block b) h hu = (_, refl, ground arith)
  read-encode goodbye h hu = (_, refl, refl)
  read-encode terminate h hu = (_, refl, refl)
