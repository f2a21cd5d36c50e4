-- ===== src/Msg/Write.antt =====
-- `LinkMsg::write` and `LinkMsg::encode`, and `ExchangedCfg::write`.
use aggligator.Base.{
  ℕ, zero, suc, ◌%◌, ◌^◌, Bool, true, false, Option, none, some, [], ◌∷◌, ◌++◌, length, ltb,
  if◌then◌else◌,
}
use aggligator.Base.Result.{Result, ok, err, ◌>>=◌}
use aggligator.Bytes.{Bytes, ByteOrder, IoError, user_data_too_long}
use aggligator.Cfg.{ExchangedCfg}
use aggligator.Msg.{
  LinkMsg, welcome, connect, accepted, refused, ping, pong, data_msg, ack, consumed, send_finish,
  receive_close, receive_finish, test_data, set_block, goodbye, terminate, magic, protocol_version,
  reason_id, msg_id,
}

-- `for n in 0..size { write_u8(n as u8) }`, from `n` on
unfoldable pub test_bytes : ℕ → ℕ → Bytes
test_bytes zero n = []
test_bytes (suc k) n = (n % 256) ∷ test_bytes k (suc n)

-- `bool as u8`
abbrev pub bool_u8 : Bool → ℕ
bool_u8 true = 1
bool_u8 false = 0

-- `server_id.map(|si| si.0.get()).unwrap_or(0)`
abbrev pub server_id_u128 : Option ℕ → ℕ
server_id_u128 none = 0
server_id_u128 (some sid) = sid

module _ ⦃o : ByteOrder⦄ where
  unfoldable pub write_cfg : ExchangedCfg → Bytes
  write_cfg cfg = o.put 4 cfg.recv_buffer

  -- The length in two bytes, and the data. `try_into` refuses a length beyond `u16`.
  unfoldable pub write_user_data : Bytes → Result IoError Bytes
  write_user_data ud =
      if ltb (length ud) (2 ^ 16) then ok (o.put 2 (length ud) ++ ud) else err user_data_too_long

  -- The bytes that follow the message id.
  unfoldable pub write_body : LinkMsg → Result IoError Bytes
  write_body (welcome ext key sid ud cfg) = do
    u ← write_user_data ud
    ok (
        magic
        ++ (protocol_version ∷ (o.put 4 ext ++ (key ++ (o.put 16 sid ++ (u ++ write_cfg cfg))))))
  write_body (connect ext key sid cid existing ud cfg) = do
    u ← write_user_data ud
    ok (
        magic
        ++ (protocol_version
            ∷ (o.put 4 ext
                ++ (key
                    ++ (o.put 16 (server_id_u128 sid)
                        ++ (o.put 16 cid ++ (bool_u8 existing ∷ (u ++ write_cfg cfg))))))))
  write_body accepted = ok []
  write_body (refused reason) = ok (reason_id reason ∷ [])
  write_body ping = ok []
  write_body pong = ok []
  write_body (data_msg seq) = ok (o.put 4 seq)
  write_body (ack received) = ok (o.put 4 received)
  write_body (consumed seq n) = ok (o.put 4 seq ++ o.put 4 n)
  write_body (send_finish seq) = ok (o.put 4 seq)
  write_body (receive_close seq) = ok (o.put 4 seq)
  write_body (receive_finish seq) = ok (o.put 4 seq)
  write_body (test_data size) = ok (test_bytes size 0)
  write_body (set_block blocked) = ok (bool_u8 blocked ∷ [])
  write_body goodbye = ok []
  write_body terminate = ok []

  -- `encode`, which unwraps the result of `write`: an error is a panic there.
  unfoldable pub encode : LinkMsg → Result IoError Bytes
  encode m = do b ← write_body m; ok (msg_id m ∷ b)
