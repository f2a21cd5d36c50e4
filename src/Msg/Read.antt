-- ===== src/Msg/Read.antt =====
-- `LinkMsg::read` and `ExchangedCfg::read`.
use aggligator.Base.{
  ℕ, Bool, true, false, not, Option, none, some, ◌==◌, if◌then◌else◌, [], ◌∷◌, length, ◌&&◌,
}
use aggligator.Bytes.{
  Bytes, ByteOrder, Reader, ◌>>=◌, ◌>>◌, pure, fail, read_exact, read_u8, read_uint, count_rest,
  IoError, invalid_magic, wrong_version, zero_server_id, zero_recv_buffer, invalid_message_id,
}
use aggligator.Cfg.{ExchangedCfg}
use aggligator.Msg.{
  LinkMsg, welcome, connect, accepted, refused, ping, pong, data_msg, ack, consumed, send_finish,
  receive_close, receive_finish, test_data, set_block, goodbye, terminate, magic, protocol_version,
  reason_of_id,
}

-- `==` on byte vectors
unfoldable pub bytes_eq : Bytes → Bytes → Bool
bytes_eq [] [] = true
bytes_eq (x ∷ xs) (y ∷ ys) = (x == y) && bytes_eq xs ys
bytes_eq _ _ = false

abbrev pub unless : Bool → IoError → Reader (Unit {0})
unless true e = pure tt
unless false e = fail e

-- The magic identifier and the protocol version.
unfoldable pub read_preamble : Reader (Unit {0})
unfolding bytes_eq
read_preamble = do
  m ← read_exact (length magic)
  unless (bytes_eq m magic) invalid_magic
  version ← read_u8
  unless (version == protocol_version) (wrong_version version)

-- `NonZero::new(n).ok_or_else(..)`
abbrev pub non_zero : IoError → ℕ → Reader ℕ
non_zero e n = if n == 0 then fail e else pure n

-- `NonZeroU128::new(n).map(ServerId)`
abbrev pub server_id_opt : ℕ → Option ℕ
server_id_opt n = if n == 0 then none else some n

module _ ⦃o : ByteOrder⦄ where
  unfoldable pub read_cfg : Reader ExchangedCfg
  read_cfg = do
    n ← read_uint 4
    recv_buffer ← non_zero zero_recv_buffer n
    pure (record { recv_buffer = recv_buffer })

  unfoldable pub read_user_data : Reader Bytes
  read_user_data = do len ← read_uint 2; read_exact len

  unfoldable pub read_welcome : Reader LinkMsg
  read_welcome = do
    read_preamble
    ext ← read_uint 4
    key ← read_exact 32
    n ← read_uint 16
    sid ← non_zero zero_server_id n
    ud ← read_user_data
    cfg ← read_cfg
    pure (welcome ext key sid ud cfg)

  unfoldable pub read_connect : Reader LinkMsg
  read_connect = do
    read_preamble
    ext ← read_uint 4
    key ← read_exact 32
    sid ← read_uint 16
    cid ← read_uint 16
    existing ← read_u8
    ud ← read_user_data
    cfg ← read_cfg
    pure (connect ext key (server_id_opt sid) cid (not (existing == 0)) ud cfg)

  unfoldable pub read_consumed : Reader LinkMsg
  read_consumed = do seq ← read_uint 4; n ← read_uint 4; pure (consumed seq n)

  -- The rest of a message with id `id`.
  unfoldable pub read_body : ℕ → Reader LinkMsg
  read_body id =
      if id == 1
      then read_welcome
      else if id == 2
      then read_connect
      else if id == 3
      then pure accepted
      else if id == 4
      then (do b ← read_u8; reason ← reason_of_id b; pure (refused reason))
      else if id == 5
      then pure ping
      else if id == 6
      then pure pong
      else if id == 7
      then (do seq ← read_uint 4; pure (data_msg seq))
      else if id == 8
      then (do received ← read_uint 4; pure (ack received))
      else if id == 9
      then read_consumed
      else if id == 10
      then (do seq ← read_uint 4; pure (send_finish seq))
      else if id == 11
      then (do seq ← read_uint 4; pure (receive_close seq))
      else if id == 12
      then (do seq ← read_uint 4; pure (receive_finish seq))
      else if id == 13
      then (do size ← count_rest; pure (test_data size))
      else if id == 14
      then (do b ← read_u8; pure (set_block (not (b == 0))))
      else if id == 15
      then pure goodbye
      else if id == 16
      then pure terminate
      else fail (invalid_message_id id)

  -- `LinkMsg::read`
  unfoldable pub read : Reader LinkMsg
  read = do id ← read_u8; read_body id
