-- ===== src/Msg.antt =====
-- aggligator/src/msg.rs: the messages between two endpoints.
pub mod Write
pub mod Read
pub mod RoundTrip
pub mod Errors
pub mod Reliable
mod Tests
use aggligator.Base.{
  ℕ, ◌<◌, ◌≤◌, ◌^◌, ◌≡◌, ◌≢◌, ◌==◌, Bool, Option, none, some, length, if◌then◌else◌, List, [], ◌∷◌,
}
use aggligator.Bytes.{Bytes, unknown_refused_reason, Reader, pure, fail}
use aggligator.Seq.{Seq}
use aggligator.Cfg.{ExchangedCfg}

pub data RefusedReason : Type 0 where
  closed not_listening connection_refused link_refused : RefusedReason

-- `From<RefusedReason> for u8`
unfoldable pub reason_id : RefusedReason → ℕ
reason_id closed = 1
reason_id not_listening = 2
reason_id connection_refused = 3
reason_id link_refused = 4

-- `TryFrom<u8> for RefusedReason`
unfoldable pub reason_of_id : ℕ → Reader RefusedReason
reason_of_id value =
    if value == 1
    then pure closed
    else if value == 2
    then pure not_listening
    else if value == 3
    then pure connection_refused
    else if value == 4
    then pure link_refused
    else fail (unknown_refused_reason value)

-- A public key is the 32 bytes that the code sends and receives; an id is its number.
pub data LinkMsg : Type 0 where
  welcome :
      (extensions : ℕ) (public_key : Bytes) (server_id : ℕ) (user_data : Bytes) (cfg : ExchangedCfg)
      → LinkMsg
  connect :
      (extensions : ℕ) (public_key : Bytes) (server_id : Option ℕ) (connection_id : ℕ)
      (existing_connection : Bool) (user_data : Bytes) (cfg : ExchangedCfg)
      → LinkMsg
  accepted : LinkMsg
  refused : RefusedReason → LinkMsg
  ping pong : LinkMsg
  data_msg : Seq → LinkMsg
  ack : Seq → LinkMsg
  consumed : Seq → ℕ → LinkMsg
  send_finish : Seq → LinkMsg
  receive_close : Seq → LinkMsg
  receive_finish : Seq → LinkMsg
  test_data : ℕ → LinkMsg
  set_block : Bool → LinkMsg
  goodbye terminate : LinkMsg

abbrev pub protocol_version : ℕ
protocol_version = 4

-- b"LIAG\0"
abbrev pub magic : Bytes
magic = b'L' ∷ b'I' ∷ b'A' ∷ b'G' ∷ 0 ∷ []

-- The `MSG_` constants.
unfoldable pub msg_id : LinkMsg → ℕ
msg_id (welcome _ _ _ _ _) = 1
msg_id (connect _ _ _ _ _ _ _) = 2
msg_id accepted = 3
msg_id (refused _) = 4
msg_id ping = 5
msg_id pong = 6
msg_id (data_msg _) = 7
msg_id (ack _) = 8
msg_id (consumed _ _) = 9
msg_id (send_finish _) = 10
msg_id (receive_close _) = 11
msg_id (receive_finish _) = 12
msg_id (test_data _) = 13
msg_id (set_block _) = 14
msg_id goodbye = 15
msg_id terminate = 16

-- `ReliableMsg`
pub data ReliableMsg : Type 0 where
  data_msg : Bytes → ReliableMsg
  consumed : ℕ → ReliableMsg
  send_finish receive_close receive_finish : ReliableMsg

-- What the field types guarantee: widths of the integers, and that the `NonZero` ones are not zero.
abbrev pub IsMsg : LinkMsg → Type 0
IsMsg (welcome ext key sid ud cfg) =
    (ext < 2 ^ 32)
    × (length key ≡ 32)
    × (0 < sid)
    × (sid < 2 ^ 128)
    × (0 < cfg.recv_buffer)
    × (cfg.recv_buffer < 2 ^ 32)
IsMsg (connect ext key none cid ex ud cfg) =
    (ext < 2 ^ 32)
    × (length key ≡ 32)
    × (cid < 2 ^ 128)
    × (0 < cfg.recv_buffer)
    × (cfg.recv_buffer < 2 ^ 32)
IsMsg (connect ext key (some sid) cid ex ud cfg) =
    (ext < 2 ^ 32)
    × (length key ≡ 32)
    × (0 < sid)
    × (sid < 2 ^ 128)
    × (cid < 2 ^ 128)
    × (0 < cfg.recv_buffer)
    × (cfg.recv_buffer < 2 ^ 32)
IsMsg (data_msg s) = s < 2 ^ 32
IsMsg (ack s) = s < 2 ^ 32
IsMsg (consumed s n) = (s < 2 ^ 32) × (n < 2 ^ 32)
IsMsg (send_finish s) = s < 2 ^ 32
IsMsg (receive_close s) = s < 2 ^ 32
IsMsg (receive_finish s) = s < 2 ^ 32
IsMsg _ = Unit {0}

-- The user data that a message carries.
abbrev pub user_data_of : LinkMsg → Bytes
user_data_of (welcome _ _ _ ud _) = ud
user_data_of (connect _ _ _ _ _ ud _) = ud
user_data_of _ = []
