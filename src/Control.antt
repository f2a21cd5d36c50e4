-- ===== src/Control.antt =====
-- aggligator/src/control.rs, `Control::add`: the client's side of the handshake of a link.
use aggligator.Base.{
  ℕ, Bool, true, false, Option, none, some, List, [], ◌∷◌, ◌++◌, ◌==◌, if◌then◌else◌,
}
use aggligator.Base.Result.{Result, ok, err}
use aggligator.Bytes.{Bytes, ByteOrder}
use aggligator.Cfg.{Cfg, exchanged}
use aggligator.Msg.{LinkMsg, RefusedReason}
use aggligator.Id.{encrypt}
use aggligator.Task.Loop.{FatalConnectError}

pub data AddLinkError : Type 0 where
  io not_listening connection_closed connection_refused link_refused aborted_by_server :
      AddLinkError
  server_id_mismatch : (expected present : ℕ) → AddLinkError

-- `From<RefusedReason>`
unfoldable pub refused_error : RefusedReason → AddLinkError
refused_error RefusedReason.closed = aborted_by_server
refused_error RefusedReason.not_listening = not_listening
refused_error RefusedReason.connection_refused = connection_refused
refused_error RefusedReason.link_refused = link_refused

unfoldable pub should_reconnect : AddLinkError → Bool
should_reconnect io = true
should_reconnect _ = false

-- The fields that `add` uses. `fatal` are the errors sent over `fatal_connect_error_tx`.
pub record Control : Type 0 where
  pub cfg : Cfg
  pub conn_id : ℕ
  pub server_id : Option ℕ
  pub remote_server_id : Option ℕ
  pub connected : Bool
  pub fatal : List FatalConnectError

-- The server id of the first link is kept, and that of the others compared with it.
unfoldable pub check_server_id : ℕ → Control → Control × Result AddLinkError (Unit {0})
check_server_id present c = elim c.remote_server_id [
  | none ↦ (record c { remote_server_id = some present }, ok tt)
  | some expected ↦ if expected == present then (c, ok tt) else (
    if c.cfg.disconnect_on_server_id_mismatch
        then record c { fatal = c.fatal ++ (FatalConnectError.server_id_mismatch ∷ []) }
        else c,
    err (server_id_mismatch expected present),
  )
]

-- The answer to `Welcome`. `shared` is the Diffie-Hellman secret with the server's public key.
unfoldable pub connect_msg : ⦃o : ByteOrder⦄ → Bytes → Bytes → Bytes → Control → LinkMsg
unfolding encrypt
connect_msg public_key secret user_data c =
    LinkMsg.connect 0 public_key c.server_id (encrypt c.conn_id secret) c.connected user_data
      (exchanged c.cfg)

unfoldable pub on_welcome :
    ⦃o : ByteOrder⦄
    → Bytes
    → (Bytes → Bytes)
    → Bytes
    → LinkMsg
    → Control
    → Control × Result AddLinkError LinkMsg
unfolding check_server_id connect_msg
on_welcome public_key shared user_data (LinkMsg.welcome ext server_key server_id ud cfg) c =
    let (c', checked) = check_server_id server_id c in
    (
      c',
      elim checked [
        | ok u ↦ ok (connect_msg public_key (shared server_key) user_data c')
        | err e ↦ err e
      ],
    )
on_welcome public_key shared user_data _ c = (c, err io)

-- The server's answer: whether the connection had a link before.
unfoldable pub on_reply : LinkMsg → Control → Control × Result AddLinkError Bool
unfolding refused_error
on_reply LinkMsg.accepted c = (record c { connected = true }, ok c.connected)
on_reply (LinkMsg.refused RefusedReason.closed) c = (
  record c { fatal = c.fatal ++ (FatalConnectError.closed ∷ []) },
  err (refused_error RefusedReason.closed),
)
on_reply (LinkMsg.refused reason) c = (c, err (refused_error reason))
on_reply _ c = (c, err io)
