-- ===== src/Server.antt =====
-- aggligator/src/connect.rs: the server, which joins incoming links to connections. The channel over which a
-- connection gets its links is a number; what tokio answers (a permit, a place in a channel) is an
-- argument, and so is what happens to the server while it waits with its lock released.
use aggligator.Base.{
  ℕ, zero, suc, Bool, true, false, Option, none, some, List, [], ◌∷◌, ◌==◌, if◌then◌else◌,
}
use aggligator.Base.Result.{Result, ok, err}
use aggligator.Fault.{Run, panic}
use aggligator.Bytes.{Bytes, ByteOrder}
use aggligator.Cfg.{Cfg, exchanged}
use aggligator.Msg.{LinkMsg, RefusedReason}
use aggligator.Id.{decrypt}

pub data ListenError : Type 0 where
  already_listening : ListenError

pub data IncomingError : Type 0 where
  io refused not_listening closed server_dropped : IncomingError

-- `ServerInner`: `conns` has the channel of each connection, `closed_conns` the ids of connections that ended,
-- `listening` is whether the receiver of `listen_tx` is there.
pub record ServerInner : Type 0 where
  pub cfg : Cfg
  pub server_id : ℕ
  pub conns : List (ℕ × ℕ)
  pub closed_conns : List ℕ
  pub listening : Bool

unfoldable pub lookup : ℕ → List (ℕ × ℕ) → Option ℕ
lookup id [] = none
lookup id ((j, ch) ∷ conns) = if id == j then some ch else lookup id conns

unfoldable pub remove : ℕ → List (ℕ × ℕ) → List (ℕ × ℕ)
remove id [] = []
remove id ((j, ch) ∷ conns) = let rest = remove id conns in if id == j then rest else (j, ch) ∷ rest

unfoldable pub remove_all : List ℕ → List (ℕ × ℕ) → List (ℕ × ℕ)
unfolding remove
remove_all [] conns = conns
remove_all (id ∷ ids) conns = remove_all ids (remove id conns)

-- `cleanup_links`
unfoldable pub cleanup_links : ServerInner → ServerInner
unfolding remove_all
cleanup_links s = record s { conns = remove_all s.closed_conns s.conns; closed_conns = [] }

-- `connect`: an outgoing connection to which incoming links can be added
unfoldable pub connect : ℕ → ℕ → ServerInner → ServerInner
unfolding remove
connect id channel s = record s { conns = (id, channel) ∷ remove id s.conns }

unfoldable pub listen : ServerInner → ServerInner × Result ListenError (Unit {0})
listen s =
    if s.listening
    then (s, err ListenError.already_listening)
    else (record s { listening = true }, ok tt)

-- `enum Connection` of `add_incoming`
pub data Connection : Type 0 where
  existing_conn : (link_tx : ℕ) → Connection
  new_conn : (link_tx : ℕ) → Connection
  refuse : RefusedReason → IncomingError → Connection

-- Where no connection has the id: `permit` is the listen queue's, if it was asked for one.
unfoldable pub vacant_entry :
    Option Bool → ℕ → ℕ → Bool → ServerInner → ServerInner × Option Connection
vacant_entry permit fresh id true s = (s, some (refuse RefusedReason.closed IncomingError.closed))
vacant_entry (some true) fresh id false s =
    (record s { conns = (id, fresh) ∷ s.conns }, some (new_conn fresh))
vacant_entry (some false) fresh id false s =
    (s, some (refuse RefusedReason.not_listening IncomingError.not_listening))
vacant_entry none fresh id false s = (s, none)

-- A round of the loop; `fresh` is the channel that it makes for a new connection.
unfoldable pub entry : Option Bool → ℕ → ℕ → Bool → ServerInner → ServerInner × Option Connection
unfolding lookup vacant_entry
entry permit fresh id existing s = elim (lookup id s.conns) [
  | some channel ↦ (s, some (existing_conn channel))
  | none ↦ vacant_entry permit fresh id existing s
]

-- The loop breaks, or goes on when it has waited for a permit.
unfoldable pub next_round :
    (ServerInner → Bool → ServerInner × Option Connection)
    → (ServerInner → ServerInner × Bool)
    → ServerInner × Option Connection
    → ServerInner × Option Connection
next_round again wait (s, some c) = (s, some c)
next_round again wait (s, none) = again (wait s).0 (wait s).1

-- The loop: `wait` is what waiting for a permit gives, and the server after that.
unfoldable pub connection_loop :
    ℕ
    → (ServerInner → ServerInner × Bool)
    → Option Bool
    → ℕ
    → ℕ
    → Bool
    → ServerInner
    → ServerInner × Option Connection
unfolding entry next_round
connection_loop zero wait permit fresh id existing s = (s, none)
connection_loop (suc n) wait permit fresh id existing s =
    next_round
      (λ (s' : ServerInner) (permit' : Bool).
        connection_loop n wait (some permit') fresh id existing s')
      wait (entry permit fresh id existing s)

-- Where the link goes: to a connection, or to the listener with a new connection
pub data Joined : Type 0 where
  joined started : ℕ → Joined

-- The last step: what is sent to refuse the link, and the result. `taken` is whether the channel takes the
-- link, which a new connection's unwraps.
unfoldable pub settle :
    Connection → (taken : Bool) → Run (Option LinkMsg × Result IncomingError Joined)
settle (existing_conn channel) true = ok (none, ok (joined channel))
settle (existing_conn channel) false =
    ok (some (LinkMsg.refused RefusedReason.closed), err IncomingError.closed)
settle (new_conn channel) true = ok (none, ok (started channel))
settle (new_conn channel) false = err panic
settle (refuse reason e) taken = ok (some (LinkMsg.refused reason), err e)

-- The handshake: the server's first message, and what it reads of the answer: the connection id, whether the
-- connection exists and the client's server id. `shared` is the Diffie-Hellman secret with a public key.
unfoldable pub welcome_msg : Bytes → Bytes → ServerInner → LinkMsg
welcome_msg public_key user_data s =
    LinkMsg.welcome 0 public_key s.server_id user_data (exchanged s.cfg)

unfoldable pub read_connect_msg :
    ⦃o : ByteOrder⦄ → (Bytes → Bytes) → LinkMsg → Result IncomingError (ℕ × Bool × Option ℕ)
unfolding decrypt
read_connect_msg shared (LinkMsg.connect ext public_key server_id cid existing user_data cfg) =
    ok (decrypt cid (shared public_key), existing, server_id)
read_connect_msg shared _ = err IncomingError.io
