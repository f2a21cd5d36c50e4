-- ===== src/Handshake/Tests.antt =====
-- A client that connects to a server, with its first and its second link.
use aggligator.Base.{ℕ, ◌+◌, ◌%◌, ◌^◌, ◌≡◌, refl, ap, inl, true, false, none, some, [], ◌∷◌, arith}
use aggligator.Base.Result.{ok}
use aggligator.Bytes.BigEndian.{big_endian, put, get}
use aggligator.Cfg.{default_cfg}
use aggligator.Msg.{LinkMsg}
use aggligator.Server.{
  ServerInner, existing_conn, new_conn, cleanup_links, connection_loop, welcome_msg, settle, Joined,
}
use aggligator.Control.{Control, on_welcome, on_reply}
use aggligator.Handshake.Secret.{KeyExchange, read_answer, read_connect_msg-on_welcome}
use aggligator.Handshake.Joining.{DecidesIn, connection_loop-DecidesIn}

-- A key exchange without secrecy
abbrev open_exchange : KeyExchange
open_exchange = record {
  public_key = λ a. a;
  diffie_hellman = λ a b. put 16 ((get a + get b) % 2 ^ 128);
  agrees = λ a b. ap (λ (n : ℕ). put 16 (n % 2 ^ 128)) (omega arith);
}

abbrev server : ServerInner
server = record {
  cfg = default_cfg;
  server_id = 31;
  conns = (4, 70) ∷ (5, 71) ∷ [];
  closed_conns = 4 ∷ [];
  listening = true;
}

abbrev client : Control
client = record {
  cfg = default_cfg;
  conn_id = 9;
  server_id = none;
  remote_server_id = none;
  connected = false;
  fatal = [];
}

read_connect_msg-on_welcome_example :
    let reply =
      on_welcome
        (7 ∷ [])
        (open_exchange.diffie_hellman (7 ∷ []))
        []
        (welcome_msg (8 ∷ []) [] server)
        client in
    (reply.0 ≡ record client { remote_server_id = some 31 })
    × (read_answer (open_exchange.diffie_hellman (8 ∷ [])) reply.1 ≡ ok (9, false, none))
read_connect_msg-on_welcome_example =
    read_connect_msg-on_welcome open_exchange (7 ∷ []) (8 ∷ []) [] [] server client (inl refl)

connection_loop-DecidesIn_example :
    DecidesIn
      (λ s. (s, true))
      9
      false
      72
      5
      server
      (connection_loop 2 (λ s. (s, true)) none 72 9 false server)
connection_loop-DecidesIn_example = connection_loop-DecidesIn 0 (λ s. (s, true)) 72 9 5 false server

-- The first link of the client starts a connection, and its second one joins it.
first_link :
    connection_loop 2 (λ s. (s, true)) none 72 9 client.connected (cleanup_links server)
    ≡ (record server { conns = (9, 72) ∷ (5, 71) ∷ []; closed_conns = [] }, some (new_conn 72))
unfolding connection_loop cleanup_links
first_link = refl

second_link :
    connection_loop 2
      (λ s. (s, true))
      none
      73
      9
      (on_reply LinkMsg.accepted client).0.connected
      (record server { conns = (9, 72) ∷ [] })
    ≡ (record server { conns = (9, 72) ∷ [] }, some (existing_conn 72))
unfolding connection_loop on_reply
second_link = refl

settled : settle (existing_conn 72) true ≡ ok (none, ok (Joined.joined 72))
unfolding settle
settled = refl
