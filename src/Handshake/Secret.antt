-- ===== src/Handshake/Secret.antt =====
-- What the server learns of the client: `Control::add` answers the welcome of `Server::add_incoming`.
use aggligator.Base.{ℕ, ◌≡◌, ap, ◌∙◌, ◌⊎◌, inl, inr, Bool, Option, none, some, ==_self, arith}
use aggligator.Base.Result.{Result, ok, err}
use aggligator.Bytes.{Bytes, ByteOrder}
use aggligator.Msg.{LinkMsg}
use aggligator.Id.{encrypt, decrypt, decrypt-encrypt}
use aggligator.Server.{ServerInner, IncomingError, welcome_msg, read_connect_msg}
use aggligator.Control.{Control, AddLinkError, check_server_id, connect_msg, on_welcome}

-- The parts of the crate x25519_dalek that the handshake uses: two ends that exchange their public keys get the
-- same secret.
pub record KeyExchange : Type 0 where
  pub public_key : Bytes → Bytes
  pub diffie_hellman : Bytes → Bytes → Bytes
  pub agrees : (a b : Bytes) → diffie_hellman a (public_key b) ≡ diffie_hellman b (public_key a)

-- The link belongs to no connection with another server.
abbrev pub SameServer : ServerInner → Control → Type 0
SameServer s c = (c.remote_server_id ≡ none) ⊎ (c.remote_server_id ≡ some s.server_id)

check_server_id-SameServer :
    (s : ServerInner) (c : Control)
    → SameServer s c
    → check_server_id s.server_id c ≡ (record c { remote_server_id = some s.server_id }, ok tt)
unfolding check_server_id
check_server_id-SameServer s c (inl h) = ground arith
check_server_id-SameServer s c (inr h) = ground (arith, ==_self s.server_id)

-- What the server reads of a client's answer to its welcome is an error where there is none.
abbrev pub read_answer :
    ⦃o : ByteOrder⦄
    → (Bytes → Bytes)
    → Result AddLinkError LinkMsg
    → Result IncomingError (ℕ × Bool × Option ℕ)
read_answer shared (ok msg) = read_connect_msg shared msg
read_answer shared (err e) = err IncomingError.io

on_welcome-SameServer :
    ⦃o : ByteOrder⦄
    → (public_key : Bytes) (shared : Bytes → Bytes) (user_data server_key server_data : Bytes)
      (s : ServerInner) (c : Control)
    → SameServer s c
    → let c' : Control = record c { remote_server_id = some s.server_id } in
      on_welcome public_key shared user_data (welcome_msg server_key server_data s) c
      ≡ (c', ok (connect_msg public_key (shared server_key) user_data c'))
unfolding on_welcome welcome_msg
on_welcome-SameServer public_key shared user_data server_key server_data s c h =
    ground (arith, check_server_id-SameServer s c h)

module _ ⦃o : ByteOrder⦄ (k : KeyExchange) where
  -- What the server reads when the two ends have these secrets
  abbrev read_encrypted : Bytes → Bytes → Control → Result IncomingError (ℕ × Bool × Option ℕ)
  read_encrypted secret secret' c =
      ok (decrypt (encrypt c.conn_id secret) secret', c.connected, c.server_id)

  -- A client that has no link yet, or only links to this server, answers the server's welcome with a message from
  -- which the server gets the client's connection id, whether the client is connected and its server
  -- id, whatever secrets the two ends drew; the client keeps the server's id and is otherwise
  -- unchanged.
  pub read_connect_msg-on_welcome :
      (client_secret server_secret client_data server_data : Bytes) (s : ServerInner) (c : Control)
      → SameServer s c
      → let reply =
          on_welcome
            (k.public_key client_secret)
            (k.diffie_hellman client_secret)
            client_data
            (welcome_msg (k.public_key server_secret) server_data s)
            c in
        (reply.0 ≡ record c { remote_server_id = some s.server_id })
        × (read_answer (k.diffie_hellman server_secret) reply.1
            ≡ ok (c.conn_id, c.connected, c.server_id))
  unfolding connect_msg read_connect_msg
  read_connect_msg-on_welcome client_secret server_secret client_data server_data s c h =
      let key : Bytes = k.public_key client_secret in
      let shared : Bytes → Bytes = k.diffie_hellman client_secret in
      let server_key : Bytes = k.public_key server_secret in
      let back : Bytes → Bytes = k.diffie_hellman server_secret in
      let e = on_welcome-SameServer key shared client_data server_key server_data s c h in
      (
        ap (λ r. r.0) e,
        ap (λ r. read_answer back r.1) e
            ∙ ap (λ (secret : Bytes). read_encrypted secret (back key) c)
                (k.agrees client_secret server_secret)
            ∙ ap (λ (id : ℕ). ok (id, c.connected, c.server_id))
                (decrypt-encrypt c.conn_id (back key)),
      )
