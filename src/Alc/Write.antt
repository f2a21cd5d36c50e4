-- ===== src/Alc/Write.antt =====
-- Writing to a `SenderSink`: how bytes are put into packets, and when a write is refused.
use aggligator.Base.{
  ℕ, ◌≤◌, ◌<◌, ◌≡◌, refl, ap, ◌∙◌, ◌⊎◌, inl, inr, Bool, true, false, none, List, [], ◌∷◌, ◌++◌,
  length, take, Bool-cases, ltb, ltb→lt, lt→ltb, ge→ltb, ltb→ge, length-take_le, arith,
}
use aggligator.Base.Result.{ok, err}
use aggligator.Bytes.{Bytes}
use aggligator.Task.Defs.{SendReq, SendError}
use aggligator.Alc.{Poll, SendChannel, IsOrdered}
use aggligator.Alc.Sender.{
  SenderSink, max_send_size, channel_ready, poll_ready, start_send, write_len, write_when_ready,
  poll_write,
}

module _ {TX : Type 0} ⦃c : SendChannel TX⦄ (queue : TX → List SendReq)
    (ordered : IsOrdered queue) where
  abbrev pub requests : SenderSink TX → List SendReq
  requests s = queue s.tx

  -- A sink that is not closed, has no flush under way, and whose channel is ready and takes what it is given.
  pub record IsOpen (s : SenderSink TX) : Type 0 where
    pub not_closed : s.closed ≡ false
    pub no_flush : s.flushed_rx ≡ none
    pub ready : (c.poll_ready s.tx).1 ≡ Poll.ready true
    pub takes : (item : Bytes) → (c.start_send (c.poll_ready s.tx).0 (SendReq.send item)).1 ≡ true

  -- The sink after its channel was asked whether it is ready
  abbrev asked : SenderSink TX → SenderSink TX
  asked s = record s { tx = (c.poll_ready s.tx).0 }

  -- The sink after it has sent an item
  abbrev pub sent : Bytes → SenderSink TX → SenderSink TX
  sent item s = record s { tx = (c.start_send (c.poll_ready s.tx).0 (SendReq.send item)).0 }

  poll_ready-IsOpen :
      (answer : ℕ → Poll Bool) (s : SenderSink TX)
      → IsOpen s
      → poll_ready answer s ≡ (asked s, Poll.ready (ok tt))
  unfolding poll_ready channel_ready
  poll_ready-IsOpen answer s o = ground arith

  start_send-big :
      (item : Bytes) (s : SenderSink TX)
      → s.closed ≡ false
      → max_send_size s.remote_cfg < length item
      → start_send item s ≡ (s, err SendError.data_too_big)
  unfolding start_send
  start_send-big item s open_ h =
      ground (arith, lt→ltb (max_send_size s.remote_cfg) (length item) h)

  start_send-fits :
      (item : Bytes) (s : SenderSink TX)
      → s.closed ≡ false
      → length item ≤ max_send_size s.remote_cfg
      → (c.start_send s.tx (SendReq.send item)).1 ≡ true
      → start_send item s ≡ (record s { tx = (c.start_send s.tx (SendReq.send item)).0 }, ok tt)
  unfolding start_send
  start_send-fits item s open_ h k =
      ground (arith, ge→ltb (max_send_size s.remote_cfg) (length item) h)

  length-piece :
      (buf : Bytes) (s : SenderSink TX) → length (take (write_len buf s) buf) ≡ write_len buf s
  unfolding write_len
  length-piece buf s = length-take_le _ buf (omega arith)

  write_big :
      (answer : ℕ → Poll Bool) (buf : Bytes) (s : SenderSink TX)
      → IsOpen s
      → max_send_size s.remote_cfg < write_len buf s
      → poll_write answer buf s ≡ (asked s, Poll.ready (err SendError.data_too_big))
  unfolding poll_write write_when_ready write_len
  write_big answer buf s o h = rw (poll_ready-IsOpen answer s o) (
      rw
        (start_send-big (take (write_len buf s) buf) (asked s) o.not_closed
          (omega (arith, h, length-piece buf s)))
        refl)

  pub write_fits :
      (answer : ℕ → Poll Bool) (buf : Bytes) (s : SenderSink TX)
      → IsOpen s
      → write_len buf s ≤ max_send_size s.remote_cfg
      → poll_write answer buf s
        ≡ (sent (take (write_len buf s) buf) s, Poll.ready (ok (write_len buf s)))
  unfolding poll_write write_when_ready write_len
  write_fits answer buf s o h = rw (poll_ready-IsOpen answer s o) (
      rw
        (start_send-fits (take (write_len buf s) buf) (asked s) o.not_closed
          (omega (arith, h, length-piece buf s)) (o.takes (take (write_len buf s) buf)))
        refl)

  -- A write to an open sink is refused as too big, and sends nothing, exactly if the piece of the buffer that
  -- it would put into one packet is larger than the remote endpoint allows; else just this piece is queued
  -- behind the earlier requests, and its length is returned.
  pub poll_write-pieces :
      (answer : ℕ → Poll Bool) (buf : Bytes) (s : SenderSink TX)
      → IsOpen s
      → ((max_send_size s.remote_cfg < write_len buf s)
          × ((poll_write answer buf s).1 ≡ Poll.ready (err SendError.data_too_big))
          × (requests (poll_write answer buf s).0 ≡ requests s))
        ⊎ ((write_len buf s ≤ max_send_size s.remote_cfg)
            × ((poll_write answer buf s).1 ≡ Poll.ready (ok (write_len buf s)))
            × (requests (poll_write answer buf s).0
                ≡ requests s ++ (SendReq.send (take (write_len buf s) buf) ∷ [])))
  poll_write-pieces answer buf s o =
      elim (Bool-cases (ltb (max_send_size s.remote_cfg) (write_len buf s))) [
        | inl big ↦
            let e = write_big answer buf s o (ltb→lt _ _ big) in
            inl (ltb→lt _ _ big, ap (λ r. r.1) e, ap (λ r. requests r.0) e ∙ ordered.keeps s.tx)
        | inr fits ↦
            let e = write_fits answer buf s o (ltb→ge _ _ fits) in
            inr (
              ltb→ge _ _ fits,
              ap (λ r. r.1) e,
              ap (λ r. requests r.0) e
                  ∙ ordered.appends _ _ (o.takes _)
                  ∙ ap (λ (q : List SendReq). q ++ (SendReq.send (take (write_len buf s) buf) ∷ []))
                      (ordered.keeps s.tx),
            )
      ]
