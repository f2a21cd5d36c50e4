-- ===== src/Task/Ready/Kept.antt =====
-- A link that is ready to send is served without a panic, whatever is sent.
use mathlib.Core.List.{reverse}
use aggligator.Base.{
  ℕ, ◌<◌, ◌%◌, ◌^◌, ◌≡◌, sym, ap, ◌∙◌, refl, true, false, ◌&&◌, Option, none, some, List, [], ◌∷◌,
  length, if◌then◌else◌, Bool-cases, inl, inr, arith,
}
use aggligator.Base.Result.{ok}
use aggligator.Fault.{Run}
use aggligator.Bytes.{ByteOrder}
use aggligator.Seq.{Seq, one_quarter}
use aggligator.Msg.{LinkMsg, ReliableMsg, msg_id}
use aggligator.Msg.Write.{encode, write_body}
use aggligator.Packets.{PacketRef, meets_first}
use aggligator.Peekable.{PeekableReceiver, try_recv_if}
use aggligator.Link.{Sink, LinkInt, DisconnectInitiator, is_sendable}
use aggligator.Task.Defs.{Task, SendReq, link_at}
use aggligator.Task.Links.{remove_link}
use aggligator.Task.Links.Removal.{remove_link-Resendable}
use aggligator.Task.Resend.{may_resend, non_resendable_link, resend_packet}
use aggligator.Task.Resend.Handler.{resend_packet-Resendable}
use aggligator.Task.Limits.Adjust.{is_empty}
use aggligator.Task.Ready.{
  Round, fits_space, ready_send, ready_write, ready_reliable, ready_ack, ready_disconnecting,
  ready_open, ready_link, handle_tx_ready, consumed_acked, receive_close_done, receive_finish_done,
  send_finish_done,
}
use aggligator.Task.Ready.Sound.{
  Sound, Runs, done-Runs, if-Runs, ready_unconfirmed-Runs, ready_idle-Runs,
}
use aggligator.Task.Ready.Sends.{send_link_msg-Runs, ready_send-Runs, ready_written-Runs}

module _ {TX : Type 0} ⦃o : Sink TX⦄ ⦃b : ByteOrder⦄ (n a now id : ℕ) (r : Round) (l : LinkInt TX)
    (t : Task TX) (s : Sound n a t) (here : link_at t.links id ≡ ok l) (idle : l.tx_polling ≡ none)
    (empty : l.tx_data ≡ none) (room : length t.txed_packets < one_quarter)
    (free : meets_first l.link_id t.resend_queue (reverse l.txed_packets) t.txed_packets
      ≡ false) where
  ready_write-Runs :
      (w : Option (PeekableReceiver SendReq)) → Runs n a t (ready_write now r id l t w)
  unfolding ready_write
  ready_write-Runs none = ready_idle-Runs n a now id l t s here
  ready_write-Runs (some rx) =
      let x = try_recv_if (fits_space r.tx_space) rx in
      if-Runs n a t _ _ _ (ready_written-Runs n a now id l t x.0 x.1 s here idle empty room)
        (ready_idle-Runs n a now id l t s here)

  resend-Runs :
      (q : List PacketRef)
      → t.resend_queue ≡ q
      → is_empty q ≡ false
      → non_resendable_link t ≡ ok r.non_resendable_link
      → may_resend r.non_resendable_link l.link_id ≡ true
      → Runs n a t (resend_packet now id t)
  unfolding meets_first
  resend-Runs [] e f is may = cc
  resend-Runs (p ∷ rest) e f is may =
      let x =
        resend_packet-Resendable n a now id p rest r.non_resendable_link l t s.accounted
          s.resendable e is may here idle empty
          (sym (
              ap
                (λ (rs : List PacketRef).
                  meets_first l.link_id rs (reverse l.txed_packets) t.txed_packets)
                e)
            ∙ free) in
      record {
        after = x.after;
        runs = x.runs;
        sound = record { accounted = x.accounted; resendable = x.resendable };
        grown = omega (arith, x.kept);
      }

  ready_reliable-Runs :
      (r.resending && is_empty t.resend_queue) ≡ false
      → non_resendable_link t ≡ ok r.non_resendable_link
      → Runs n a t (ready_reliable now r id l t)
  unfolding ready_reliable
  ready_reliable-Runs q is =
      if-Runs n a t _ _ _
        (sends (ReliableMsg.consumed (t.rxed_reliable_consumed_since_last_ack % 2 ^ 32))
          consumed_acked (λ t'. (refl, refl)))
        (resends (
          if-Runs n a t _ _ _
            (sends ReliableMsg.receive_close receive_close_done (λ t'. (refl, refl)))
            (if-Runs n a t _ _ _
              (sends ReliableMsg.receive_finish receive_finish_done (λ t'. (refl, refl)))
              (if-Runs n a t _ _ _
                (sends ReliableMsg.send_finish send_finish_done (λ t'. (refl, refl)))
                (ready_write-Runs t.write_rx)))))
    where
      sends :
          (msg : ReliableMsg) (f : Task TX → Task TX)
          → ((t' : Task TX) → ((f t').tx_state ≡ t'.tx_state) × ((f t').links ≡ t'.links))
          → Runs n a t (ready_send now id msg f t)
      sends msg f keep = ready_send-Runs n a now id msg f l t s here idle empty room keep

      resends :
          {y : Run (Task TX)}
          → Runs n a t y
          → Runs n a t (
              if r.resending && is_sendable l && may_resend r.non_resendable_link l.link_id
              then resend_packet now id t
              else y)
      resends {y} h =
          elim (Bool-cases
            (r.resending && is_sendable l && may_resend r.non_resendable_link l.link_id)) [
              | inl fits ↦
                  let f : (r.resending ≡ true)
                      × (may_resend r.non_resendable_link l.link_id ≡ true) =
                    ground arith in
                  rw fits (
                    resend-Runs t.resend_queue refl
                      (let g : is_empty t.resend_queue ≡ false = ground (arith, f.0) in g) is f.1)
              | inr other ↦ rw other h
            ]

  ready_ack-Runs :
      (queue : List Seq)
      → (r.resending && is_empty t.resend_queue) ≡ false
      → non_resendable_link t ≡ ok r.non_resendable_link
      → Runs n a t (ready_ack now r id l t queue)
  unfolding ready_ack encode write_body msg_id
  ready_ack-Runs (recved_seq ∷ rest) q is =
      send_link_msg-Runs n a now id (LinkMsg.ack recved_seq) _ (λ k. k)
        (record l { tx_ack_queue = rest }) t s refl (s.accounted.links id l here) (λ k. refl) idle
        empty
  ready_ack-Runs [] q is =
      if-Runs n a t _ _ _ (ready_reliable-Runs q is) (ready_unconfirmed-Runs n a now id l t s here)

  ready_disconnecting-Runs :
      (i : DisconnectInitiator) → Runs n a t (ready_disconnecting now id l t i)
  unfolding ready_disconnecting encode write_body msg_id
  ready_disconnecting-Runs i =
      if-Runs n a t _ _ _
        (send_link_msg-Runs n a now id LinkMsg.goodbye _ (λ k. record k { goodbye_sent = true }) l t
          s refl (s.accounted.links id l here) (λ k. refl) idle empty)
        (go i)
    where
      go :
          (i' : DisconnectInitiator)
          → Runs n a t (elim i' as (λ _. Run (Task TX)) [
            | DisconnectInitiator.remote ↦ remove_link now id t
            | DisconnectInitiator.local ↦ ok t
          ])
      go DisconnectInitiator.local = done-Runs n a t s
      go DisconnectInitiator.remote =
          let x =
            remove_link-Resendable n a now id l t s.accounted s.resendable (omega (arith, room))
              here in
          record {
            after = x.after;
            runs = x.runs;
            sound = record { accounted = x.accounted; resendable = x.resendable };
            grown = omega (arith, x.kept);
          }

  ready_open-Runs :
      (d : Option DisconnectInitiator)
      → (r.resending && is_empty t.resend_queue) ≡ false
      → non_resendable_link t ≡ ok r.non_resendable_link
      → Runs n a t (ready_open now r id l t d)
  unfolding ready_open encode write_body msg_id
  ready_open-Runs (some i) q is = ready_disconnecting-Runs i
  ready_open-Runs none q is =
      if-Runs n a t _ _ _
        (send_link_msg-Runs n a now id LinkMsg.ping _
          (λ k. record k { current_ping_sent = some now; send_ping = false }) l t s refl
          (s.accounted.links id l here) (λ k. refl) idle empty)
        (if-Runs n a t _ _ _
          (send_link_msg-Runs n a now id (LinkMsg.set_block l.blocked) _
            (λ k. record k { blocked_sent = l.blocked }) l t s refl (s.accounted.links id l here)
            (λ k. refl) idle empty)
          (ready_ack-Runs l.tx_ack_queue q is))

  ready_link-Runs :
      (r.resending && is_empty t.resend_queue) ≡ false
      → non_resendable_link t ≡ ok r.non_resendable_link
      → Runs n a t (ready_link now r id l t)
  unfolding ready_link encode write_body msg_id
  ready_link-Runs q is =
      if-Runs n a t _ _ _
        (send_link_msg-Runs n a now id LinkMsg.accepted _
          (λ k. record k { needs_tx_accepted = false }) l t s refl (s.accounted.links id l here)
          (λ k. refl) idle empty)
        (if-Runs n a t _ _ _
          (send_link_msg-Runs n a now id LinkMsg.pong _ (λ k. record k { send_pong = false }) l t s
            refl (s.accounted.links id l here) (λ k. refl) idle empty)
          (ready_open-Runs l.disconnecting q is))

module _ {TX : Type 0} ⦃o : Sink TX⦄ ⦃b : ByteOrder⦄ where
  -- A link that exists, has become ready and has nothing left to send is served without a panic, whatever is sent over it
  -- then: a message of the link, an ack, a reliable message, a packet to resend, data of the user, or
  -- nothing. This holds when less than a quarter of the sequence numbers are in use, the round
  -- resends only while the resend queue is not empty and knows the link of its first packet, and a
  -- flush of the link does not come to that packet. If the sums were right and the resend queue was
  -- the packets that wait, then they are so again, with at most one packet more.
  pub handle_tx_ready-Runs :
      (n a now id : ℕ) (r : Round) (l : LinkInt TX) (t : Task TX)
      → Sound n a t
      → link_at t.links id ≡ ok l
      → l.tx_polling ≡ none
      → l.tx_data ≡ none
      → length t.txed_packets < one_quarter
      → meets_first l.link_id t.resend_queue (reverse l.txed_packets) t.txed_packets ≡ false
      → (r.resending && is_empty t.resend_queue) ≡ false
      → non_resendable_link t ≡ ok r.non_resendable_link
      → Runs n a t (handle_tx_ready now r id t)
  unfolding handle_tx_ready
  handle_tx_ready-Runs n a now id r l t s here idle empty room free q is =
      let x = ready_link-Runs n a now id r l t s here idle empty room free q is in
      record { after = x.after; runs = rw here x.runs; sound = x.sound; grown = x.grown }
