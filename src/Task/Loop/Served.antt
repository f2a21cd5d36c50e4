-- ===== src/Task/Loop/Served.antt =====
-- The dispatch of the main loop's events: none of the expected ones leads to a panic.
use aggligator.Base.{
  ℕ, ◌<◌, ◌%◌, ◌^◌, ◌≡◌, ◌≢◌, refl, sym, ap, subst, ◌∙◌, true, false, Option, none, some, List,
  length, All, arith,
}
use aggligator.Base.Result.{ok}
use aggligator.Bytes.{ByteOrder}
use aggligator.Seq.{one_quarter}
use aggligator.Msg.{ReliableMsg}
use aggligator.Link.{Sink, LinkInt, NotWorkingReason}
use aggligator.Packets.{sent_size}
use aggligator.Task.Defs.{Task, TxState, link_at, put_link}
use aggligator.Task.Ack.Kept.{Counted}
use aggligator.Task.Ack.Queue.{Resendable}
use aggligator.Task.Links.Unconfirm.{Exists, link_at_put}
use aggligator.Task.Resend.Pick.{Usable, any_link}
use aggligator.Task.Resend.Handler.{resend_packet-Resendable}
use aggligator.Task.Ready.{
  Round, consumed_acked, receive_close_done, receive_finish_done, send_finish_done,
}
use aggligator.Task.Ready.Sound.{Sound, Runs, flush_link-Runs, done-Runs}
use aggligator.Task.Ready.Sends.{ready_send-Runs}
use aggligator.Task.Loop.{LinkIntEvent, FatalConnectError, TaskEvent, pop_last, handle_ping_link}
use aggligator.Task.Loop.Dispatch.{
  handle_send_consumed, handle_write_end, handle_read_dropped, handle_read_closed, handle_event,
}
use aggligator.Task.Loop.Kept.{handle_flush-Sound, handle_new_link-Sound, send_over_popped-Runs}
use aggligator.Task.Loop.Events.{
  Expects, IsExpected, Served, ended, go_on-Served, removed-Served, unconfirmed-Runs,
  replaced-Sound, handle_link_event-Served,
}

module _ {TX : Type 0} where
  -- What a change outside of the packets and the links leaves.
  pub moved-Sound :
      (n a : ℕ) (t t' : Task TX)
      → Sound n a t
      → t'.tx_state ≡ t.tx_state
      → t'.links ≡ t.links
      → Sound n a t'
  moved-Sound n a t t' s e f = record {
    accounted = record {
      counted = subst (Counted n) (sym e) s.accounted.counted;
      links = λ j l at.
          s.accounted.links j l
            (subst (λ (ls : List (Option (LinkInt TX))). link_at ls j ≡ ok l) f at)
          ∙ ap (λ (x : TxState). sent_size j x.txed_packets) (sym e);
    };
    resendable = subst (Resendable a) (sym e) s.resendable;
  }

  event_link :
      (r : Round) (t : Task TX) (id : ℕ) (e : LinkIntEvent) → Expects r t e id → Exists t.links id
  event_link r t id LinkIntEvent.tx_ready (u, free, q, is) = (u.link, u.here)
  event_link r t id (LinkIntEvent.rx msg bytes) x = elim x [ ]
  event_link r t id LinkIntEvent.tx_flushed x = x
  event_link r t id LinkIntEvent.flush_required x = x
  event_link r t id LinkIntEvent.tx_error x = x
  event_link r t id LinkIntEvent.rx_error x = x
  event_link r t id LinkIntEvent.blocked_changed x = x
  event_link r t id (LinkIntEvent.link_cfg_changed c) x = x
  event_link r t id LinkIntEvent.disconnect x = x

  handle_ping_link-Runs :
      (n a now id : ℕ) (l : LinkInt TX) (t : Task TX)
      → Sound n a t
      → link_at t.links id ≡ ok l
      → Runs n a t (handle_ping_link now id t)
  unfolding handle_ping_link
  handle_ping_link-Runs n a now id l t s e =
      let l' : LinkInt TX = record l { send_ping = true } in
      let x =
        flush_link-Runs n a now id l' (put_link id l' t) (replaced-Sound n a id l l' t s e refl)
          (link_at_put t.links id l l' e) in
      record { after = x.after; runs = rw e x.runs; sound = x.sound; grown = x.grown }

module _ {TX : Type 0} ⦃o : Sink TX⦄ ⦃b : ByteOrder⦄ where
  send_consumed-Runs :
      (n a now : ℕ) (t : Task TX) (p : Option (ℕ × List ℕ))
      → Sound n a t
      → length t.txed_packets < one_quarter
      → All (Usable any_link t.links) t.idle_links
      → pop_last t.idle_links ≡ p
      → p ≢ none
      → Runs n a t (handle_send_consumed now t p)
  unfolding handle_send_consumed
  send_consumed-Runs n a now t none s room us e ne = absurd (ne refl)
  send_consumed-Runs n a now t (some p) s room us e ne =
      send_over_popped-Runs n a now
        (ReliableMsg.consumed (t.rxed_reliable_consumed_since_last_ack % 2 ^ 32)) consumed_acked t
        (some p) s e us room (λ t'. (refl, refl))

  -- Every event that is neither a received message nor a message for the user is handled without a
  -- panic, when less than a quarter of the sequence numbers are in use and: the link that the event
  -- comes from exists; a new link has sent nothing and no packet counts for the index that it gets;
  -- data is written over a link that exists and is ready; a resend finds the resend queue not empty
  -- and its link ready, which is not the one that the first packet was sent over, and a flush of
  -- the link does not come to that packet; a link that has become ready has nothing left to send,
  -- the round resends only while the resend queue is not empty and knows the link of its first
  -- packet, and a flush of the link does not come to that packet; idle links exist and are ready
  -- when the end of writing, of reading or consumption is to be sent, and for consumption there is
  -- one. If the loop goes on, the packets' numbers, the sums of the task and of every link and the
  -- resend queue, if right before, are right again and at most one packet was added.
  pub handle_event-Served :
      (n a now : ℕ) (r : Round) (t : Task TX) (e : TaskEvent TX)
      → Sound n a t
      → length t.txed_packets < one_quarter
      → IsExpected r t e
      → Served n a t (handle_event now r t e)
  unfolding handle_event handle_write_end handle_read_dropped handle_read_closed
  handle_event-Served n a now r t TaskEvent.terminate s room x = ended n a t _
  handle_event-Served n a now r t (TaskEvent.new_link l c accepted) s room (zero_data, v) =
      go_on-Served n a t _ (handle_new_link-Sound n a now l c accepted t s zero_data v)
  handle_event-Served n a now r t (TaskEvent.link_event id e) s room x =
      let h = handle_link_event-Served n a now r t s room id e x in
      record { outcome = h.outcome; runs = rw (event_link r t id e x).1 h.runs; sound = h.sound }
  handle_event-Served n a now r t (TaskEvent.write_rx id bytes) s room u = go_on-Served n a t _ (
      ready_send-Runs n a now id (ReliableMsg.data_msg bytes) (λ t'. t') u.link t s u.here u.idle
        u.empty room (λ t'. (refl, refl)))
  handle_event-Served n a now r t TaskEvent.write_end s room us =
      let t1 : Task TX = record t { write_rx = none } in
      let x =
        send_over_popped-Runs n a now ReliableMsg.send_finish send_finish_done t1
          (pop_last t.idle_links) (moved-Sound n a t t1 s refl refl) refl us room
          (λ t'. (refl, refl)) in
      go_on-Served n a t _
        (record { after = x.after; runs = x.runs; sound = x.sound; grown = x.grown })
  handle_event-Served n a now r t (TaskEvent.flush notify) s room x =
      go_on-Served n a t _ (handle_flush-Sound n a now notify t s)
  handle_event-Served n a now r t (TaskEvent.confirm_timed_out id) s room (l, e) =
      go_on-Served n a t _ (unconfirmed-Runs n a now id NotWorkingReason.ack_timeout l t s room e)
  handle_event-Served n a now r t (TaskEvent.resend id) s room (nr, p, rest, q, is, u, may, free) =
      let x =
        resend_packet-Resendable n a now id p rest nr u.link t s.accounted s.resendable q is may
          u.here u.idle u.empty free in
      go_on-Served n a t _ (record {
        after = x.after;
        runs = x.runs;
        sound = record { accounted = x.accounted; resendable = x.resendable };
        grown = omega (arith, x.kept);
      })
  handle_event-Served n a now r t TaskEvent.read_dropped s room us =
      let t1 : Task TX = record t { read_tx = none; read_closed_rx = false } in
      let x =
        send_over_popped-Runs n a now ReliableMsg.receive_finish receive_finish_done t1
          (pop_last t.idle_links) (moved-Sound n a t t1 s refl refl) refl us room
          (λ t'. (refl, refl)) in
      go_on-Served n a t _
        (record { after = x.after; runs = x.runs; sound = x.sound; grown = x.grown })
  handle_event-Served n a now r t TaskEvent.read_closed s room us =
      let t1 : Task TX = record t { read_closed_rx = false } in
      let x =
        send_over_popped-Runs n a now ReliableMsg.receive_close receive_close_done t1
          (pop_last t.idle_links) (moved-Sound n a t t1 s refl refl) refl us room
          (λ t'. (refl, refl)) in
      go_on-Served n a t _
        (record { after = x.after; runs = x.runs; sound = x.sound; grown = x.grown })
  handle_event-Served n a now r t TaskEvent.consume s room x = elim x [ ]
  handle_event-Served n a now r t TaskEvent.send_consumed s room (us, ne) =
      go_on-Served n a t _ (send_consumed-Runs n a now t (pop_last t.idle_links) s room us refl ne)
  handle_event-Served n a now r t (TaskEvent.ping_link id) s room (l, e) =
      go_on-Served n a t _ (handle_ping_link-Runs n a now id l t s e)
  handle_event-Served n a now r t (TaskEvent.link_unconfirmed_timeout id) s room x =
      removed-Served n a now id t s room x
  handle_event-Served n a now r t (TaskEvent.link_send_timeout id) s room x =
      removed-Served n a now id t s room x
  handle_event-Served n a now r t (TaskEvent.link_ping_timeout id) s room x =
      removed-Served n a now id t s room x
  handle_event-Served n a now r t TaskEvent.link_testing s room x =
      go_on-Served n a t _ (done-Runs n a t s)
  handle_event-Served n a now r t TaskEvent.no_links_timeout s room x = ended n a t _
  handle_event-Served n a now r t
        (TaskEvent.fatal_connect_error FatalConnectError.server_id_mismatch) s room x =
      ended n a t _
  handle_event-Served n a now r t (TaskEvent.fatal_connect_error FatalConnectError.closed) s room
        x =
      ended n a t _
