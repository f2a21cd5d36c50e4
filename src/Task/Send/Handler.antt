-- ===== src/Task/Send/Handler.antt =====
-- `send_reliable_over_link` numbers the packets and keeps the sums.
use aggligator.Base.{
  ℕ, suc, ◌+◌, ◌<◌, ◌^◌, ◌≡◌, ◌≢◌, refl, sym, ap, ◌∙◌, false, none, [], ◌∷◌, ◌++◌, arith, length,
  length-append,
}
use native.Mathlib.Nat.{add-zero}
use aggligator.Base.Result.{ok}
use aggligator.Bytes.{ByteOrder}
use aggligator.Seq
use aggligator.Seq.{Seq}
use aggligator.Seq.Order.{wrap, add-wrap}
use aggligator.Msg.{ReliableMsg}
use aggligator.Packets.{
  Packets, SentReliable, SentReliableStatus, SentInfo, data_size, status_size, sent_size,
}
use aggligator.Link.{Sink, LinkInt}
use aggligator.Task.Defs.{Task, TxState, link_at, put_link}
use aggligator.Packets.Queue.{Numbered}
use aggligator.Task.Ack.Totals.{total, unacked_status, received_status, sent_size-total}
use aggligator.Task.Ack.Kept.{Counted}
use aggligator.Task.Ack.Acknowledge.{Accounted, links_after}
use aggligator.Task.Send.{push_packet, refer, send_reliable_over_link}
use aggligator.Task.Send.Unchanged.{Unchanged}
use aggligator.Task.Send.Counts.{transmit-Transmitted}

total-append :
    (f : SentReliableStatus → ℕ) (ps qs : Packets) → total f (ps ++ qs) ≡ total f ps + total f qs
total-append f [] qs = omega arith
total-append f (p ∷ ps) qs = omega (arith, total-append f ps qs)

Numbered-append :
    (n : ℕ) (ps : Packets) (p : SentReliable)
    → Numbered n ps
    → p.seq ≡ wrap (n + length ps)
    → Numbered n (ps ++ (p ∷ []))
Numbered-append n [] p h e = (rw add-zero at e, tt)
Numbered-append n (x ∷ ps) p h e =
    (h.0, Numbered-append (suc n) ps p h.1 (e ∙ ap wrap (omega arith)))

sent_size-append :
    (j : ℕ) (ps : Packets) (p : SentReliable)
    → sent_size j (ps ++ (p ∷ [])) ≡ sent_size j ps + status_size j p.status
sent_size-append j ps p = omega (
  arith,
  sent_size-total j (ps ++ (p ∷ [])),
  sent_size-total j ps,
  total-append (status_size j) ps (p ∷ []),
)

-- A packet sent over a link counts for that link, and for no other.
pub own_share :
    (id : ℕ) (i : SentInfo)
    → i.link_id ≡ id
    → status_size id (SentReliableStatus.sent i) ≡ data_size i.msg
unfolding status_size
own_share id i e = ground (arith, e)

pub no_share :
    (id j : ℕ) (i : SentInfo)
    → i.link_id ≡ id
    → j ≢ id
    → status_size j (SentReliableStatus.sent i) ≡ 0
unfolding status_size
no_share id j i e h = ground (arith, e)

push_packet-Counted :
    (n now id link : ℕ) (msg : ReliableMsg) (s : TxState) (ps : Packets)
    → Counted n s
    → length s.txed_packets + 1 < 2 ^ 31
    → Unchanged s.txed_packets ps
    → Counted n (push_packet now id link msg (record s { txed_packets = ps }))
unfolding push_packet
push_packet-Counted n now id link msg s ps c room u =
    let p : SentReliable = record {
      ptr = s.next_ptr;
      seq = s.tx_seq;
      status = SentReliableStatus.sent (record {
        sent = now;
        flushed = none;
        link_id = id;
        link = link;
        msg = msg;
        resent = false;
      });
    } in
    record {
      numbered =
          Numbered-append n ps p (u.numbered n c.numbered)
            (c.next ∙ ap (λ (x : ℕ). wrap (n + x)) (sym u.count));
      next =
          ap (λ (x : Seq). Seq.add x 1) c.next
          ∙ add-wrap (n + length s.txed_packets) 1
          ∙ ap wrap (omega (arith, length-append ps (p ∷ []), u.count));
      short = omega (arith, length-append ps (p ∷ []), u.count);
      unacked = omega (arith, total-append unacked_status ps (p ∷ []), u.unacked, c.unacked);
      received = omega (arith, total-append received_status ps (p ∷ []), u.received, c.received);
    }

push_packet-sizes :
    (now id link : ℕ) (msg : ReliableMsg) (s : TxState)
    → (sent_size id (push_packet now id link msg s).txed_packets
        ≡ sent_size id s.txed_packets + data_size msg)
      × ((j : ℕ)
          → j ≢ id
          → sent_size j (push_packet now id link msg s).txed_packets ≡ sent_size j s.txed_packets)
unfolding push_packet
push_packet-sizes now id link msg s =
    let i : SentInfo = record {
      sent = now;
      flushed = none;
      link_id = id;
      link = link;
      msg = msg;
      resent = false;
    } in
    let p : SentReliable = record {
      ptr = s.next_ptr;
      seq = s.tx_seq;
      status = SentReliableStatus.sent i;
    } in
    (
      omega (arith, sent_size-append id s.txed_packets p, own_share id i refl),
      λ j h. omega (arith, sent_size-append j s.txed_packets p, no_share id j i refl h),
    )

length-push_packet :
    (now id link : ℕ) (msg : ReliableMsg) (s : TxState)
    → length (push_packet now id link msg s).txed_packets ≡ length s.txed_packets + 1
unfolding push_packet
length-push_packet now id link msg s = length-append s.txed_packets _

module _ {TX : Type 0} ⦃o : Sink TX⦄ ⦃b : ByteOrder⦄ where
  -- What sending does: it ends without a panic and returns the packet's sequence number.
  pub record Sent (n now id : ℕ) (msg : ReliableMsg) (t : Task TX) : Type 0 where
    pub after : Task TX
    pub runs : send_reliable_over_link now id msg t ≡ ok (wrap (n + length t.txed_packets), after)
    pub accounted : Accounted n after
    pub grown : length after.txed_packets ≡ length t.txed_packets + 1
    pub link : ℕ
    pub packets : Packets
    pub unchanged : Unchanged t.txed_packets packets
    pub pushed :
        after.tx_state ≡ push_packet now id link msg (record t.tx_state { txed_packets = packets })

  -- A reliable message is sent without a panic over a link that exists and is ready: it neither waits for its
  -- sink nor holds data. The packet gets the number after that of the last packet. If the packets were
  -- numbered one after another and the sums of unacknowledged and received data were those of
  -- the packets, for the task and every link, and fewer than 2 ^ 31 - 1 packets were kept,
  -- then numbers and sums are right again with one more packet.
  pub send_reliable_over_link-Accounted :
      (n now id : ℕ) (msg : ReliableMsg) (l : LinkInt TX) (t : Task TX)
      → Accounted n t
      → link_at t.links id ≡ ok l
      → l.tx_polling ≡ none
      → l.tx_data ≡ none
      → length t.txed_packets + 1 < 2 ^ 31
      → Sent n now id msg t
  unfolding send_reliable_over_link refer
  send_reliable_over_link-Accounted n now id msg l t acc here idle empty room =
      let x = transmit-Transmitted now msg t.tx_seq l t.txed_packets idle empty in
      let s : TxState = record t.tx_state { txed_packets = x.packets } in
      let s' : TxState = push_packet now id x.link.link_id msg s in
      let sizes = push_packet-sizes now id x.link.link_id msg s in
      let l' : LinkInt TX = refer t.next_ptr msg x.link in
      record {
        after = put_link id l' (record t { tx_state = s' });
        runs = rw (here, x.runs, acc.counted.next) refl;
        accounted = record {
          counted =
              push_packet-Counted n now id x.link.link_id msg t.tx_state x.packets acc.counted room
                x.unchanged;
          links =
              links_after id t.links l' t.txed_packets s'.txed_packets acc.links
                (omega (arith, x.data_size, acc.links id l here, sizes.0, x.unchanged.sizes id))
                (λ j h. sizes.1 j h ∙ x.unchanged.sizes j);
        };
        grown =
            length-push_packet now id x.link.link_id msg s
            ∙ ap (λ (z : ℕ). z + 1) x.unchanged.count;
        link = x.link.link_id;
        packets = x.packets;
        unchanged = x.unchanged;
        pushed = refl;
      }
