-- ===== src/Task/Send.antt =====
-- The sending side: `send_reliable_over_link`, `resend_reliable_over_link`, `flush_link`.
pub mod Unchanged
pub mod Counts
pub mod Handler
use mathlib.Core.List.{reverse}
use aggligator.Base.{
  ℕ, suc, ◌+◌, Bool, true, false, not, ◌&&◌, Option, none, some, List, [], ◌∷◌, ◌++◌, ltb, ◌==◌,
  if◌then◌else◌,
}
use aggligator.Base.Result.{Result, ok, err, ◌>>=◌, ◌>>◌, guard}
use aggligator.Fault.{Fault, Run, panic, unwrap}
use aggligator.Bytes.{Bytes, ByteOrder}
use aggligator.Seq
use aggligator.Seq.{Seq}
use aggligator.Msg.{LinkMsg, ReliableMsg}
use aggligator.Msg.Reliable.{to_link_msg}
use aggligator.Packets.{
  Packets, PacketRef, SentInfo, SentReliable, SentReliableStatus, data_size, find, set_status,
  meets,
}
use aggligator.Link.{Sink, LinkInt, start_flush, start_send_msg}
use aggligator.Task.Defs.{Task, TxState, link_at, put_link, without}

-- The new packet at the end of the queue, with its data counted.
unfoldable pub push_packet : ℕ → ℕ → ℕ → ReliableMsg → TxState → TxState
push_packet now id link msg s = record s {
  tx_seq = Seq.add s.tx_seq 1;
  next_ptr = s.next_ptr + 1;
  txed_unacked = s.txed_unacked + data_size msg;
  txed_unconsumed = s.txed_unconsumed + data_size msg;
  txed_packets =
      s.txed_packets
      ++ (record {
        ptr = s.next_ptr;
        seq = s.tx_seq;
        status = SentReliableStatus.sent (record {
          sent = now;
          flushed = none;
          link_id = id;
          link = link;
          msg = msg;
          resent = false;
        });
      }
          ∷ []);
}

module _ {TX : Type 0} where
  unfoldable pub flush_link : ℕ → ℕ → Task TX → Run (Task TX)
  flush_link now id t = do
    l ← link_at t.links id
    let (l', ps) = start_flush now l t.txed_packets
    ok (
        put_link id l' (record t {
          tx_state = record t.tx_state { txed_packets = ps };
          idle_links = without id t.idle_links;
        }))

  -- The link's record of a packet that was handed to it.
  unfoldable pub refer : ℕ → ReliableMsg → LinkInt TX → LinkInt TX
  refer ptr msg l = record l {
    txed_unacked_data = l.txed_unacked_data + data_size msg;
    txed_packets = l.txed_packets ++ (ptr ∷ []);
  }

  -- `txed_unacked_data_limit_increased` does not stay behind a packet that is sent again.
  unfoldable pub lower_increased : Seq → LinkInt TX → LinkInt TX
  lower_increased seq l = record l {
    txed_unacked_data_limit_increased = elim l.txed_unacked_data_limit_increased [
      | none ↦ none
      | some last_increased ↦ some (if Seq.lt seq last_increased then seq else last_increased)
    ];
  }

abbrev pub flushing_after : {TX : Type 0} → Run (LinkInt TX × Packets) → Bool
flushing_after (ok (l, ps)) = l.tx_flushing
flushing_after (err f) = false

-- What is sent again is queued for it, and was sent over another link.
unfoldable pub queued_msg : SentReliableStatus → Run (ReliableMsg × ℕ)
queued_msg (SentReliableStatus.resend_queued msg sent_link) = ok (msg, sent_link)
queued_msg (SentReliableStatus.sent i) = err panic
queued_msg (SentReliableStatus.received size) = err panic

module _ {TX : Type 0} ⦃s : Sink TX⦄ ⦃o : ByteOrder⦄ where
  -- The message, encoded with its sequence number, goes to the link.
  unfoldable pub transmit :
      ℕ → ReliableMsg → Seq → LinkInt TX → Packets → Run (LinkInt TX × Packets)
  unfolding to_link_msg
  transmit now msg seq l ps =
      start_send_msg now (to_link_msg msg seq).0 (to_link_msg msg seq).1 l ps

  -- Whether sending the message starts a flush, which sets `tx_flushing`.
  unfoldable pub starts_flush : ℕ → ReliableMsg → Seq → LinkInt TX → Packets → Bool
  unfolding transmit
  starts_flush now msg seq l ps =
      flushing_after (transmit now msg seq (record l { tx_flushing = false }) ps)

  unfoldable pub send_reliable_over_link : ℕ → ℕ → ReliableMsg → Task TX → Run (Seq × Task TX)
  unfolding transmit refer push_packet
  send_reliable_over_link now id msg t = do
    l ← link_at t.links id
    (l', ps) ← transmit now msg t.tx_seq l t.txed_packets
    ok (
      t.tx_seq,
      put_link id (refer t.next_ptr msg l') (record t {
        tx_state = push_packet now id l'.link_id msg (record t.tx_state { txed_packets = ps });
      }),
    )

  -- The status of the packet is borrowed while it is sent, so that a flush must not come to it.
  unfoldable pub resend_reliable_over_link : ℕ → ℕ → PacketRef → Task TX → Run (Task TX)
  unfolding queued_msg transmit refer lower_increased set_status meets starts_flush
  resend_reliable_over_link now id packet t = do
    l ← link_at t.links id
    p ← unwrap (find packet.ptr t.txed_packets)
    (msg, sent_link) ← queued_msg p.status
    guard (not (l.link_id == sent_link)) panic
    guard
        (not (
          meets packet.ptr l.link_id (reverse l.txed_packets) t.txed_packets
          && starts_flush now msg packet.seq l t.txed_packets))
        panic
    (l', ps) ← transmit now msg packet.seq l t.txed_packets
    let status = SentReliableStatus.sent (record {
      sent = now;
      flushed = none;
      link_id = id;
      link = l'.link_id;
      msg = msg;
      resent = true;
    })
    ok (
        put_link id (refer packet.ptr msg (lower_increased packet.seq l')) (record t {
          tx_state = record t.tx_state { txed_packets = set_status packet.ptr status ps };
        }))
