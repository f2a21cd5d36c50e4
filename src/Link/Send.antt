-- ===== src/Link/Send.antt =====
-- Sending over a link: `start_send_msg`, `start_flush`, `send_test_data`, `clean_txed_packets`.
pub mod Fuel
use mathlib.Core.List.{reverse}
use aggligator.Base.{
  ℕ, zero, suc, ◌+◌, ◌-◌, ◌^◌, min, Bool, true, false, Option, none, some, List, [], ◌∷◌, length,
  ltb, leb, ◌==◌, if◌then◌else◌, is_none,
}
use aggligator.Base.Result.{Result, ok, err, ◌>>=◌, ◌>>◌, guard}
use aggligator.Fault.{Run, panic}
use aggligator.Bytes.{Bytes, ByteOrder}
use aggligator.Seq
use aggligator.Seq.{Seq}
use aggligator.Msg.{LinkMsg}
use aggligator.Msg.Write.{encode}
use aggligator.Packets.{Packets, SentReliable, SentReliableStatus, find, mark_flushed}
use aggligator.Link.Defs.{Sink, PollReady, TxError, LinkInt, link_cfg}

-- `opt.get_or_insert(v)`
abbrev pub get_or_insert {ℓ} : {A : Type ℓ} → Option A → A → Option A
get_or_insert (some a) v = some a
get_or_insert none v = some v

-- `saturating_add` on `usize`
abbrev pub saturating_add : ℕ → ℕ → ℕ
saturating_add a b = min (a + b) (2 ^ 64 - 1)

-- `self.write(..).unwrap()` in `encode`
abbrev pub unwrap_encoded : {E : Type 0} → Result E Bytes → Run Bytes
unwrap_encoded (ok b) = ok b
unwrap_encoded (err e) = err panic

abbrev pub data_len : Option Bytes → ℕ
data_len none = 0
data_len (some b) = length b

-- `while let Some(packet) = front`: references to packets that are gone or no longer sent over the
-- link with the id `lid` are dropped from the front.
still_sent : ℕ → Option SentReliable → Bool
still_sent lid none = false
still_sent lid (some p) = elim p.status [
  | SentReliableStatus.sent i ↦ i.link == lid
  | SentReliableStatus.received size ↦ false
  | SentReliableStatus.resend_queued msg l ↦ false
]

drop_stale : ℕ → Packets → List ℕ → List ℕ
unfolding still_sent find
drop_stale lid ps [] = []
drop_stale lid ps (a ∷ refs) =
    if still_sent lid (find a ps) then a ∷ refs else drop_stale lid ps refs

module _ {TX : Type 0} where
  unfoldable pub clean_txed_packets : Packets → LinkInt TX → LinkInt TX
  unfolding drop_stale
  clean_txed_packets ps l = record l { txed_packets = drop_stale l.link_id ps l.txed_packets }

  unfoldable pub start_flush : ℕ → LinkInt TX → Packets → LinkInt TX × Packets
  start_flush now l ps = (
    record l {
      txed_acks_unflushed = 0;
      txed_first_unflushed_ack = none;
      txed_unflushed = 0;
      tx_flushing = true;
      tx_polling = some now;
    },
    mark_flushed now l.link_id (reverse l.txed_packets) ps,
  )

  -- The `match &msg` of `start_send_msg`.
  unfoldable pub note_sent : ℕ → LinkMsg → LinkInt TX → Packets → LinkInt TX × Packets
  note_sent now (LinkMsg.ack received) l ps = (
    record l {
      txed_acks_unflushed = l.txed_acks_unflushed + 1;
      txed_first_unflushed_ack = get_or_insert l.txed_first_unflushed_ack now;
    },
    ps,
  )
  note_sent now (LinkMsg.consumed seq n) l ps = (
    record l {
      txed_acks_unflushed = l.txed_acks_unflushed + 1;
      txed_first_unflushed_ack = get_or_insert l.txed_first_unflushed_ack now;
    },
    ps,
  )
  note_sent now (LinkMsg.data_msg seq) l ps = (
    record l {
      txed_unacked = elim l.txed_unacked [
        | none ↦ some seq
        | some u ↦ if Seq.le u seq then some seq else some u
      ];
    },
    ps,
  )
  note_sent now LinkMsg.accepted l ps = start_flush now l ps
  note_sent now LinkMsg.ping l ps = start_flush now l ps
  note_sent now LinkMsg.pong l ps = start_flush now l ps
  note_sent now (LinkMsg.send_finish seq) l ps = start_flush now l ps
  note_sent now (LinkMsg.receive_close seq) l ps = start_flush now l ps
  note_sent now (LinkMsg.receive_finish seq) l ps = start_flush now l ps
  note_sent now LinkMsg.goodbye l ps = start_flush now l ps
  note_sent now _ l ps = (l, ps)

  -- `self.txed_unflushed >= link_unflushed_limit`
  unfoldable pub over_unflushed_limit : LinkInt TX → Bool
  over_unflushed_limit l = elim (link_cfg l).unflushed_limit [
    | none ↦ false
    | some limit ↦ leb limit l.txed_unflushed
  ]

  unfoldable pub flush_if_over : ℕ → LinkInt TX × Packets → LinkInt TX × Packets
  flush_if_over now (l, ps) = if over_unflushed_limit l then start_flush now l ps else (l, ps)

  -- What follows a packet that the sink took.
  unfoldable pub handed_over :
      ℕ → LinkMsg → Option Bytes → ℕ → TX → LinkInt TX → Packets → LinkInt TX × Packets
  handed_over now msg bytes total tx l ps = flush_if_over now (
      note_sent now msg
        (record l {
          tx = tx;
          tx_data = bytes;
          tx_last_msg = some now;
          txed_unflushed = saturating_add l.txed_unflushed total;
        })
        ps)

  -- The sink fails or takes the encoded message.
  unfoldable pub hand_over :
      ℕ → LinkMsg → Option Bytes → Bytes → TX × Bool → LinkInt TX → Packets → LinkInt TX × Packets
  hand_over now msg bytes encoded (tx, true) l ps =
      handed_over now msg bytes (length encoded + data_len bytes) tx l ps
  hand_over now msg bytes encoded (tx, false) l ps =
      (record l { tx = tx; tx_error = some TxError.send_failed; tx_failed = true }, ps)

module _ {TX : Type 0} where
  -- The outcome of `start_send` in the test loop
  unfoldable pub taken :
      (ℕ → LinkInt TX → Run (ℕ × LinkInt TX))
      → ℕ
      → ℕ
      → LinkInt TX
      → TX × Bool
      → Run (ℕ × LinkInt TX)
  taken again sent size l (tx, true) = again (sent + size) (record l { tx = tx })
  taken again sent size l (tx, false) =
      ok (sent, record l { tx = tx; tx_error = some TxError.send_failed; tx_failed = true })

module _ {TX : Type 0} ⦃s : Sink TX⦄ ⦃o : ByteOrder⦄ where
  unfoldable pub start_send_msg :
      ℕ → LinkMsg → Option Bytes → LinkInt TX → Packets → Run (LinkInt TX × Packets)
  start_send_msg now msg bytes l ps = do
    guard (is_none l.tx_polling) panic
    guard (is_none l.tx_data) panic
    if l.tx_failed
        then ok (record l { tx_error = get_or_insert l.tx_error TxError.link_failed }, ps)
        else do
          encoded ← unwrap_encoded (encode msg)
          ok (
              hand_over now msg bytes encoded (s.start_send l.tx encoded)
                (record l { tx_polling = some now; tx_idle_since = none }) ps)

  -- A round of the loop of `send_test_data`, which goes on with `again`.
  unfoldable pub test_packet :
      (ℕ → LinkInt TX → Run (ℕ × LinkInt TX)) → ℕ → ℕ → LinkInt TX → Run (ℕ × LinkInt TX)
  unfolding taken
  test_packet again sent size l = do
    encoded ← unwrap_encoded (encode (LinkMsg.test_data size))
    taken again sent size l (s.start_send l.tx encoded)

  unfoldable pub test_round :
      (ℕ → LinkInt TX → Run (ℕ × LinkInt TX))
      → ℕ
      → ℕ
      → ℕ
      → LinkInt TX
      → PollReady
      → Run (ℕ × LinkInt TX)
  unfolding test_packet
  test_round again packet_size data_limit sent l PollReady.pending = ok (sent, l)
  test_round again packet_size data_limit sent l PollReady.failed =
      ok (sent, record l { tx_error = some TxError.send_failed; tx_failed = true })
  test_round again packet_size data_limit sent l PollReady.ready =
      test_packet again sent (min packet_size (data_limit - sent)) l

  -- The loop of `send_test_data`: the bytes sent and the link. With a positive packet size each round
  -- sends a byte, so `data_limit` rounds are enough.
  unfoldable pub test_loop : ℕ → ℕ → ℕ → ℕ → LinkInt TX → Run (ℕ × LinkInt TX)
  unfolding test_round
  test_loop zero packet_size data_limit sent l = ok (sent, l)
  test_loop (suc fuel) packet_size data_limit sent l = elim (ltb sent data_limit) [
    | false ↦ ok (sent, l)
    | true ↦
        test_round (test_loop fuel packet_size data_limit) packet_size data_limit sent l
          (s.poll_ready l.tx)
  ]

  unfoldable pub send_test_data : ℕ → ℕ → ℕ → LinkInt TX → Run (ℕ × LinkInt TX)
  unfolding test_loop
  send_test_data now packet_size data_limit l = do
    guard (is_none l.tx_data) panic
    let l' = record l {
      tx_polling = some now;
      txed_first_unflushed_data = get_or_insert l.txed_first_unflushed_data now;
      tx_idle_since = none;
    }
    if l.tx_failed
        then ok (0, record l' { tx_error = get_or_insert l.tx_error TxError.link_failed })
        else test_loop data_limit packet_size data_limit 0 l'
