-- ===== src/Task/Ack.antt =====
-- `handle_ack`: a packet was received by the remote endpoint.
pub mod Totals
pub mod Queue
pub mod Kept
pub mod Swipe
pub mod Acknowledge
pub mod Handler
use aggligator.Base.{
  ℕ, zero, suc, ◌+◌, ◌-◌, ◌*◌, ◌/◌, ◌^◌, ◌≤◌, Bool, true, false, not, ◌&&◌, Option, none, some,
  List, [], ◌∷◌, length, ltb, leb, ◌==◌, if◌then◌else◌, get_elem?, set,
}
use aggligator.Base.Int.{as_usize, is_positive}
use aggligator.Base.Result.{Result, ok, err, ◌>>=◌, ◌>>◌, guard}
use aggligator.Fault.{Fault, Run, panic, minus}
use aggligator.Seq
use aggligator.Seq.{Seq}
use aggligator.Packets.{Packets, PacketRef, SentInfo, SentReliable, SentReliableStatus, data_size}
use aggligator.Link.{LinkInt, clean_txed_packets, saturating_add}
use aggligator.Task.Defs.{Task, TxState, link_at, put_link}

-- `resend_queue.retain(|packet| packet.seq != rxed_seq)`
unfoldable pub retain_not : Seq → List PacketRef → List PacketRef
retain_not seq [] = []
retain_not seq (r ∷ rs) = let rest = retain_not seq rs in if r.seq == seq then rest else r ∷ rest

-- The front of the queue, as far as it was received: the packets that stay, the received
-- data that is left to be consumed, and the sequence number of the last packet looked at.
unfoldable pub swipe : Packets → ℕ → Seq → Run (Packets × ℕ × Seq)
swipe [] unconsumable last = ok ([], unconsumable, last)
swipe (p ∷ ps) unconsumable last = elim p.status [
  | SentReliableStatus.received size ↦ do rest ← minus unconsumable size; swipe ps rest p.seq
  | SentReliableStatus.sent i ↦ ok (p ∷ ps, unconsumable, p.seq)
  | SentReliableStatus.resend_queued msg l ↦ ok (p ∷ ps, unconsumable, p.seq)
]

-- The packet is `Received`: its data is no longer unacknowledged.
unfoldable pub count_received : ℕ → ℕ → SentReliable → TxState → Run TxState
count_received idx size p s = do
  unacked ← minus s.txed_unacked size
  ok (record s {
    txed_unacked = unacked;
    txed_unconsumable = s.txed_unconsumable + size;
    txed_packets = set s.txed_packets idx (record p { status = SentReliableStatus.received size });
  })

module _ {TX : Type 0} where
  -- `txed_unacked_data_limit_increased` is taken back, or the roundtrip is measured anew.
  unfoldable pub unblock_increase : Seq → LinkInt TX → LinkInt TX
  unblock_increase rxed_seq l = elim l.txed_unacked_data_limit_increased [
    | none ↦ l
    | some last_increased ↦
        if Seq.le last_increased rxed_seq
        then record l { txed_unacked_data_limit_increased = none }
        else record l { roundtrip_estimates = some 0 }
  ]

  -- The moving average of the roundtrip time, and the number of estimates in it.
  unfoldable pub estimate_roundtrip : ℕ → LinkInt TX → LinkInt TX
  estimate_roundtrip elapsed l = record l {
    roundtrip =
        let average =
          if ltb l.roundtrip elapsed
          then (l.roundtrip + 3 * elapsed) / 4
          else (99 * l.roundtrip + elapsed) / 100 in
        elim l.roundtrip_estimates [
          | none ↦ average
          | some n ↦ if n == 0 then elapsed else average
        ];
    roundtrip_estimates = elim l.roundtrip_estimates [
      | none ↦ none
      | some n ↦ some (saturating_add n 1)
    ];
  }

  -- The `match` on the status of the packet with the index `idx`.
  unfoldable pub mark_received :
      ℕ
      → ℕ
      → Seq
      → ℕ
      → SentReliable
      → SentReliableStatus
      → LinkInt TX
      → TxState
      → Run (LinkInt TX × TxState)
  unfolding count_received estimate_roundtrip retain_not
  mark_received now id rxed_seq idx p (SentReliableStatus.sent i) l s =
      if i.link_id == id
      then (do
        unacked_data ← minus l.txed_unacked_data (data_size i.msg)
        s' ← count_received idx (data_size i.msg) p s
        ok (estimate_roundtrip (now - i.sent) (record l { txed_unacked_data = unacked_data }), s'))
      else ok (l, s)
  mark_received now id rxed_seq idx p (SentReliableStatus.resend_queued msg sent_link) l s = do
    s' ← count_received idx (data_size msg) p s
    ok (l, record s' { resend_queue = retain_not rxed_seq s'.resend_queue })
  mark_received now id rxed_seq idx p (SentReliableStatus.received size) l s = ok (l, s)

  -- The indexed packet: out of bounds and another sequence number are panics.
  unfoldable pub acknowledge_at :
      ℕ → ℕ → Seq → ℕ → Option SentReliable → LinkInt TX → TxState → Run (LinkInt TX × TxState)
  unfolding mark_received
  acknowledge_at now id rxed_seq idx none l s = err panic
  acknowledge_at now id rxed_seq idx (some p) l s = do
    guard (p.seq == rxed_seq) panic
    mark_received now id rxed_seq idx p p.status l s

  unfoldable pub acknowledge : ℕ → ℕ → Seq → LinkInt TX → TxState → Run (LinkInt TX × TxState)
  unfolding acknowledge_at
  acknowledge now id rxed_seq l s =
      let back_idx = Seq.diff s.tx_seq rxed_seq in
      let idx = length s.txed_packets - as_usize back_idx in
      if is_positive back_idx && leb (as_usize back_idx) (length s.txed_packets)
      then acknowledge_at now id rxed_seq idx (get_elem? s.txed_packets idx) l s
      else ok (l, s)

  unfoldable pub handle_ack : ℕ → ℕ → Seq → Task TX → Run (Task TX)
  unfolding unblock_increase acknowledge swipe
  handle_ack now id rxed_seq t = do
    l ← link_at t.links id
    (l', s) ← acknowledge now id rxed_seq (unblock_increase rxed_seq l) t.tx_state
    (ps, unconsumable, last) ← swipe s.txed_packets s.txed_unconsumable s.txed_last_consumed
    ok (
        put_link id (clean_txed_packets ps l') (record t {
          tx_state = record s {
            txed_packets = ps;
            txed_unconsumable = unconsumable;
            txed_last_consumed = last;
          };
        }))
