-- ===== src/Task/Send/Counts.antt =====
-- Handing a message to a link changes no packet that is counted and no sum of the link.
use aggligator.Base.{ℕ, ◌≡◌, refl, ◌∙◌, Bool, true, false, Option, none, some, Bool-cases, inl, inr}
use mathlib.Core.List.{reverse}
use aggligator.Base.Result.{ok}
use aggligator.Bytes.{Bytes, ByteOrder}
use aggligator.Seq.{Seq}
use aggligator.Msg.{LinkMsg, ReliableMsg, msg_id}
use aggligator.Msg.Write.{encode, write_body}
use aggligator.Msg.Reliable.{to_link_msg}
use aggligator.Packets.{Packets}
use aggligator.Link.{Sink, TxError, LinkInt, start_flush, start_send_msg}
use aggligator.Link.Send.{
  get_or_insert, note_sent, flush_if_over, over_unflushed_limit, handed_over, hand_over,
}
use aggligator.Task.Send.{transmit}
use aggligator.Task.Send.Unchanged.{Unchanged, same, trans, mark_flushed-Unchanged}

module _ {TX : Type 0} where
  abbrev pub Keeps : LinkInt TX → Packets → LinkInt TX × Packets → Type 0
  Keeps l ps (l', ps') = Unchanged ps ps' × (l'.txed_unacked_data ≡ l.txed_unacked_data)

  pub start_flush-Keeps :
      (now : ℕ) (l : LinkInt TX) (ps : Packets) → Keeps l ps (start_flush now l ps)
  unfolding start_flush
  start_flush-Keeps now l ps =
      (mark_flushed-Unchanged now l.link_id (reverse l.txed_packets) ps, refl)

  note_sent-Keeps :
      (now : ℕ) (msg : LinkMsg) (l : LinkInt TX) (ps : Packets)
      → Keeps l ps (note_sent now msg l ps)
  unfolding note_sent
  note_sent-Keeps now (LinkMsg.ack received) l ps = (same ps, refl)
  note_sent-Keeps now (LinkMsg.consumed seq n) l ps = (same ps, refl)
  note_sent-Keeps now (LinkMsg.data_msg seq) l ps = (same ps, refl)
  note_sent-Keeps now LinkMsg.accepted l ps = start_flush-Keeps now l ps
  note_sent-Keeps now LinkMsg.ping l ps = start_flush-Keeps now l ps
  note_sent-Keeps now LinkMsg.pong l ps = start_flush-Keeps now l ps
  note_sent-Keeps now (LinkMsg.send_finish seq) l ps = start_flush-Keeps now l ps
  note_sent-Keeps now (LinkMsg.receive_close seq) l ps = start_flush-Keeps now l ps
  note_sent-Keeps now (LinkMsg.receive_finish seq) l ps = start_flush-Keeps now l ps
  note_sent-Keeps now LinkMsg.goodbye l ps = start_flush-Keeps now l ps
  note_sent-Keeps now _ l ps = (same ps, refl)

  flush_if_over-Keeps :
      (now : ℕ) (l : LinkInt TX) (ps : Packets) (r : LinkInt TX × Packets)
      → Keeps l ps r
      → Keeps l ps (flush_if_over now r)
  unfolding flush_if_over
  flush_if_over-Keeps now l ps (k, qs) h = elim (Bool-cases (over_unflushed_limit k)) [
    | inl over ↦ let f = start_flush-Keeps now k qs in rw over (trans h.0 f.0, f.1 ∙ h.1)
    | inr under ↦ rw under h
  ]

  pub hand_over-Keeps :
      (now : ℕ) (msg : LinkMsg) (bytes : Option Bytes) (encoded : Bytes) (taken : TX × Bool)
      (l : LinkInt TX) (ps : Packets)
      → Keeps l ps (hand_over now msg bytes encoded taken l ps)
  unfolding hand_over handed_over
  hand_over-Keeps now msg bytes encoded (tx, true) l ps =
      let l1 : LinkInt TX = record l {
        tx = tx;
        tx_data = bytes;
        tx_last_msg = some now;
        txed_unflushed = _;
      } in
      flush_if_over-Keeps now l ps (note_sent now msg l1 ps) (note_sent-Keeps now msg l1 ps)
  hand_over-Keeps now msg bytes encoded (tx, false) l ps = (same ps, refl)

module _ ⦃o : ByteOrder⦄ where
  encoded_reliable :
      (msg : ReliableMsg) (seq : Seq) → (b : Bytes) × (encode (to_link_msg msg seq).0 ≡ ok b)
  unfolding encode write_body msg_id to_link_msg
  encoded_reliable (ReliableMsg.data_msg bytes) seq = (_, refl)
  encoded_reliable (ReliableMsg.consumed n) seq = (_, refl)
  encoded_reliable ReliableMsg.send_finish seq = (_, refl)
  encoded_reliable ReliableMsg.receive_close seq = (_, refl)
  encoded_reliable ReliableMsg.receive_finish seq = (_, refl)

module _ {TX : Type 0} ⦃s : Sink TX⦄ ⦃o : ByteOrder⦄ where
  pub record Transmitted (now : ℕ) (msg : ReliableMsg) (seq : Seq) (l : LinkInt TX) (ps : Packets)
      : Type 0 where
    pub link : LinkInt TX
    pub packets : Packets
    pub runs : transmit now msg seq l ps ≡ ok (link, packets)
    pub unchanged : Unchanged ps packets
    pub data_size : link.txed_unacked_data ≡ l.txed_unacked_data

  -- A link that neither waits for its sink nor holds data takes a message.
  pub transmit-Transmitted :
      (now : ℕ) (msg : ReliableMsg) (seq : Seq) (l : LinkInt TX) (ps : Packets)
      → l.tx_polling ≡ none
      → l.tx_data ≡ none
      → Transmitted now msg seq l ps
  unfolding transmit start_send_msg
  transmit-Transmitted now msg seq l ps idle empty = elim (Bool-cases l.tx_failed) [
    | inl failed ↦ record {
      link = record l { tx_error = get_or_insert l.tx_error TxError.link_failed };
      packets = ps;
      runs = rw (idle, empty, failed) refl;
      unchanged = same ps;
      data_size = refl;
    }
    | inr working ↦
        let e = encoded_reliable msg seq in
        let (link_msg, bytes) = to_link_msg msg seq in
        let l1 = record l { tx_polling = some now; tx_idle_since = none } in
        let r = hand_over now link_msg bytes e.0 (s.start_send l.tx e.0) l1 ps in
        let k = hand_over-Keeps now link_msg bytes e.0 (s.start_send l.tx e.0) l1 ps in
        record {
          link = r.0;
          packets = r.1;
          runs = rw (idle, empty, working, e.1) refl;
          unchanged = k.0;
          data_size = k.1;
        }
  ]
