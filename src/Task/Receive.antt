-- ===== src/Task/Receive.antt =====
-- The receiving side: `handle_received_reliable_msg`, and the handler of `ConsumeReceived`.
pub mod Sizes
pub mod Order
pub mod Handler
pub mod Place
pub mod Delivery
pub mod Consume
use aggligator.Base.{
  ℕ, ◌+◌, ◌-◌, ◌*◌, ◌/◌, ◌^◌, Bool, true, false, not, ◌&&◌, ◌||◌, Option, none, some, List, [], ◌∷◌,
  ◌++◌, ltb, leb, ◌==◌, if◌then◌else◌, length, replicate, get_elem?, set,
}
use aggligator.Base.Int.{as_usize}
use aggligator.Base.Result.{Result, ok, err, ◌>>=◌, ◌>>◌, guard}
use aggligator.Fault.{
  Fault, Run, panic, minus, seq_underflow, recv_buffer_overflow, txed_unconsumed_underflow,
}
use aggligator.Bytes.{Bytes}
use aggligator.Seq
use aggligator.Seq.{Seq, usable_interval}
use aggligator.Msg.{ReliableMsg}
use aggligator.Packets.{data_size}
use aggligator.Link.{LinkInt, report_ready}
use aggligator.Task.Defs.{
  Task, RxState, TxState, ReceivedReliableMsg, SendError, RecvError, link_at, put_link, without,
}

-- `matches!(&msg.msg, ReliableMsg::Data(_) | ReliableMsg::SendFinish)`
unfoldable pub is_consumable : ReliableMsg → Bool
is_consumable (ReliableMsg.data_msg bytes) = true
is_consumable (ReliableMsg.consumed n) = false
is_consumable ReliableMsg.send_finish = true
is_consumable ReliableMsg.receive_close = false
is_consumable ReliableMsg.receive_finish = false

-- `resize(offset + 1, None)` if the queue is too short
unfoldable pub extend : List (Option ReceivedReliableMsg) → ℕ → List (Option ReceivedReliableMsg)
extend q offset = if leb (length q) offset then q ++ replicate (offset + 1 - length q) none else q

-- `while let Some(Some(_)) = self.rxed_reliable.front()`
unfoldable pub forward :
    Seq
    → List (Option ReceivedReliableMsg)
    → List ReceivedReliableMsg
    → Run (Seq × List (Option ReceivedReliableMsg) × List ReceivedReliableMsg)
unfolding is_consumable
forward rx (some r ∷ q) consumable = do
  guard (r.seq == rx) panic
  forward (Seq.add rx 1) q (if is_consumable r.msg then consumable ++ (r ∷ []) else consumable)
forward rx (none ∷ q) consumable = ok (rx, none ∷ q, consumable)
forward rx [] consumable = ok (rx, [], consumable)

unfoldable pub forward_rx : RxState → Run RxState
unfolding forward
forward_rx s = do
  (rx, q, consumable) ← forward s.rx_seq s.rxed_reliable s.rxed_reliable_consumable
  ok (record s { rx_seq = rx; rxed_reliable = q; rxed_reliable_consumable = consumable })

module _ {TX : Type 0} where
  -- The `match &msg` for a message that was not received before.
  unfoldable pub first_received : ReliableMsg → Task TX → Run (Task TX)
  first_received (ReliableMsg.data_msg bytes) t =
      let size = t.rxed_reliable_size + length bytes in
      if ltb t.cfg.recv_buffer size
      then err recv_buffer_overflow
      else ok (record t { rx_state = record t.rx_state { rxed_reliable_size = size } })
  first_received ReliableMsg.send_finish t = ok t
  first_received (ReliableMsg.consumed n) t =
      if ltb t.txed_unconsumed n
      then err txed_unconsumed_underflow
      else ok
          (record t { tx_state = record t.tx_state { txed_unconsumed = t.txed_unconsumed - n } })
  first_received ReliableMsg.receive_close t =
      ok (record t { write_error = SendError.closed; write_closed = true })
  first_received ReliableMsg.receive_finish t =
      ok (record t { write_error = SendError.dropped; write_rx = none; send_finish_sent = true })

  -- `self.rxed_reliable[offset] = Some(..)`
  abbrev pub store : ℕ → ReceivedReliableMsg → Task TX → Task TX
  store offset r t = record t {
    rx_state = record t.rx_state { rxed_reliable = set t.rxed_reliable offset (some r) };
  }

  -- The slot at the offset: out of bounds is a panic, a message there was received before.
  unfoldable pub fill_slot :
      Option (Option ReceivedReliableMsg) → ℕ → ReceivedReliableMsg → Task TX → Run (Task TX)
  unfolding first_received
  fill_slot none offset r t = err panic
  fill_slot (some (some old)) offset r t = ok t
  fill_slot (some none) offset r t = do t' ← first_received r.msg t; ok (store offset r t')

  unfoldable pub accept : Seq → ReliableMsg → Task TX → Run (Task TX)
  unfolding extend fill_slot
  accept seq msg t =
      let offset = as_usize (Seq.diff seq t.rx_seq) in
      if ltb usable_interval offset
      then err seq_underflow
      else (let q = extend t.rxed_reliable offset in
          fill_slot (get_elem? q offset) offset (record { seq = seq; msg = msg })
            (record t { rx_state = record t.rx_state { rxed_reliable = q } }))

  -- A packet below `rx_seq` was received and consumed before: only its ack is sent again.
  unfoldable pub receive : Seq → ReliableMsg → Task TX → Run (Task TX)
  unfolding accept
  receive seq msg t = if Seq.lt seq t.rx_seq then ok t else accept seq msg t

  -- `link.tx_ack_queue.push_back(seq)`, and the link is polled again.
  unfoldable pub queue_ack : ℕ → ℕ → Seq → LinkInt TX → Task TX → Task TX
  unfolding without
  queue_ack now id seq l t =
      put_link id (report_ready now (record l { tx_ack_queue = l.tx_ack_queue ++ (seq ∷ []) }))
        (record t { idle_links = without id t.idle_links })

  unfoldable pub handle_received_reliable_msg : ℕ → ℕ → Seq → ReliableMsg → Task TX → Run (Task TX)
  unfolding receive forward_rx queue_ack
  handle_received_reliable_msg now id seq msg t = do
    l ← link_at t.links id
    t' ← receive seq msg (queue_ack now id seq l t)
    s ← forward_rx t'.rx_state
    ok (record t' { rx_state = s })

  -- `TaskEvent::ConsumeReceived`: the first consumable message is taken off and handed to the user.
  unfoldable pub consume : ReceivedReliableMsg → Task TX → Run (Task TX)
  consume r t = elim r.msg [
    | ReliableMsg.data_msg bytes ↦ do
      size ← minus t.rxed_reliable_size (length bytes)
      ok (record t {
        rx_state = record t.rx_state {
          rxed_reliable_size = size;
          rxed_reliable_consumed_since_last_ack =
              t.rxed_reliable_consumed_since_last_ack + length bytes;
        };
        read_tx = elim t.read_tx [ none ↦ none | some out ↦ some (out ++ (bytes ∷ [])) ];
      })
    | ReliableMsg.send_finish ↦
        ok (record t { read_error = none; read_tx = none; receive_finish_sent = true })
    | ReliableMsg.consumed n ↦ err panic
    | ReliableMsg.receive_close ↦ err panic
    | ReliableMsg.receive_finish ↦ err panic
  ]

  unfoldable pub consume_received : Task TX → Run (Task TX)
  unfolding consume
  consume_received t = elim t.rxed_reliable_consumable [
    | [] ↦ err panic
    | r ∷ rest ↦
        consume r (record t { rx_state = record t.rx_state { rxed_reliable_consumable = rest } })
  ]
