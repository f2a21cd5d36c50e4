-- ===== src/Task/Ready.antt =====
-- aggligator/src/agg/task.rs, `LinkIntEvent::TxReady`: what is sent over a link that is ready to send.
pub mod Sound
pub mod Sends
pub mod Kept
use aggligator.Base.{
  ℕ, ◌%◌, ◌^◌, Bool, true, false, not, ◌&&◌, ◌||◌, Option, none, some, List, [], ◌∷◌, ◌++◌, length,
  ltb, leb, ◌==◌, if◌then◌else◌, is_none,
}
use aggligator.Base.Result.{Result, ok, err, ◌>>=◌}
use aggligator.Fault.{Run}
use aggligator.Bytes.{Bytes, ByteOrder}
use aggligator.Seq.{Seq}
use aggligator.Msg.{LinkMsg, ReliableMsg}
use aggligator.Packets.{Packets}
use aggligator.Peekable.{PeekableReceiver, TryRecvIfError, try_recv_if}
use aggligator.Link.{
  Sink, LinkInt, DisconnectInitiator, start_send_msg, is_blocked, is_sendable, needs_flush,
  need_ack_flush, mark_idle,
}
use aggligator.Task.Defs.{Task, TxState, RxState, SendReq, link_at, put_link, without}
use aggligator.Task.Send.{flush_link, send_reliable_over_link}
use aggligator.Task.Links.{remove_link}
use aggligator.Task.Resend.{may_resend, resend_packet}

-- What the main loop computed at its start, before it waited for the event.
pub record Round : Type 0 where
  pub is_consume_ack_required : Bool
  pub tx_seq_avail : Bool
  pub tx_space : ℕ
  pub resending : Bool
  pub non_resendable_link : Option ℕ

-- `matches!(msg, SendReq::Send(data) if data.len() <= tx_space)`
unfoldable pub fits_space : ℕ → SendReq → Bool
fits_space tx_space (SendReq.send bytes) = leb (length bytes) tx_space
fits_space tx_space (SendReq.flush n) = false

unfoldable pub contains : ℕ → List ℕ → Bool
contains id [] = false
contains id (x ∷ xs) = (x == id) || contains id xs

abbrev pub differ : Bool → Bool → Bool
differ true b = not b
differ false b = b

module _ {TX : Type 0} where
  abbrev pub not_idle : ℕ → Task TX → Task TX
  not_idle id t = record t { idle_links = without id t.idle_links }

  -- The effects on the task after a message was sent
  abbrev pub after_sent : (Task TX → Task TX) → Run (Seq × Task TX) → Run (Task TX)
  after_sent f (ok (seq, t)) = ok (f t)
  after_sent f (err e) = err e

  abbrev pub consumed_acked : Task TX → Task TX
  consumed_acked t = record t {
    rx_state = record t.rx_state { rxed_reliable_consumed_since_last_ack = 0 };
  }

  abbrev pub receive_close_done : Task TX → Task TX
  receive_close_done t = record t { receive_close_sent = true }

  abbrev pub receive_finish_done : Task TX → Task TX
  receive_finish_done t = record t { receive_finish_sent = true }

  abbrev pub send_finish_done : Task TX → Task TX
  send_finish_done t = record t { send_finish_sent = true }

  -- Nothing to send: a link that is not sendable is flushed, another one becomes idle.
  unfoldable pub ready_idle : ℕ → ℕ → LinkInt TX → Task TX → Run (Task TX)
  unfolding flush_link contains
  ready_idle now id l t =
      if needs_flush l && not (is_sendable l)
      then flush_link now id t
      else if not (contains id t.idle_links)
      then ok (put_link id (mark_idle now l) (record t { idle_links = t.idle_links ++ (id ∷ []) }))
      else ok t

  -- An unconfirmed or blocked link is only flushed.
  unfoldable pub ready_unconfirmed : ℕ → ℕ → LinkInt TX → Task TX → Run (Task TX)
  unfolding flush_link
  ready_unconfirmed now id l t =
      if needs_flush l || need_ack_flush l then flush_link now id t else ok t

module _ {TX : Type 0} ⦃s : Sink TX⦄ ⦃o : ByteOrder⦄ where
  -- A message of the link itself, and what is noted on the link then.
  unfoldable pub send_link_msg :
      ℕ → ℕ → LinkMsg → (LinkInt TX → LinkInt TX) → LinkInt TX → Task TX → Run (Task TX)
  send_link_msg now id msg f l t = start_send_msg now msg none l t.txed_packets >>= λ r. ok (
      put_link id (f r.0) (record t {
        idle_links = without id t.idle_links;
        tx_state = record t.tx_state { txed_packets = r.1 };
      }))

  unfoldable pub ready_send : ℕ → ℕ → ReliableMsg → (Task TX → Task TX) → Task TX → Run (Task TX)
  unfolding send_reliable_over_link
  ready_send now id msg f t = after_sent f (send_reliable_over_link now id msg (not_idle id t))

  -- Data that the user wrote, if it fits.
  unfoldable pub ready_written :
      ℕ
      → ℕ
      → LinkInt TX
      → Task TX
      → Result TryRecvIfError SendReq × PeekableReceiver SendReq
      → Run (Task TX)
  unfolding ready_send ready_idle
  ready_written now id l t (ok (SendReq.send bytes), rx) =
      ready_send now id (ReliableMsg.data_msg bytes) (λ t'. t') (record t { write_rx = some rx })
  ready_written now id l t (ok (SendReq.flush n), rx) =
      ready_idle now id l (record t { write_rx = some rx })
  ready_written now id l t (err e, rx) = ready_idle now id l (record t { write_rx = some rx })

  unfoldable pub ready_write :
      ℕ → Round → ℕ → LinkInt TX → Task TX → Option (PeekableReceiver SendReq) → Run (Task TX)
  unfolding ready_written fits_space try_recv_if
  ready_write now r id l t none = ready_idle now id l t
  ready_write now r id l t (some rx) =
      if r.tx_seq_avail && is_sendable l
      then ready_written now id l t (try_recv_if (fits_space r.tx_space) rx)
      else ready_idle now id l t

  -- Reliable messages, by priority.
  unfoldable pub ready_reliable : ℕ → Round → ℕ → LinkInt TX → Task TX → Run (Task TX)
  unfolding ready_send ready_write resend_packet
  ready_reliable now r id l t =
      if r.is_consume_ack_required
      then ready_send now id
          (ReliableMsg.consumed (t.rxed_reliable_consumed_since_last_ack % 2 ^ 32)) consumed_acked t
      else if r.resending && is_sendable l && may_resend r.non_resendable_link l.link_id
      then resend_packet now id t
      else if not t.read_closed_rx && not t.receive_close_sent
      then ready_send now id ReliableMsg.receive_close receive_close_done t
      else if is_none t.read_tx && not t.receive_finish_sent
      then ready_send now id ReliableMsg.receive_finish receive_finish_done t
      else if is_none t.write_rx && not t.send_finish_sent
      then ready_send now id ReliableMsg.send_finish send_finish_done t
      else ready_write now r id l t t.write_rx

  unfoldable pub ready_ack : ℕ → Round → ℕ → LinkInt TX → Task TX → List Seq → Run (Task TX)
  unfolding send_link_msg ready_reliable ready_unconfirmed
  ready_ack now r id l t (recved_seq ∷ rest) =
      send_link_msg now id (LinkMsg.ack recved_seq) (λ k. k) (record l { tx_ack_queue = rest }) t
  ready_ack now r id l t [] =
      if is_none l.unconfirmed && not (is_blocked l)
      then ready_reliable now r id l t
      else ready_unconfirmed now id l t

  unfoldable pub ready_disconnecting :
      ℕ → ℕ → LinkInt TX → Task TX → DisconnectInitiator → Run (Task TX)
  unfolding send_link_msg remove_link
  ready_disconnecting now id l t initiator =
      if not l.goodbye_sent
      then send_link_msg now id LinkMsg.goodbye (λ k. record k { goodbye_sent = true }) l t
      else elim initiator [
        | DisconnectInitiator.remote ↦ remove_link now id t
        | DisconnectInitiator.local ↦ ok t
      ]

  unfoldable pub ready_open :
      ℕ → Round → ℕ → LinkInt TX → Task TX → Option DisconnectInitiator → Run (Task TX)
  unfolding send_link_msg ready_disconnecting ready_ack
  ready_open now r id l t (some initiator) = ready_disconnecting now id l t initiator
  ready_open now r id l t none =
      if l.send_ping
      then send_link_msg now id LinkMsg.ping
          (λ k. record k { current_ping_sent = some now; send_ping = false }) l t
      else if differ l.blocked l.blocked_sent
      then send_link_msg now id (LinkMsg.set_block l.blocked)
          (λ k. record k { blocked_sent = l.blocked }) l t
      else ready_ack now r id l t l.tx_ack_queue

  unfoldable pub ready_link : ℕ → Round → ℕ → LinkInt TX → Task TX → Run (Task TX)
  unfolding send_link_msg ready_open
  ready_link now r id l t =
      if l.needs_tx_accepted
      then send_link_msg now id LinkMsg.accepted (λ k. record k { needs_tx_accepted = false }) l t
      else if l.send_pong
      then send_link_msg now id LinkMsg.pong (λ k. record k { send_pong = false }) l t
      else ready_open now r id l t l.disconnecting

  unfoldable pub handle_tx_ready : ℕ → Round → ℕ → Task TX → Run (Task TX)
  unfolding ready_link
  handle_tx_ready now r id t = link_at t.links id >>= λ l. ready_link now r id l t
