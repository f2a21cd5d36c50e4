-- ===== src/Task/Messages.antt =====
-- `handle_received_msg`: a message arrived on a link.
use aggligator.Base.{ℕ, ◌-◌, Bool, true, false, Option, none, some, if◌then◌else◌}
use aggligator.Base.Result.{ok, err, ◌>>=◌}
use aggligator.Fault.{Run, repeated_goodbye, unexpected_message}
use aggligator.Bytes.{Bytes, ByteOrder}
use aggligator.Msg.{LinkMsg}
use aggligator.Msg.Reliable.{from_link_msg}
use aggligator.Link.{Sink, LinkInt, DisconnectInitiator, NotWorkingReason, report_ready}
use aggligator.Task.Defs.{Task, link_at, put_link, without}
use aggligator.Task.Receive.{handle_received_reliable_msg}
use aggligator.Task.Ack.{handle_ack}
use aggligator.Task.Send.{flush_link}
use aggligator.Task.Links.{unconfirm_link, remove_link}
use aggligator.Task.Testing.{link_testing_step}

module _ {TX : Type 0} where
  -- The task goes on.
  unfoldable pub continue_with : Run (Task TX) → Run (Bool × Task TX)
  continue_with (ok t) = ok (false, t)
  continue_with (err f) = err f

  unfoldable pub received_reliable : ℕ → ℕ → LinkMsg → Option Bytes → Task TX → Run (Task TX)
  received_reliable now id msg bytes t = do
    (reliable_msg, seq) ← from_link_msg msg bytes
    handle_received_reliable_msg now id seq reliable_msg t

  unfoldable pub received_set_block : ℕ → ℕ → Bool → LinkInt TX → Task TX → Task TX
  received_set_block now id blocked l t =
      put_link id (report_ready now (record l { remotely_blocked = blocked }))
        (record t { idle_links = without id t.idle_links })

  unfoldable pub received_goodbye :
      ℕ → ℕ → Option DisconnectInitiator → LinkInt TX → Task TX → Run (Task TX)
  received_goodbye now id (some DisconnectInitiator.local) l t =
      if l.goodbye_sent then remove_link now id t else ok t
  received_goodbye now id (some DisconnectInitiator.remote) l t = err repeated_goodbye
  received_goodbye now id none l t =
      unconfirm_link now id NotWorkingReason.disconnecting
        (put_link id (record l { disconnecting = some DisconnectInitiator.remote }) t)

  unfoldable pub drop_due : Run (Option ℕ × Task TX) → Run (Task TX)
  drop_due (ok (due, t)) = ok t
  drop_due (err f) = err f

module _ {TX : Type 0} ⦃s : Sink TX⦄ ⦃o : ByteOrder⦄ where
  -- The answer to a ping: the roundtrip time is measured, and the test goes on.
  unfoldable pub received_pong : ℕ → ℕ → LinkInt TX → Task TX → Run (Task TX)
  unfolding drop_due
  received_pong now id l t = elim l.current_ping_sent [
    | none ↦ ok t
    | some ping_sent ↦ drop_due (
        link_testing_step now id (
          put_link id
            (record l {
              current_ping_sent = none;
              roundtrip = now - ping_sent;
              roundtrip_estimates = some 1;
              last_ping = some now;
            })
            t))
  ]

  unfoldable pub dispatch :
      ℕ → ℕ → LinkMsg → Option Bytes → LinkInt TX → Task TX → Run (Bool × Task TX)
  unfolding continue_with received_reliable received_set_block received_goodbye received_pong
  dispatch now id LinkMsg.ping bytes l t =
      continue_with (flush_link now id (put_link id (record l { send_pong = true }) t))
  dispatch now id LinkMsg.pong bytes l t = continue_with (received_pong now id l t)
  dispatch now id (LinkMsg.ack received) bytes l t = continue_with (handle_ack now id received t)
  dispatch now id (LinkMsg.test_data size) bytes l t = ok (false, t)
  dispatch now id (LinkMsg.set_block blocked) bytes l t =
      ok (false, received_set_block now id blocked l t)
  dispatch now id LinkMsg.goodbye bytes l t =
      continue_with (received_goodbye now id l.disconnecting l t)
  dispatch now id LinkMsg.terminate bytes l t = ok (true, t)
  dispatch now id (LinkMsg.welcome e k i u c) bytes l t = err unexpected_message
  dispatch now id (LinkMsg.connect e k i n x u c) bytes l t = err unexpected_message
  dispatch now id LinkMsg.accepted bytes l t = err unexpected_message
  dispatch now id (LinkMsg.refused reason) bytes l t = err unexpected_message
  dispatch now id msg bytes l t = continue_with (received_reliable now id msg bytes t)

  -- Whether the task is to terminate, and the task.
  unfoldable pub handle_received_msg :
      ℕ → ℕ → LinkMsg → Option Bytes → Task TX → Run (Bool × Task TX)
  unfolding dispatch
  handle_received_msg now id msg bytes t = do l ← link_at t.links id; dispatch now id msg bytes l t
