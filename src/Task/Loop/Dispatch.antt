-- ===== src/Task/Loop/Dispatch.antt =====
-- The handling of each event of the main loop.
use aggligator.Base.{ℕ, ◌%◌, ◌^◌, false, Option, none, some, List}
use aggligator.Base.Result.{ok, err, ◌>>=◌}
use aggligator.Fault.{Run, panic}
use aggligator.Bytes.{ByteOrder}
use aggligator.Msg.{ReliableMsg}
use aggligator.Link.{Sink, NotWorkingReason}
use aggligator.Task.Defs.{Task, SendError, RecvError, link_at, without}
use aggligator.Task.Receive.{consume_received}
use aggligator.Task.Send.{flush_link, send_reliable_over_link}
use aggligator.Task.Links.{unconfirm_link, remove_link}
use aggligator.Task.Messages.{handle_received_msg}
use aggligator.Task.Resend.{resend_packet}
use aggligator.Task.Ready.{
  Round, after_sent, ready_send, consumed_acked, receive_close_done, receive_finish_done,
  send_finish_done, handle_tx_ready,
}
use aggligator.Task.Loop.{
  LinkIntEvent, FatalConnectError, TaskEvent, TaskError, SendTerminate, Outcome, failed_with,
  terminated_with, pop_last, handle_new_link, handle_flush, handle_blocked_changed,
  handle_link_cfg_changed, start_disconnecting, handle_ping_link, go_on, received_outcome,
}

module _ {TX : Type 0} ⦃s : Sink TX⦄ ⦃o : ByteOrder⦄ where
  -- A message over the idle link that was popped, if there is one.
  unfoldable pub send_over_popped :
      ℕ → ReliableMsg → (Task TX → Task TX) → Task TX → Option (ℕ × List ℕ) → Run (Task TX)
  unfolding send_reliable_over_link
  send_over_popped now msg f t none = ok t
  send_over_popped now msg f t (some (id, rest)) =
      after_sent f (send_reliable_over_link now id msg (record t { idle_links = rest }))

  -- `self.idle_links.pop().unwrap()`
  unfoldable pub handle_send_consumed : ℕ → Task TX → Option (ℕ × List ℕ) → Run (Task TX)
  unfolding send_over_popped
  handle_send_consumed now t none = err panic
  handle_send_consumed now t (some p) =
      send_over_popped now (ReliableMsg.consumed (t.rxed_reliable_consumed_since_last_ack % 2 ^ 32))
        consumed_acked t (some p)

  unfoldable pub handle_write_end : ℕ → Task TX → Run (Task TX)
  unfolding send_over_popped pop_last
  handle_write_end now t =
      send_over_popped now ReliableMsg.send_finish send_finish_done (record t { write_rx = none })
        (pop_last t.idle_links)

  unfoldable pub handle_read_dropped : ℕ → Task TX → Run (Task TX)
  unfolding send_over_popped pop_last
  handle_read_dropped now t =
      send_over_popped now ReliableMsg.receive_finish receive_finish_done
        (record t { read_tx = none; read_closed_rx = false }) (pop_last t.idle_links)

  unfoldable pub handle_read_closed : ℕ → Task TX → Run (Task TX)
  unfolding send_over_popped pop_last
  handle_read_closed now t =
      send_over_popped now ReliableMsg.receive_close receive_close_done
        (record t { read_closed_rx = false }) (pop_last t.idle_links)

  unfoldable pub handle_link_event : ℕ → Round → ℕ → Task TX → LinkIntEvent → Run (Outcome TX)
  unfolding handle_tx_ready received_outcome handle_received_msg flush_link remove_link
      handle_blocked_changed handle_link_cfg_changed start_disconnecting
  handle_link_event now r id t LinkIntEvent.tx_ready = go_on (handle_tx_ready now r id t)
  handle_link_event now r id t LinkIntEvent.tx_flushed =
      go_on (ok (record t { unflushed_links = without id t.unflushed_links }))
  handle_link_event now r id t (LinkIntEvent.rx msg bytes) =
      received_outcome (handle_received_msg now id msg bytes t)
  handle_link_event now r id t LinkIntEvent.flush_required = go_on (flush_link now id t)
  handle_link_event now r id t LinkIntEvent.tx_error = go_on (remove_link now id t)
  handle_link_event now r id t LinkIntEvent.rx_error = go_on (remove_link now id t)
  handle_link_event now r id t LinkIntEvent.blocked_changed =
      go_on (handle_blocked_changed now id t)
  handle_link_event now r id t (LinkIntEvent.link_cfg_changed c) =
      go_on (handle_link_cfg_changed id c t)
  handle_link_event now r id t LinkIntEvent.disconnect =
      go_on (link_at t.links id >>= λ l. start_disconnecting now id t l)

  -- `match event`, at the time `now`; a link event is for a link that exists.
  unfoldable pub handle_event : ℕ → Round → Task TX → TaskEvent TX → Run (Outcome TX)
  unfolding handle_link_event handle_new_link ready_send handle_send_consumed handle_write_end
      handle_read_dropped handle_read_closed handle_flush handle_ping_link unconfirm_link
      remove_link resend_packet consume_received pop_last
  handle_event now r t TaskEvent.terminate =
      ok (Outcome.end_loop (terminated_with SendTerminate.initiate))
  handle_event now r t (TaskEvent.new_link l c accepted) =
      go_on (ok (handle_new_link now l c accepted t))
  handle_event now r t (TaskEvent.link_event id e) =
      link_at t.links id >>= λ l. handle_link_event now r id t e
  handle_event now r t (TaskEvent.write_rx id bytes) =
      go_on (ready_send now id (ReliableMsg.data_msg bytes) (λ t'. t') t)
  handle_event now r t TaskEvent.write_end = go_on (handle_write_end now t)
  handle_event now r t (TaskEvent.flush notify) = go_on (ok (handle_flush now notify t))
  handle_event now r t (TaskEvent.confirm_timed_out id) =
      go_on (unconfirm_link now id NotWorkingReason.ack_timeout t)
  handle_event now r t (TaskEvent.resend id) = go_on (resend_packet now id t)
  handle_event now r t TaskEvent.read_dropped = go_on (handle_read_dropped now t)
  handle_event now r t TaskEvent.read_closed = go_on (handle_read_closed now t)
  handle_event now r t TaskEvent.consume = go_on (consume_received t)
  handle_event now r t TaskEvent.send_consumed =
      go_on (handle_send_consumed now t (pop_last t.idle_links))
  handle_event now r t (TaskEvent.ping_link id) = go_on (handle_ping_link now id t)
  handle_event now r t (TaskEvent.link_unconfirmed_timeout id) = go_on (remove_link now id t)
  handle_event now r t (TaskEvent.link_send_timeout id) = go_on (remove_link now id t)
  handle_event now r t (TaskEvent.link_ping_timeout id) = go_on (remove_link now id t)
  handle_event now r t TaskEvent.link_testing = go_on (ok t)
  handle_event now r t TaskEvent.no_links_timeout = ok (
      Outcome.end_loop (
        failed_with TaskError.no_links_timeout RecvError.all_links_failed
          SendError.all_links_failed))
  handle_event now r t (TaskEvent.fatal_connect_error FatalConnectError.server_id_mismatch) = ok (
      Outcome.end_loop (
        failed_with TaskError.server_id_mismatch RecvError.server_id_mismatch
          SendError.server_id_mismatch))
  handle_event now r t (TaskEvent.fatal_connect_error FatalConnectError.closed) = ok (
      Outcome.end_loop (
        failed_with TaskError.aborted_by_server RecvError.aborted_by_server
          SendError.aborted_by_server))
