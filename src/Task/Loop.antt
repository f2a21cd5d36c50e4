-- ===== src/Task/Loop.antt =====
-- aggligator/src/agg/task.rs, `Task::run`: the events of the main loop and their handlers. What is ready, and
-- which of the ready events is taken, is the executor's; an event here is one that was taken.
pub mod Dispatch
pub mod Rounds
pub mod Kept
pub mod Stale
pub mod Events
pub mod Served
pub mod Tested
pub mod Answered
pub mod Received
pub mod Started
mod Samples
mod Tests
use aggligator.Base.{
  ℕ, suc, ◌%◌, ◌^◌, Bool, true, false, not, ◌&&◌, Option, none, some, List, [], ◌∷◌, ◌++◌,
  if◌then◌else◌, is_none,
}
use aggligator.Base.Result.{Result, ok, err, ◌>>=◌}
use aggligator.Fault.{Fault, Run, panic, unwrap}
use aggligator.Bytes.{Bytes, ByteOrder}
use aggligator.Cfg.{LinkCfg, ExchangedCfg}
use aggligator.Msg.{LinkMsg, ReliableMsg}
use aggligator.Packets.{Packets}
pub use aggligator.Link.{LinkIntEvent}
use aggligator.Link.{
  Sink, LinkInt, NotWorkingReason, DisconnectInitiator, report_ready, start_flush,
}
use aggligator.Task.Defs.{Task, TxState, SendError, RecvError, link_at, put_link, without}
use aggligator.Task.Receive.{consume_received}
use aggligator.Task.Send.{flush_link, send_reliable_over_link}
use aggligator.Task.Links.{unconfirm_link, remove_link, add_link}
use aggligator.Task.Messages.{handle_received_msg}
use aggligator.Task.Resend.{resend_packet}
use aggligator.Task.Ready.{
  Round, contains, after_sent, not_idle, ready_send, consumed_acked, receive_close_done,
  receive_finish_done, send_finish_done, handle_tx_ready,
}

pub data FatalConnectError : Type 0 where
  server_id_mismatch closed : FatalConnectError

-- `TaskEvent`. `new_link` brings the link filter's decision along; `resend` the chosen link, since its packet is
-- the front of the resend queue; `consume` stands for `ConsumeReceived`, whose permit is whether `read_tx` is
-- there. `NoNewLinks` only closes the channel of new links, which is no part of `Task`; statistics
-- and refused links change nothing here.
pub data TaskEvent (TX : Type 0) : Type 0 where
  terminate : TaskEvent TX
  new_link : LinkInt TX → ExchangedCfg → (accepted : Bool) → TaskEvent TX
  link_event : ℕ → LinkIntEvent → TaskEvent TX
  write_rx : ℕ → Bytes → TaskEvent TX
  write_end : TaskEvent TX
  flush : ℕ → TaskEvent TX
  confirm_timed_out : ℕ → TaskEvent TX
  resend : ℕ → TaskEvent TX
  read_dropped read_closed consume send_consumed : TaskEvent TX
  ping_link link_unconfirmed_timeout link_send_timeout link_ping_timeout : ℕ → TaskEvent TX
  link_testing no_links_timeout : TaskEvent TX
  fatal_connect_error : FatalConnectError → TaskEvent TX

pub data TaskError : Type 0 where
  all_unconfirmed_timeout no_links_timeout protocol_error server_id_mismatch terminated
        aborted_by_server :
      TaskError

pub data SendTerminate : Type 0 where
  no_terminate initiate reply : SendTerminate

-- How the main loop ends: the result, and what readers and writers learn.
pub record Ending : Type 0 where
  pub result : Option TaskError
  pub read_term : Option RecvError
  pub write_term : SendError
  pub send_terminate : SendTerminate

-- After an event the loop goes on or ends.
pub data Outcome (TX : Type 0) : Type 0 where
  continue_loop : Task TX → Outcome TX
  end_loop : Ending → Outcome TX

abbrev pub failed_with : TaskError → RecvError → SendError → Ending
failed_with e r w = record {
  result = some e;
  read_term = some r;
  write_term = w;
  send_terminate = SendTerminate.no_terminate;
}

abbrev pub terminated_with : SendTerminate → Ending
terminated_with how = record {
  result = some TaskError.terminated;
  read_term = some RecvError.task_terminated;
  write_term = SendError.task_terminated;
  send_terminate = how;
}

-- `pop` of the idle links: the last one, and the others.
unfoldable pub pop_last : List ℕ → Option (ℕ × List ℕ)
pop_last [] = none
pop_last (x ∷ xs) = elim (pop_last xs) [ none ↦ some (x, []) | some p ↦ some (p.0, x ∷ p.1) ]

abbrev pub set_remote_cfg : Option ExchangedCfg → ExchangedCfg → Option ExchangedCfg
set_remote_cfg none c = some c
set_remote_cfg (some k) c = some k

unfoldable pub without_all : List ℕ → List ℕ → List ℕ
unfolding contains
without_all ids [] = []
without_all ids (x ∷ xs) =
    let rest = without_all ids xs in if contains x ids then rest else x ∷ rest

module _ {TX : Type 0} where
  unfoldable pub handle_new_link : ℕ → LinkInt TX → ExchangedCfg → Bool → Task TX → Task TX
  unfolding add_link
  handle_new_link now l c accepted t =
      let t1 = record t { remote_cfg = set_remote_cfg t.remote_cfg c } in
      if accepted then (add_link now l t1).1 else t1

  -- A confirmed link is flushed: whether it is, the link and the packets.
  unfoldable pub flush_confirmed :
      ℕ → LinkInt TX → Packets → Option (ℕ × NotWorkingReason) → Bool × (LinkInt TX × Packets)
  unfolding start_flush
  flush_confirmed now l ps none = (true, start_flush now l ps)
  flush_confirmed now l ps (some u) = (false, (l, ps))

  -- The indices of the links that are flushed, from index `i` on, the links and the packets.
  unfoldable pub flush_all :
      ℕ → ℕ → List (Option (LinkInt TX)) → Packets → List ℕ × List (Option (LinkInt TX)) × Packets
  unfolding flush_confirmed
  flush_all now i [] ps = ([], [], ps)
  flush_all now i (none ∷ ls) ps = let r = flush_all now (suc i) ls ps in (r.0, none ∷ r.1, r.2)
  flush_all now i (some l ∷ ls) ps =
      let f = flush_confirmed now l ps l.unconfirmed in
      let r = flush_all now (suc i) ls f.1.1 in
      (if f.0 then i ∷ r.0 else r.0, some f.1.0 ∷ r.1, r.2)

  unfoldable pub handle_flush : ℕ → ℕ → Task TX → Task TX
  unfolding flush_all without_all
  handle_flush now notify t =
      let r = flush_all now 0 t.links t.txed_packets in
      record t {
        unflushed_links = r.0;
        links = r.1;
        tx_state = record t.tx_state { txed_packets = r.2 };
        idle_links = without_all r.0 t.idle_links;
        flushed_tx = some notify;
      }

  unfoldable pub handle_blocked_changed : ℕ → ℕ → Task TX → Run (Task TX)
  handle_blocked_changed now id t =
      link_at t.links id >>= λ l. ok (put_link id (report_ready now l) (not_idle id t))

  unfoldable pub handle_link_cfg_changed : ℕ → Option LinkCfg → Task TX → Run (Task TX)
  handle_link_cfg_changed id c t =
      link_at t.links id >>= λ l. ok (put_link id (record l { own_link_cfg = c }) t)

  unfoldable pub start_disconnecting : ℕ → ℕ → Task TX → LinkInt TX → Run (Task TX)
  unfolding unconfirm_link
  start_disconnecting now id t l = elim l.disconnecting [
    | none ↦
        unconfirm_link now id NotWorkingReason.disconnecting
          (put_link id (record l { disconnecting = some DisconnectInitiator.local }) t)
    | some i ↦ ok t
  ]

  unfoldable pub handle_ping_link : ℕ → ℕ → Task TX → Run (Task TX)
  unfolding flush_link
  handle_ping_link now id t =
      link_at t.links id >>= λ l. flush_link now id (put_link id (record l { send_ping = true }) t)

  abbrev pub go_on : Run (Task TX) → Run (Outcome TX)
  go_on (ok t) = ok (continue_loop t)
  go_on (err e) = err e

  -- A received message: a protocol error ends the loop, a panic the program.
  abbrev pub protocol_failure : Run (Outcome TX)
  protocol_failure = ok (
      end_loop
        (failed_with TaskError.protocol_error RecvError.protocol_error SendError.protocol_error))

  unfoldable pub received_outcome : Run (Bool × Task TX) → Run (Outcome TX)
  received_outcome (ok (false, t)) = ok (continue_loop t)
  received_outcome (ok (true, t)) = ok (end_loop (terminated_with SendTerminate.reply))
  received_outcome (err Fault.panic) = err panic
  received_outcome (err Fault.seq_underflow) = protocol_failure
  received_outcome (err Fault.recv_buffer_overflow) = protocol_failure
  received_outcome (err Fault.txed_unconsumed_underflow) = protocol_failure
  received_outcome (err Fault.repeated_goodbye) = protocol_failure
  received_outcome (err Fault.unexpected_message) = protocol_failure
