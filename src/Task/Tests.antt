-- ===== src/Task/Tests.antt =====
-- The theorems on the task at a connection with one link.
use aggligator.Base.{ℕ, zero, suc, ◌≡◌, refl, ap, sym, none, some, List, [], ◌∷◌, arith, sym}
use aggligator.Base.Result.{ok, err}
use aggligator.Fault.{seq_underflow}
use aggligator.Bytes.{Bytes}
use aggligator.Bytes.BigEndian.{big_endian}
use aggligator.Msg.{ReliableMsg}
use aggligator.Packets.{sent_size, status_size}
use aggligator.Link.{LinkInt, LinkTest, NotWorkingReason}
use aggligator.Task.Defs.{link_at, without}
use aggligator.Task.Samples.{
  list_sink, link0, messages, first, idle_rx, waiting_rx, underway, task_with,
}
use aggligator.Task.Testing.{
  link_testing_step, step_slot, stepped, test_step, in_progress_step, roundtrip_limit, allow_retest,
  retest_state, ping_spread_limits, min_ping, is_measured, others_slow, is_slow,
}
use aggligator.Task.Testing.Confirms.{Confirmable, link_testing_step-Confirmable}
use aggligator.Task.Receive.{is_consumable, handle_received_reliable_msg}
use aggligator.Task.Receive.Handler.{InOrder}
use aggligator.Task.Receive.Delivery.{
  Handled, handle_received_reliable_msg-InOrder, handle_received_reliable_msg-ahead,
}
use aggligator.Task.Receive.Consume.{Consumed, consume_received-InOrder}
use aggligator.Task.Ack.Handler.{AckHandled, handle_ack-Accounted}
use aggligator.Task.Ack.Acknowledge.{Accounted}
use aggligator.Task.Send.Handler.{Sent, send_reliable_over_link-Accounted}
use aggligator.Task.Links.Unconfirm.{Unconfirmed, unconfirm_link-Accounted}

idle_rx-InOrder : InOrder messages 0 [] idle_rx
idle_rx-InOrder = record {
  seq = refl;
  holds = tt;
  missing = tt;
  delivered = refl;
  size = refl;
  short = omega arith;
}

waiting_rx-InOrder : InOrder messages 1 [] waiting_rx
unfolding is_consumable
waiting_rx-InOrder = record {
  seq = refl;
  holds = tt;
  missing = tt;
  delivered = refl;
  size = refl;
  short = omega arith;
}

handle_received_reliable_msg-InOrder_example :
    Handled messages 1 0 50 0 [] link0 (task_with idle_rx)
handle_received_reliable_msg-InOrder_example =
    handle_received_reliable_msg-InOrder messages 1 0 50 0 [] link0 (task_with idle_rx)
      idle_rx-InOrder refl (omega arith) (omega arith) tt

handle_received_reliable_msg-ahead_example :
    handle_received_reliable_msg 50 0 65537 (messages 65537) (task_with idle_rx) ≡ err seq_underflow
handle_received_reliable_msg-ahead_example =
    handle_received_reliable_msg-ahead messages 65537 0 50 0 link0 (task_with idle_rx) refl refl
      (omega arith) (omega arith)

consume_received-InOrder_example : Consumed messages 1 [] first (task_with waiting_rx)
consume_received-InOrder_example =
    consume_received-InOrder messages 1 [] first [] (task_with waiting_rx) waiting_rx-InOrder refl

link_sums :
    (id : ℕ) (l : LinkInt (List Bytes))
    → link_at (some link0 ∷ []) id ≡ ok l
    → l.txed_unacked_data ≡ sent_size id underway
unfolding sent_size status_size
link_sums zero l e = ap (λ r. elim r as (λ _. ℕ) [ ok k ↦ k.txed_unacked_data | err f ↦ 0 ]) (sym e)
link_sums (suc id) l e = cc

task-Accounted : Accounted 0 (task_with idle_rx)
task-Accounted = record {
  counted = record {
    numbered = (refl, tt);
    next = refl;
    short = omega arith;
    unacked = refl;
    received = refl;
  };
  links = link_sums;
}

handle_ack-Accounted_example : AckHandled 0 60 0 0 (task_with idle_rx)
handle_ack-Accounted_example =
    handle_ack-Accounted 0 60 0 0 link0 (task_with idle_rx) task-Accounted refl (omega arith)

send_reliable_over_link-Accounted_example :
    Sent 0 70 0 (ReliableMsg.data_msg (5 ∷ [])) (task_with idle_rx)
send_reliable_over_link-Accounted_example =
    send_reliable_over_link-Accounted 0 70 0 (ReliableMsg.data_msg (5 ∷ [])) link0
      (task_with idle_rx) task-Accounted refl refl refl (omega arith)

unconfirm_link-Accounted_example :
    Unconfirmed 0 80 0 NotWorkingReason.ack_timeout (task_with idle_rx)
unconfirm_link-Accounted_example =
    unconfirm_link-Accounted 0 80 0 NotWorkingReason.ack_timeout link0 (task_with idle_rx)
      task-Accounted refl (omega arith) refl

-- The link under test, whose ping was answered, and the task before and after it is confirmed.
abbrev tested : LinkInt (List Bytes)
tested = record link0 { unconfirmed = some (50, NotWorkingReason.new); test = LinkTest.in_progress }

abbrev confirmed : LinkInt (List Bytes)
confirmed = record link0 { tx_polling = some 90 }

link_testing_step-Confirmable_example : Confirmable NotWorkingReason.new tested
unfolding link_testing_step step_slot stepped test_step in_progress_step roundtrip_limit
    allow_retest retest_state ping_spread_limits min_ping is_measured others_slow is_slow without
link_testing_step-Confirmable_example =
    link_testing_step-Confirmable 90 0 50 NotWorkingReason.new none tested confirmed
      (record (task_with idle_rx) { links = some tested ∷ [] })
      (record (task_with idle_rx) { links = some confirmed ∷ []; idle_links = [] }) refl refl refl
      refl refl
