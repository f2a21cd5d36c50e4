-- ===== src/Task/Loop/Tests.antt =====
-- The theorems on the main loop at connections with one and with two links.
use mathlib.Core.List.{reverse}
use aggligator.Base.{
  ℕ, zero, suc, ◌≡◌, refl, sym, ◌∙◌, true, false, none, some, List, [], ◌∷◌, arith, ap,
}
use aggligator.Base.Result.{ok, err}
use aggligator.Fault.{Run, panic}
use aggligator.Bytes.{Bytes}
use aggligator.Bytes.BigEndian.{big_endian}
use aggligator.Cfg.{LinkCfg, default_link_cfg}
use aggligator.Msg.{ReliableMsg}
use aggligator.Packets.{
  SentInfo, mark_flushed, sort_by_seq, is_total, pushed, sent_size, status_size, requeue, meets,
  meets_first,
}
use aggligator.Link.{start_flush, clean_txed_packets, LinkInt, NotWorkingReason}
use aggligator.Link.Send.{test_loop}
use aggligator.Link.Send.Fuel.{test_loop-enough}
use aggligator.Task.Defs.{without, Task, RxState, link_at, is_consume_ack_required}
use aggligator.Task.Samples.{list_sink, link0, idle_rx, underway, task_with}
use aggligator.Task.Ack.Handler.{AckKeeps, handle_ack-Resendable}
use aggligator.Task.Links.Removal.{Removed, remove_link-Resendable}
use aggligator.Task.Testing.{ping_spread_limits}
use aggligator.Task.Resend.Kept.{Requeues, unconfirm_link-Resendable}
use aggligator.Task.Resend.Select.{Chooses, choose_links-IsChoice}
use aggligator.Task.Resend.Handler.{Apart, ResendsIdle, resend_idle-Resendable}
use aggligator.Task.Timeouts.{specific_timeout, earliest_link_specific_timeout}
use aggligator.Task.Timeouts.Earliest.{IsFirstDue, earliest_link_specific_timeout-IsFirstDue}
use aggligator.Task.Timeouts.Confirm.{ConfirmTimes, earliest_confirm_timeout-ConfirmTimes}
use aggligator.Task.Limits.Checked.{Checks, check_link_limits-Resendable}
use aggligator.Task.Ready.{handle_tx_ready}
use aggligator.Task.Ready.Sound.{Sound, Runs}
use aggligator.Task.Ready.Kept.{handle_tx_ready-Runs}
use aggligator.Task.Loop.{TaskEvent}
use aggligator.Task.Loop.Dispatch.{handle_event}
use aggligator.Task.Loop.Samples.{
  free_link, lost_task, data_counted, lost-Sound, free_link-Usable, lost-non_resendable,
  resend_round,
}
use aggligator.Task.Loop.Events.{Served}
use aggligator.Task.Loop.Served.{handle_event-Served}
use aggligator.Task.Loop.Answered.{Answered}
use aggligator.Task.Loop.Rounds.{Begun, begin_round, write_rx_task}
use aggligator.Task.Loop.Stale.{begin_round-stale}

choose_links-IsChoice_example : Chooses (some 7) lost_task
choose_links-IsChoice_example =
    choose_links-IsChoice (some 7) lost_task lost-non_resendable (free_link-Usable, tt)

lost-Apart : Apart lost_task
unfolding meets_first meets
lost-Apart zero l e = apart_of free_link l e refl
  where
    apart_of :
        (k l : LinkInt (List Bytes))
        → ◌≡◌ {A = Run (LinkInt (List Bytes))} (ok k) (ok l)
        → k.txed_packets ≡ []
        → meets_first l.link_id lost_task.resend_queue
            (reverse l.txed_packets)
            lost_task.txed_packets
          ≡ false
    apart_of k l e none_sent =
        let z : k ≡ l = cc in
        let none_here : l.txed_packets ≡ [] =
          sym (ap (λ (x : LinkInt (List Bytes)). x.txed_packets) z) ∙ none_sent in
        rw none_here refl
lost-Apart (suc id) l e = cc

resend_idle-Resendable_example : ResendsIdle 0 0 90 lost_task
resend_idle-Resendable_example =
    resend_idle-Resendable 0 0 90 lost_task lost-Sound.accounted lost-Sound.resendable
      (free_link-Usable, tt) lost-Apart

handle_ack-Resendable_example : AckKeeps 0 0 95 0 0 lost_task
handle_ack-Resendable_example =
    handle_ack-Resendable 0 0 95 0 0 free_link lost_task lost-Sound.accounted lost-Sound.resendable
      refl (omega arith)

handle_tx_ready-Runs_example : Runs 0 0 lost_task (handle_tx_ready 90 resend_round 0 lost_task)
unfolding meets_first meets
handle_tx_ready-Runs_example =
    handle_tx_ready-Runs 0 0 90 0 resend_round free_link lost_task lost-Sound refl refl refl
      (omega arith) refl refl lost-non_resendable

handle_event-Served_example :
    Served 0 0 lost_task (handle_event 90 resend_round lost_task TaskEvent.write_end)
handle_event-Served_example =
    handle_event-Served 0 0 90 resend_round lost_task TaskEvent.write_end lost-Sound (omega arith)
      (free_link-Usable, tt)

-- A fast link that is busy, and a slow one that is idle, with an ack of consumption due.
abbrev limited_cfg : LinkCfg
limited_cfg = record default_link_cfg { max_ping = some 1000; test_data_limit = 0 }

abbrev fast_link : LinkInt (List Bytes)
fast_link = record link0 { own_link_cfg = some limited_cfg; tx_polling = some 5 }

abbrev slow_link : LinkInt (List Bytes)
slow_link = record link0 {
  link_id = 5;
  own_link_cfg = some limited_cfg;
  roundtrip = 5000;
  txed_packets = [];
  txed_unacked_data = 0;
}

abbrev consumed_rx : RxState
consumed_rx = record idle_rx { rxed_reliable_consumed_since_last_ack = 20000000 }

abbrev two_links : Task (List Bytes)
two_links = record (task_with consumed_rx) {
  links = some fast_link ∷ some slow_link ∷ [];
  idle_links = 1 ∷ [];
}

two_links_counted :
    (id : ℕ) (l : LinkInt (List Bytes))
    → link_at (some fast_link ∷ some slow_link ∷ []) id ≡ ok l
    → l.txed_unacked_data ≡ sent_size id underway
unfolding sent_size status_size
two_links_counted zero l e = data_counted fast_link l e
two_links_counted (suc zero) l e = data_counted slow_link l e
two_links_counted (suc (suc id)) l e = cc

two_links-Sound : Sound 0 0 two_links
two_links-Sound = record {
  accounted = record {
    counted = record {
      numbered = (refl, tt);
      next = refl;
      short = omega arith;
      unacked = refl;
      received = refl;
    };
    links = two_links_counted;
  };
  resendable = record { addressed = (refl, tt); next_address = refl; queue = refl };
}

unconfirm_link-Resendable_example : Requeues 0 0 80 0 NotWorkingReason.ack_timeout two_links
unconfirm_link-Resendable_example =
    unconfirm_link-Resendable 0 0 80 0 NotWorkingReason.ack_timeout fast_link two_links
      two_links-Sound.accounted two_links-Sound.resendable (omega arith) refl

remove_link-Resendable_example : Removed 0 0 80 0 two_links
remove_link-Resendable_example =
    remove_link-Resendable 0 0 80 0 fast_link two_links two_links-Sound.accounted
      two_links-Sound.resendable (omega arith) refl

check_link_limits-Resendable_example : Checks 0 0 90 two_links
check_link_limits-Resendable_example =
    check_link_limits-Resendable 0 0 90 two_links two_links-Sound.accounted
      two_links-Sound.resendable (omega arith)

earliest_link_specific_timeout-IsFirstDue_example :
    IsFirstDue
      (specific_timeout (λ c. c.ping_timeout) (λ l. l.tx_polling))
      0
      two_links.links
      (earliest_link_specific_timeout (λ c. c.ping_timeout) (λ l. l.tx_polling) two_links)
earliest_link_specific_timeout-IsFirstDue_example =
    earliest_link_specific_timeout-IsFirstDue (λ c. c.ping_timeout) (λ l. l.tx_polling) two_links

abbrev underway_info : SentInfo
underway_info = record {
  sent = 10;
  flushed = none;
  link_id = 0;
  link = 4;
  msg = ReliableMsg.data_msg (1 ∷ 2 ∷ []);
  resent = false;
}

earliest_confirm_timeout-ConfirmTimes_example : ConfirmTimes underway_info fast_link two_links
earliest_confirm_timeout-ConfirmTimes_example =
    earliest_confirm_timeout-ConfirmTimes [] [] _ underway_info fast_link two_links refl tt refl
      refl (omega arith)
      (record { factor = omega arith; once = omega arith; all = omega arith; at = omega arith })

test_loop-enough_example : test_loop 9 2 3 0 free_link ≡ test_loop 3 2 3 0 free_link
test_loop-enough_example =
    test_loop-enough 3 9 2 3 0 free_link (omega arith) (omega arith) (omega arith)

abbrev begun_of : Run (Begun (List Bytes)) → Begun (List Bytes)
begun_of (ok k) = k
begun_of (err f) = record {
  round = resend_round;
  links_idling = false;
  choice = record { sendable_idle_link_id = none; resendable_idle_link_id = none };
  next_link_testing = none;
  confirm_timeout = none;
  task = two_links;
}

abbrev stale : Begun (List Bytes)
stale = begun_of (begin_round 90 two_links)

stale-idle_links : stale.task.idle_links ≡ []
unfolding begin_round start_flush sent_size mark_flushed ping_spread_limits sort_by_seq is_total
    pushed clean_txed_packets without requeue
stale-idle_links = refl

stale-begun : begin_round 90 two_links ≡ ok stale
unfolding begin_round start_flush sent_size mark_flushed ping_spread_limits sort_by_seq is_total
    pushed clean_txed_packets without requeue
stale-begun = refl

stale-due : is_consume_ack_required two_links ≡ true
unfolding is_consume_ack_required
stale-due = refl

begin_round-stale_example :
    ((write_rx_task stale stale.task.write_rx).0 ≡ some TaskEvent.send_consumed)
    × (handle_event 90 stale.round stale.task TaskEvent.send_consumed ≡ err panic)
begin_round-stale_example =
    begin_round-stale 90 two_links stale stale-begun refl stale-due stale-idle_links
