-- ===== src/Task/Loop/Stale.antt =====
-- The main loop decides to acknowledge consumption over an idle link before it checks the links, which may leave
-- no idle link.
use aggligator.Base.{ℕ, ◌≡◌, refl, sym, ap, ◌∙◌, Bool, true, not, ◌&&◌, Option, some, []}
use aggligator.Base.Result.{ok, err, ◌>>=◌}
use aggligator.Fault.{Run, panic}
use aggligator.Bytes.{ByteOrder}
use aggligator.Peekable.{PeekableReceiver}
use aggligator.Link.{Sink}
use aggligator.Task.Defs.{Task, SendReq, is_consume_ack_required, tx_space, tx_seq_avail}
use aggligator.Task.Limits.Adjust.{is_empty}
use aggligator.Task.Loop.{TaskEvent, go_on, pop_last}
use aggligator.Task.Loop.Dispatch.{handle_event, handle_send_consumed}
use aggligator.Task.Loop.Rounds.{
  Begun, Checked, begun, begin_round, check_links, establish, write_rx_task, has_ids,
}

-- The decision does not depend on the links that were checked.
decided :
    {TX : Type 0} (ack_required seq_avail : Bool) (space : ℕ) (resending idling : Bool)
    (c : Run (Checked TX)) (k : Begun TX)
    → begun ack_required seq_avail space resending idling c ≡ ok k
    → (k.links_idling ≡ idling) × (k.round.is_consume_ack_required ≡ ack_required)
unfolding begun
decided ack_required seq_avail space resending idling (ok c) k e =
    let x : Begun _ = record {
      round = record {
        is_consume_ack_required = ack_required;
        tx_seq_avail = seq_avail;
        tx_space = space;
        resending = resending;
        non_resendable_link = c.non_resendable;
      };
      links_idling = idling;
      choice = c.choice;
      next_link_testing = c.next_link_testing;
      confirm_timeout = c.confirm_timeout;
      task = c.task;
    } in
    let z : x ≡ k = cc in
    (
      sym (ap (λ (y : Begun _). y.links_idling) z),
      sym (ap (λ (y : Begun _). y.round.is_consume_ack_required) z),
    )
decided ack_required seq_avail space resending idling (err f) k e = cc

module _ {TX : Type 0} ⦃s : Sink TX⦄ ⦃o : ByteOrder⦄ where
  chosen_event :
      (k : Begun TX) (w : Option (PeekableReceiver SendReq))
      → k.links_idling ≡ true
      → k.round.is_consume_ack_required ≡ true
      → (write_rx_task k w).0 ≡ some TaskEvent.send_consumed
  unfolding write_rx_task
  chosen_event k w a b =
      let e : (k.links_idling && k.round.is_consume_ack_required) ≡ true = rw (a, b) refl in
      rw (write_rx_task, e) refl

  -- When a link is idle and an ack of consumption is due at the start of a round, and the checks of the links leave no
  -- link idle, `write_rx_task` is ready with the request to acknowledge, and its handler panics.
  pub begin_round-stale :
      (now : ℕ) (t : Task TX) (k : Begun TX)
      → begin_round now t ≡ ok k
      → has_ids t.idle_links ≡ true
      → is_consume_ack_required t ≡ true
      → k.task.idle_links ≡ []
      → ((write_rx_task k k.task.write_rx).0 ≡ some TaskEvent.send_consumed)
        × (handle_event now k.round k.task TaskEvent.send_consumed ≡ err panic)
  unfolding begin_round handle_event handle_send_consumed pop_last
  begin_round-stale now t k e idle due gone =
      let d =
        decided (is_consume_ack_required t) (tx_seq_avail t) (tx_space t)
          (not (is_empty t.resend_queue)) (has_ids t.idle_links)
          (establish t >>= λ t1. check_links now t1) k e in
      (
        chosen_event k k.task.write_rx (d.0 ∙ idle) (d.1 ∙ due),
        ap (λ ids. go_on (handle_send_consumed now k.task (pop_last ids))) gone,
      )
