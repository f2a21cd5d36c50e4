-- ===== src/Task/Loop/Rounds.antt =====
-- What the main loop does before it waits: the checks that end it, the limits, the test of links, and the
-- request that `write_rx_task` takes.
use aggligator.Base.{
  ℕ, zero, suc, ◌-◌, min, Bool, true, false, not, ◌&&◌, ◌||◌, Option, none, some, List, [], ◌∷◌,
  length, leb, ◌==◌, if◌then◌else◌, is_none, is_some,
}
use aggligator.Base.Result.{Result, ok, err, ◌>>=◌}
use aggligator.Fault.{Run, unwrap}
use aggligator.Bytes.{ByteOrder}
use aggligator.Packets.{Packets}
use aggligator.Peekable.{PeekableReceiver, TryRecvIfError, try_recv_if}
use aggligator.Link.{Sink, LinkInt}
use aggligator.Task.Defs.{
  Task, SendReq, SendError, RecvError, tx_space, tx_seq_avail, is_consume_ack_required,
}
use aggligator.Task.Testing.{link_testing_step}
use aggligator.Task.Timeouts.{earliest_confirm_timeout}
use aggligator.Task.Limits.{check_link_limits}
use aggligator.Task.Limits.Adjust.{adjust_link_tx_limits, is_empty}
use aggligator.Task.Resend.{Choice, choose_links, non_resendable_link}
use aggligator.Task.Ready.{Round}
use aggligator.Task.Loop.{TaskEvent, TaskError, SendTerminate, Ending, failed_with}

abbrev is_no_packet : Packets → Bool
is_no_packet [] = true
is_no_packet (p ∷ ps) = false

abbrev pub not_working_since : ℕ → Bool → Option ℕ → Option ℕ
not_working_since now true since = none
not_working_since now false none = some now
not_working_since now false (some since) = some since

module _ {TX : Type 0} where
  unfoldable pub links_available : List (Option (LinkInt TX)) → Bool
  links_available [] = false
  links_available (none ∷ ls) = links_available ls
  links_available (some l ∷ ls) = true

  -- Everything was sent, received and consumed, and both ends know.
  unfoldable pub is_finished : Task TX → Bool
  is_finished t =
      is_no_packet t.txed_packets
      && t.txed_unconsumed == 0
      && t.rxed_reliable_size == 0
      && t.rxed_reliable_consumed_since_last_ack == 0
      && t.send_finish_sent
      && t.receive_finish_sent

  -- Whether the loop ends at its start; `since` is when reading and writing were both closed, and `more` whether new
  -- links may come.
  unfoldable pub check_termination : ℕ → ℕ → Bool → Task TX → Option Ending
  unfolding links_available is_finished
  check_termination now since more t =
      if (is_none t.read_tx && is_none t.write_rx)
        && (is_finished t
            || not (links_available t.links)
            || leb t.cfg.termination_timeout (now - since))
      then some (record {
        result = none;
        read_term = none;
        write_term = SendError.closed;
        send_terminate = SendTerminate.no_terminate;
      })
      else if not (links_available t.links) && not more
      then some (
          failed_with TaskError.all_unconfirmed_timeout RecvError.all_links_failed
            SendError.all_links_failed)
      else none

  -- With the first link, the connection is established: `remote_cfg.clone().unwrap()` is sent over `connected_tx`.
  unfoldable pub establish : Task TX → Run (Task TX)
  unfolding links_available
  establish t =
      if links_available t.links && t.connected_tx
      then (unwrap t.remote_cfg >>= λ c. ok (record t { connected_tx = false }))
      else ok t

  -- A link that is confirmed
  unfoldable pub links_working : List (Option (LinkInt TX)) → Bool
  links_working [] = false
  links_working (none ∷ ls) = links_working ls
  links_working (some l ∷ ls) = is_none l.unconfirmed || links_working ls

  unfoldable pub links_not_working_since : ℕ → Task TX → Option ℕ × Task TX
  unfolding links_working
  links_not_working_since now t =
      let since = not_working_since now (links_working t.links) t.links_not_working_since in
      (since, record t { links_not_working_since = since })

-- What `write_rx_task` takes, if something is ready.
unfoldable pub write_request :
    {TX : Type 0} → Option ℕ → Result TryRecvIfError SendReq → Option (TaskEvent TX)
write_request none (ok (SendReq.send bytes)) = none
write_request (some link) (ok (SendReq.send bytes)) = some (TaskEvent.write_rx link bytes)
write_request link (ok (SendReq.flush notify)) = some (TaskEvent.flush notify)
write_request link (err TryRecvIfError.disconnected) = some TaskEvent.write_end
write_request link (err TryRecvIfError.empty) = none
write_request link (err TryRecvIfError.no_match) = none

abbrev pub has_ids : List ℕ → Bool
has_ids [] = false
has_ids (x ∷ xs) = true

-- `data.len() <= tx_space && sendable_idle_link_id.is_some()` for data, and any flush request
unfoldable pub accepts : ℕ → Option ℕ → SendReq → Bool
accepts tx_space link (SendReq.send bytes) = leb (length bytes) tx_space && is_some link
accepts tx_space link (SendReq.flush notify) = true

-- `min` of the times that there are
abbrev pub earlier_of : Option ℕ → Option ℕ → Option ℕ
earlier_of none b = b
earlier_of (some a) none = some a
earlier_of (some a) (some b) = some (min a b)

-- What is known when the main loop waits.
pub record Begun (TX : Type 0) : Type 0 where
  pub round : Round
  pub links_idling : Bool
  pub choice : Choice
  pub next_link_testing : Option ℕ
  pub confirm_timeout : Option (ℕ × ℕ × Bool)
  pub task : Task TX

pub record Checked (TX : Type 0) : Type 0 where
  pub non_resendable : Option ℕ
  pub choice : Choice
  pub next_link_testing : Option ℕ
  pub confirm_timeout : Option (ℕ × ℕ × Bool)
  pub task : Task TX

module _ {TX : Type 0} where
  -- The values that the loop computed first, and the links that it checked then.
  unfoldable pub begun : Bool → Bool → ℕ → Bool → Bool → Run (Checked TX) → Run (Begun TX)
  begun ack_required seq_avail space resending idling (ok c) = ok (record {
    round = record {
      is_consume_ack_required = ack_required;
      tx_seq_avail = seq_avail;
      tx_space = space;
      resending = resending;
      non_resendable_link = c.non_resendable;
    };
    links_idling = idling;
    choice = c.choice;
    next_link_testing = c.next_link_testing;
    confirm_timeout = c.confirm_timeout;
    task = c.task;
  })
  begun ack_required seq_avail space resending idling (err f) = err f

  -- `write_rx_task`: the event that is ready, and the receiver after it.
  unfoldable pub write_received :
      Option ℕ
      → Result TryRecvIfError SendReq × PeekableReceiver SendReq
      → Option (TaskEvent TX) × Option (PeekableReceiver SendReq)
  unfolding write_request
  write_received link (res, rx) = (write_request link res, some rx)

  unfoldable pub write_rx_task :
      Begun TX
      → Option (PeekableReceiver SendReq)
      → Option (TaskEvent TX) × Option (PeekableReceiver SendReq)
  unfolding write_received accepts try_recv_if
  write_rx_task k write_rx =
      if k.links_idling && k.round.is_consume_ack_required
      then (some TaskEvent.send_consumed, write_rx)
      else elim write_rx [
        | none ↦ (none, none)
        | some rx ↦
            if k.round.tx_seq_avail && not k.round.resending
            then write_received k.choice.sendable_idle_link_id
                (try_recv_if (accepts k.round.tx_space k.choice.sendable_idle_link_id) rx)
            else (none, some rx)
      ]

module _ {TX : Type 0} ⦃s : Sink TX⦄ ⦃o : ByteOrder⦄ where
  -- `(0..self.links.len()).filter_map(|id| self.link_testing_step(id)).min()`: from `id` on, for as many links
  unfoldable pub test_links : ℕ → ℕ → ℕ → Task TX → Run (Option ℕ × Task TX)
  unfolding link_testing_step
  test_links zero now id t = ok (none, t)
  test_links (suc count) now id t = link_testing_step now id t >>= λ x.
      test_links count now (suc id) x.1 >>= λ y. ok (earlier_of x.0 y.0, y.1)

  -- The limits, the tests, the first timeout of an acknowledgement and the choice of links.
  unfoldable pub check_links : ℕ → Task TX → Run (Checked TX)
  unfolding check_link_limits adjust_link_tx_limits links_not_working_since test_links choose_links
      non_resendable_link earliest_confirm_timeout
  check_links now t = check_link_limits now t >>= λ t1. adjust_link_tx_limits now t1 >>= λ t2.
      test_links (length t2.links) now 0 (links_not_working_since now t2).1 >>= λ x.
      earliest_confirm_timeout x.1 >>= λ confirm. non_resendable_link x.1 >>= λ nr.
      choose_links x.1 >>= λ choice. ok (record {
        non_resendable = nr;
        choice = choice;
        next_link_testing = x.0;
        confirm_timeout = confirm;
        task = x.1;
      })

  unfoldable pub begin_round : ℕ → Task TX → Run (Begun TX)
  unfolding check_links begun establish tx_space tx_seq_avail is_consume_ack_required
  begin_round now t =
      begun (is_consume_ack_required t) (tx_seq_avail t) (tx_space t)
        (not (is_empty t.resend_queue)) (has_ids t.idle_links)
        (establish t >>= λ t1. check_links now t1)
