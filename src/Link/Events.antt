-- ===== src/Link/Events.antt =====
-- aggligator/src/agg/link_int.rs, `LinkInt::event`: the tasks that wait for a link. Each function is one poll of
-- its task, with no event where the task goes on waiting. `select!` takes the event of any task that has one.
pub mod Received
pub mod Sent
pub mod Delivered
use aggligator.Base.{
  ℕ, ◌+◌, Bool, true, false, not, Option, none, some, List, [], ◌∷◌, if◌then◌else◌, ltb, is_none,
}
use aggligator.Base.Result.{Result, ok, err, ◌>>=◌, ◌>>◌, guard}
use aggligator.Fault.{Run, panic}
use aggligator.Bytes.{Bytes, ByteOrder, IoError}
use aggligator.Seq
use aggligator.Seq.{Seq}
use aggligator.Msg.{LinkMsg}
use aggligator.Msg.Read.{read}
use aggligator.Link.Defs.{Sink, PollReady, TxError, LinkInt, LinkIntEvent, link_cfg}
use aggligator.Link.Send.{get_or_insert}

-- `poll_flush` of the sink
pub record FlushSink (TX : Type 0) : Type 0 where
  pub poll_flush : TX → TX × PollReady

-- What the receive stream gives: a packet, an error or its end.
pub data RxItem : Type 0 where
  packet : Bytes → RxItem
  failure ended : RxItem

-- `Deadline::require`: the earlier of two instants
unfoldable pub require : Option ℕ → ℕ → Option ℕ
require none deadline = some deadline
require (some existing) deadline = if ltb deadline existing then some deadline else some existing

unfoldable pub require_after : Option ℕ → Option ℕ → Option ℕ → Option ℕ
unfolding require
require_after (some since) (some delay) d = require d (since + delay)
require_after _ _ d = d

module _ {TX : Type 0} where
  -- The errors that are reported before anything else.
  unfoldable pub report_error : LinkInt TX → Option (LinkInt TX × LinkIntEvent)
  report_error l = elim l.tx_error [
    | some e ↦ some (record l { tx_error = none }, LinkIntEvent.tx_error)
    | none ↦ if l.tx_failed then some (l, LinkIntEvent.tx_error) else none
  ]

  -- When the flush request task is due.
  unfoldable pub flush_deadline : LinkInt TX → Option ℕ
  unfolding require_after
  flush_deadline l =
      let first_sent : Option ℕ = if l.tx_flushing then none else l.txed_first_unflushed_data in
      let idle : Option ℕ = elim first_sent [
        | none ↦ none
        | some t ↦ require_after l.tx_idle_since (some (link_cfg l).flush_delay) none
      ] in
      require_after l.txed_first_unflushed_ack (link_cfg l).ack_flush_interval
        (require_after first_sent (link_cfg l).flush_interval idle)

  -- A received ack of all that was sent.
  unfoldable pub note_ack : LinkMsg → LinkInt TX → LinkInt TX
  note_ack (LinkMsg.ack received) l = elim l.txed_unacked [
    | none ↦ l
    | some sent ↦ if Seq.lt received sent then l else record l { txed_unacked = none }
  ]
  note_ack _ l = l

  -- A message is an event, but that of data waits for its data.
  unfoldable pub rx_message :
      Result IoError (LinkMsg × Bytes)
      → LinkInt TX
      → Option LinkIntEvent × Option LinkMsg × LinkInt TX
  rx_message (err e) l = (some LinkIntEvent.rx_error, none, l)
  rx_message (ok (LinkMsg.data_msg seq, rest)) l = (none, some (LinkMsg.data_msg seq), l)
  rx_message (ok (msg, rest)) l = (some (LinkIntEvent.rx msg none), none, note_ack msg l)

module _ {TX : Type 0} ⦃o : ByteOrder⦄ where
  -- A packet, where `held` is `rxed_data_msg`.
  unfoldable pub rx_packet :
      Bytes → Option LinkMsg → LinkInt TX → Option LinkIntEvent × Option LinkMsg × LinkInt TX
  unfolding rx_message
  rx_packet buf (some msg) l = (some (LinkIntEvent.rx msg (some buf)), none, l)
  rx_packet buf none l = rx_message (read buf) l

  -- The receive task over what the stream gives: its event, `rxed_data_msg`, the link, and what is left.
  unfoldable pub rx_task :
      List RxItem
      → Option LinkMsg
      → LinkInt TX
      → Option LinkIntEvent × Option LinkMsg × LinkInt TX × List RxItem
  unfolding rx_packet
  rx_task [] held l = (none, held, l, [])
  rx_task (failure ∷ items) held l = (some LinkIntEvent.rx_error, held, l, items)
  rx_task (ended ∷ items) held l = (some LinkIntEvent.rx_error, held, l, items)
  rx_task (packet buf ∷ items) held l =
      let (event, held', l') = rx_packet buf held l in
      elim event [ some e ↦ (some e, held', l', items) | none ↦ rx_task items held' l' ]

module _ {TX : Type 0} ⦃s : Sink TX⦄ ⦃f : FlushSink TX⦄ where
  unfoldable pub tx_failure : LinkInt TX → LinkInt TX × Option LinkIntEvent
  tx_failure l = (record l { tx_failed = true }, some LinkIntEvent.tx_error)

  -- The outcome of the flush
  unfoldable pub tx_flushed : LinkInt TX → TX × PollReady → LinkInt TX × Option LinkIntEvent
  unfolding tx_failure
  tx_flushed l (tx, PollReady.ready) = (
    record l { tx = tx; tx_flushing = false; txed_first_unflushed_data = none },
    some LinkIntEvent.tx_flushed,
  )
  tx_flushed l (tx, PollReady.failed) = tx_failure (record l { tx = tx })
  tx_flushed l (tx, PollReady.pending) = (record l { tx = tx }, none)

  -- The outcome of `poll_ready` when there is no data to send
  unfoldable pub tx_polled : LinkInt TX → PollReady → LinkInt TX × Option LinkIntEvent
  unfolding tx_failure
  tx_polled l PollReady.ready =
      (record l { tx_pending = false; tx_polling = none }, some LinkIntEvent.tx_ready)
  tx_polled l PollReady.failed = tx_failure (record l { tx_pending = false })
  tx_polled l PollReady.pending = (record l { tx_pending = true }, none)

  -- A round of the transmit task without data
  unfoldable pub tx_without_data : LinkInt TX → LinkInt TX × Option LinkIntEvent
  unfolding tx_flushed tx_polled
  tx_without_data l =
      if l.tx_flushing then tx_flushed l (f.poll_flush l.tx) else tx_polled l (s.poll_ready l.tx)

  -- The sink fails or takes the data; after that the loop goes on without data.
  unfoldable pub tx_started : LinkInt TX → TX × Bool → LinkInt TX × Option LinkIntEvent
  unfolding tx_without_data tx_failure
  tx_started l (tx, true) = tx_without_data (record l { tx = tx })
  tx_started l (tx, false) = tx_failure (record l { tx = tx })

  -- A round with data
  unfoldable pub tx_with_data :
      ℕ → Bytes → LinkInt TX → PollReady → LinkInt TX × Option LinkIntEvent
  unfolding tx_started tx_failure
  tx_with_data now bytes l PollReady.ready =
      tx_started
        (record l {
          tx_pending = false;
          tx_data = none;
          txed_first_unflushed_data = get_or_insert l.txed_first_unflushed_data now;
        })
        (s.start_send l.tx bytes)
  tx_with_data now bytes l PollReady.failed = tx_failure (record l { tx_pending = false })
  tx_with_data now bytes l PollReady.pending = (record l { tx_pending = true }, none)

  unfoldable pub tx_round : ℕ → LinkInt TX → Option Bytes → LinkInt TX × Option LinkIntEvent
  unfolding tx_with_data tx_without_data
  tx_round now l (some bytes) = tx_with_data now bytes l (s.poll_ready l.tx)
  tx_round now l none = tx_without_data l

  -- The transmit task
  unfoldable pub tx_task : ℕ → LinkInt TX → Run (LinkInt TX × Option LinkIntEvent)
  unfolding tx_round
  tx_task now l =
      if is_none l.tx_polling
      then (do guard (is_none l.tx_data) panic; ok (l, none))
      else ok (tx_round now l l.tx_data)
