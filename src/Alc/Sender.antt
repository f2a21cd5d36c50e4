-- ===== src/Alc/Sender.antt =====
-- alc/sender.rs: `SenderSink`. `error` is what `error_rx` holds. A flush is known by the number of its
-- oneshot channel; `answer` is what polling the receiver of that channel gives at the time of the call.
use aggligator.Base.{
  ℕ, ◌-◌, ◌/◌, min, max, Bool, true, false, Option, none, some, length, take, ltb, if◌then◌else◌,
}
use aggligator.Base.Result.{Result, ok, err}
use aggligator.Fault.{Run, panic}
use aggligator.Bytes.{Bytes}
use aggligator.Cfg.{Cfg, ExchangedCfg}
use aggligator.Task.Defs.{SendReq, SendError}
use aggligator.Alc.{Poll, SendChannel}

unfoldable pub max_send_size : ExchangedCfg → ℕ
max_send_size remote_cfg = max (remote_cfg.recv_buffer / 2) 2 - 1

pub record SenderSink (TX : Type 0) : Type 0 where
  pub cfg : Cfg
  pub remote_cfg : ExchangedCfg
  pub tx : TX
  pub flushed_rx : Option ℕ
  pub error : SendError
  pub closed : Bool

abbrev pub Done : Type 0
Done = Result SendError (Unit {0})

-- `map_err(|_| self.error_rx.borrow().clone())`
abbrev pub or_error : SendError → Bool → Done
or_error e true = ok tt
or_error e false = err e

abbrev pub map_poll {ℓ κ} : {A : Type ℓ} {B : Type κ} → (A → B) → Poll A → Poll B
map_poll f Poll.pending = Poll.pending
map_poll f (Poll.ready a) = Poll.ready (f a)

module _ {TX : Type 0} ⦃c : SendChannel TX⦄ where
  -- The channel itself is asked.
  unfoldable pub channel_ready : SenderSink TX → SenderSink TX × Poll Done
  channel_ready s =
      (record s { tx = (c.poll_ready s.tx).0 }, map_poll (or_error s.error) (c.poll_ready s.tx).1)

  -- A flush that is under way comes first.
  unfoldable pub ready_after_flush : SenderSink TX → Poll Bool → SenderSink TX × Poll Done
  unfolding channel_ready
  ready_after_flush s Poll.pending = (s, Poll.pending)
  ready_after_flush s (Poll.ready false) =
      (record s { flushed_rx = none }, Poll.ready (err s.error))
  ready_after_flush s (Poll.ready true) = channel_ready (record s { flushed_rx = none })

  unfoldable pub poll_ready : (ℕ → Poll Bool) → SenderSink TX → SenderSink TX × Poll Done
  unfolding ready_after_flush channel_ready
  poll_ready answer s =
      if s.closed
      then (s, Poll.ready (err SendError.shutdown))
      else elim s.flushed_rx [ some n ↦ ready_after_flush s (answer n) | none ↦ channel_ready s ]

  unfoldable pub start_send : Bytes → SenderSink TX → SenderSink TX × Done
  unfolding max_send_size
  start_send item s =
      if s.closed
      then (s, err SendError.shutdown)
      else if ltb (max_send_size s.remote_cfg) (length item)
      then (s, err SendError.data_too_big)
      else (
        record s { tx = (c.start_send s.tx (SendReq.send item)).0 },
        or_error s.error (c.start_send s.tx (SendReq.send item)).1,
      )

  -- The flush number `n` is waited for.
  unfoldable pub await_flushed : (ℕ → Poll Bool) → ℕ → SenderSink TX → SenderSink TX × Poll Done
  await_flushed answer n s = elim (answer n) [
    | Poll.pending ↦ (s, Poll.pending)
    | Poll.ready done ↦ (record s { flushed_rx = none }, Poll.ready (or_error s.error done))
  ]

  -- The channel takes the flush request, or fails.
  unfoldable pub flush_started :
      (ℕ → Poll Bool) → ℕ → SenderSink TX → TX × Bool → SenderSink TX × Poll Done
  unfolding await_flushed
  flush_started answer n s (tx, true) =
      await_flushed answer n (record s { tx = tx; flushed_rx = some n })
  flush_started answer n s (tx, false) = (record s { tx = tx }, Poll.ready (err s.error))

  unfoldable pub flush_when_ready :
      (ℕ → Poll Bool) → ℕ → SenderSink TX × Poll Done → SenderSink TX × Poll Done
  unfolding flush_started
  flush_when_ready answer n (s, Poll.ready (ok u)) =
      flush_started answer n s (c.start_send s.tx (SendReq.flush n))
  flush_when_ready answer n (s, Poll.ready (err e)) = (s, Poll.ready (err e))
  flush_when_ready answer n (s, Poll.pending) = (s, Poll.pending)

  -- `poll_flush`, where `fresh` is the number of a oneshot channel that it makes
  unfoldable pub poll_flush : (ℕ → Poll Bool) → ℕ → SenderSink TX → SenderSink TX × Poll Done
  unfolding flush_when_ready channel_ready await_flushed
  poll_flush answer fresh s =
      if s.closed
      then (s, Poll.ready (ok tt))
      else if s.cfg.ignore_flush
      then (s, Poll.ready (if c.is_closed s.tx then err s.error else ok tt))
      else elim s.flushed_rx [
        | some n ↦ await_flushed answer n s
        | none ↦ flush_when_ready answer fresh (channel_ready s)
      ]

  -- The channel is closed, which it must not refuse.
  unfoldable pub close_channel : SenderSink TX → TX × Poll Bool → Run (SenderSink TX × Poll Done)
  close_channel s (tx, Poll.pending) = ok (record s { tx = tx }, Poll.pending)
  close_channel s (tx, Poll.ready true) =
      ok (record s { tx = tx; closed = true }, Poll.ready (ok tt))
  close_channel s (tx, Poll.ready false) = err panic

  unfoldable pub close_flushed : SenderSink TX × Poll Done → Run (SenderSink TX × Poll Done)
  unfolding close_channel
  close_flushed (s, Poll.ready (ok u)) = close_channel s (c.poll_close s.tx)
  close_flushed (s, Poll.ready (err e)) = ok (s, Poll.ready (err e))
  close_flushed (s, Poll.pending) = ok (s, Poll.pending)

  -- `poll_close` and `poll_shutdown`
  unfoldable pub poll_close : (ℕ → Poll Bool) → ℕ → SenderSink TX → Run (SenderSink TX × Poll Done)
  unfolding close_flushed poll_flush
  poll_close answer fresh s =
      if s.closed then ok (s, Poll.ready (ok tt)) else close_flushed (poll_flush answer fresh s)

  -- The number of bytes that a write puts into one packet
  unfoldable pub write_len : Bytes → SenderSink TX → ℕ
  write_len buf s = min (length buf) (min s.cfg.io_write_size s.remote_cfg.recv_buffer)

  unfoldable pub write_started :
      ℕ → SenderSink TX × Done → SenderSink TX × Poll (Result SendError ℕ)
  write_started len (s, ok u) = (s, Poll.ready (ok len))
  write_started len (s, err e) = (s, Poll.ready (err e))

  unfoldable pub write_when_ready :
      Bytes → SenderSink TX × Poll Done → SenderSink TX × Poll (Result SendError ℕ)
  unfolding write_started start_send write_len
  write_when_ready buf (s, Poll.ready (ok u)) =
      write_started (write_len buf s) (start_send (take (write_len buf s) buf) s)
  write_when_ready buf (s, Poll.ready (err e)) = (s, Poll.ready (err e))
  write_when_ready buf (s, Poll.pending) = (s, Poll.pending)

  unfoldable pub poll_write :
      (ℕ → Poll Bool) → Bytes → SenderSink TX → SenderSink TX × Poll (Result SendError ℕ)
  unfolding write_when_ready poll_ready
  poll_write answer buf s = write_when_ready buf (poll_ready answer s)
