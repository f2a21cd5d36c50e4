-- ===== src/Alc/Receiver.antt =====
-- alc/receiver.rs: `Receiver` and `ReceiverStream`. `error` is what `error_rx` holds.
use aggligator.Base.{ℕ, min, Option, none, some, [], ◌∷◌, length, take, drop}
use aggligator.Base.Result.{Result, ok, err}
use aggligator.Bytes.{Bytes}
use aggligator.Task.Defs.{RecvError}
use aggligator.Alc.{Poll, RecvChannel}

pub record Receiver (RX : Type 0) : Type 0 where
  pub rx : RX
  pub error : Option RecvError

pub record ReceiverStream (RX : Type 0) : Type 0 where
  pub receiver : Receiver RX
  pub buf : Bytes

unfoldable pub received :
    Option RecvError → Poll (Option Bytes) → Poll (Result RecvError (Option Bytes))
received error Poll.pending = Poll.pending
received error (Poll.ready (some bytes)) = Poll.ready (ok (some bytes))
received none (Poll.ready none) = Poll.ready (ok none)
received (some e) (Poll.ready none) = Poll.ready (err e)

-- `transpose`
unfoldable pub transpose :
    Poll (Result RecvError (Option Bytes)) → Poll (Option (Result RecvError Bytes))
transpose Poll.pending = Poll.pending
transpose (Poll.ready (err e)) = Poll.ready (some (err e))
transpose (Poll.ready (ok none)) = Poll.ready none
transpose (Poll.ready (ok (some bytes))) = Poll.ready (some (ok bytes))

module _ {RX : Type 0} where
  -- `buf.put_slice(&this.buf.split_to(len))`: what the reader gets, at most `remaining` bytes.
  unfoldable pub put_slice :
      ℕ → ReceiverStream RX → ReceiverStream RX × Poll (Result RecvError Bytes)
  put_slice remaining s =
      let len = min remaining (length s.buf) in
      (record s { buf = drop len s.buf }, Poll.ready (ok (take len s.buf)))

  -- What follows the receiver's answer to a stream with an empty buffer.
  unfoldable pub read_received :
      ℕ
      → ReceiverStream RX
      → Poll (Result RecvError (Option Bytes))
      → ReceiverStream RX × Poll (Result RecvError Bytes)
  unfolding put_slice
  read_received remaining s Poll.pending = (s, Poll.pending)
  read_received remaining s (Poll.ready (err e)) = (s, Poll.ready (err e))
  read_received remaining s (Poll.ready (ok none)) = put_slice remaining s
  read_received remaining s (Poll.ready (ok (some bytes))) =
      put_slice remaining (record s { buf = bytes })

module _ {RX : Type 0} ⦃c : RecvChannel RX⦄ where
  -- `poll_recv`, and one poll of `recv`
  unfoldable pub poll_recv : Receiver RX → Receiver RX × Poll (Result RecvError (Option Bytes))
  unfolding received
  poll_recv r = (record r { rx = (c.poll_recv r.rx).0 }, received r.error (c.poll_recv r.rx).1)

  -- `poll_read` with space for `remaining` bytes: what it puts there
  unfoldable pub poll_read :
      ℕ → ReceiverStream RX → ReceiverStream RX × Poll (Result RecvError Bytes)
  unfolding put_slice read_received poll_recv
  poll_read remaining s = elim s.buf [
    | b ∷ rest ↦ put_slice remaining s
    | [] ↦
        let (r, answer) = poll_recv s.receiver in
        read_received remaining (record s { receiver = r }) answer
  ]

  -- `poll_next`: a rest of a packet that was read in part, or the next packet
  unfoldable pub poll_next :
      ReceiverStream RX → ReceiverStream RX × Poll (Option (Result RecvError Bytes))
  unfolding poll_recv transpose
  poll_next s = elim s.buf [
    | b ∷ rest ↦ (record s { buf = [] }, Poll.ready (some (ok s.buf)))
    | [] ↦ let (r, answer) = poll_recv s.receiver in (record s { receiver = r }, transpose answer)
  ]
