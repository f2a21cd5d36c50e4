-- ===== src/Alc/Pipe.antt =====
-- The stream of bytes between two users: written at one end, read at the other.
use aggligator.Base.{
  ℕ, zero, suc, ◌≤◌, ◌<◌, min, ◌≡◌, refl, ap, ap₂, subst, sym, ◌∙◌, Bool, true, false, none, List,
  [], ◌∷◌, ◌++◌, length, take, drop, All, map, append-nil, append_assoc, length-append,
  length-take_le, either, ltb, some, arith,
}
use aggligator.Base.Result.{Result, ok, err}
use aggligator.Bytes.{Bytes}
use aggligator.Task.Defs.{SendReq, SendError}
use aggligator.Alc.{Poll, RecvChannel, SendChannel, IsFifo, IsOrdered}
use aggligator.Alc.Receiver.{ReceiverStream}
use aggligator.Cfg.{Cfg, ExchangedCfg}
use aggligator.Alc.Sender.{
  SenderSink, Done, or_error, max_send_size, channel_ready, ready_after_flush, poll_ready,
  start_send, write_len, write_started, write_when_ready, poll_write,
}
use aggligator.Alc.Read.{
  concat, IsPacket, append-take-drop, reads, answered, reads-left, take-nil, ReadsNone,
  poll_read-empty,
}
use aggligator.Alc.Write.{IsOpen, write_fits}

module _ {TX : Type 0} ⦃c : SendChannel TX⦄ where
  -- What follows a poll of a write: the rest of the buffer is written, or the same again, unless the write failed.
  abbrev write_rest :
      (Bytes → SenderSink TX → SenderSink TX × Bytes)
      → Bytes
      → SenderSink TX × Poll (Result SendError ℕ)
      → SenderSink TX × Bytes
  write_rest again buf (s, Poll.ready (ok n)) = again (drop n buf) s
  write_rest again buf (s, Poll.ready (err e)) = (s, buf)
  write_rest again buf (s, Poll.pending) = again buf s

  -- Polls of writes, so many at most, until nothing is left of a buffer: the sink and what is left.
  unfoldable pub write_all : ℕ → (ℕ → Poll Bool) → Bytes → SenderSink TX → SenderSink TX × Bytes
  write_all zero answer buf s = (s, buf)
  write_all (suc n) answer [] s = (s, [])
  write_all (suc n) answer (b ∷ buf) s =
      write_rest (write_all n answer) (b ∷ buf) (poll_write answer (b ∷ buf) s)

  module _ (queue : TX → List SendReq) (ordered : IsOrdered queue) where
    -- The sink has the same requests, or these and some more, and the same configuration.
    record Adds (more : List SendReq) (s s' : SenderSink TX) : Type 0 where
      queued : queue s'.tx ≡ queue s.tx ++ more
      own : s'.cfg ≡ s.cfg
      remote : s'.remote_cfg ≡ s.remote_cfg

    nothing : (s : SenderSink TX) → Adds [] s s
    nothing s = record { queued = sym (append-nil (queue s.tx)); own = refl; remote = refl }

    asked :
        (s s' : SenderSink TX)
        → s'.tx ≡ s.tx
        → s'.cfg ≡ s.cfg
        → s'.remote_cfg ≡ s.remote_cfg
        → Adds [] s (channel_ready s').0
    unfolding channel_ready
    asked s s' e f g = record {
      queued = ordered.keeps s'.tx ∙ ap queue e ∙ sym (append-nil (queue s.tx));
      own = f;
      remote = g;
    }

    after_flush-Adds : (s : SenderSink TX) (p : Poll Bool) → Adds [] s (ready_after_flush s p).0
    unfolding ready_after_flush
    after_flush-Adds s Poll.pending = nothing s
    after_flush-Adds s (Poll.ready false) = record {
      queued = sym (append-nil (queue s.tx));
      own = refl;
      remote = refl;
    }
    after_flush-Adds s (Poll.ready true) = asked s (record s { flushed_rx = none }) refl refl refl

    poll_ready-Adds :
        (answer : ℕ → Poll Bool) (s : SenderSink TX) → Adds [] s (poll_ready answer s).0
    unfolding poll_ready
    poll_ready-Adds answer s =
        let P : SenderSink TX × Poll Done → Type 0 = λ r. Adds [] s r.0 in
        either P s.closed _ _ (nothing s)
          (elim s.flushed_rx
            as (λ o. P (elim o as (λ _. SenderSink TX × Poll Done) [
              | some n ↦ ready_after_flush s (answer n)
              | none ↦ channel_ready s
            ])) [ some n ↦ after_flush-Adds s (answer n) | none ↦ asked s s refl refl refl ])

    -- An item is queued exactly if sending it succeeds.
    abbrev Sends : Bytes → SenderSink TX → SenderSink TX × Done → Type 0
    Sends item s (s', ok u) = Adds (SendReq.send item ∷ []) s s'
    Sends item s (s', err e) = Adds [] s s'

    start_send-Sends : (item : Bytes) (s : SenderSink TX) → Sends item s (start_send item s)
    unfolding start_send
    start_send-Sends item s = either (Sends item s) s.closed _ _ (nothing s) (
        either (Sends item s) (ltb (max_send_size s.remote_cfg) (length item)) _ _ (nothing s)
          (taken (c.start_send s.tx (SendReq.send item)).1 refl))
      where
        s1 : SenderSink TX
        s1 = record s { tx = (c.start_send s.tx (SendReq.send item)).0 }

        taken :
            (b : Bool)
            → (c.start_send s.tx (SendReq.send item)).1 ≡ b
            → Sends item s (s1, or_error s.error b)
        taken true e = record {
          queued = ordered.appends s.tx (SendReq.send item) e;
          own = refl;
          remote = refl;
        }
        taken false e = record {
          queued = ordered.refuses s.tx (SendReq.send item) e ∙ sym (append-nil (queue s.tx));
          own = refl;
          remote = refl;
        }

    joined :
        (more : List SendReq) (s s1 s2 : SenderSink TX)
        → Adds [] s s1
        → Adds more s1 s2
        → Adds more s s2
    joined more s s1 s2 h k = record {
      queued = k.queued ∙ ap (λ (q : List SendReq). q ++ more) (h.queued ∙ append-nil (queue s.tx));
      own = k.own ∙ h.own;
      remote = k.remote ∙ h.remote;
    }

    -- A piece of the configured size is queued exactly if a write succeeds, and its length is returned.
    abbrev Writes : Bytes → SenderSink TX → SenderSink TX × Poll (Result SendError ℕ) → Type 0
    Writes buf s (s', Poll.ready (ok n)) =
        (n ≡ write_len buf s) × Adds (SendReq.send (take n buf) ∷ []) s s'
    Writes buf s (s', Poll.ready (err e)) = Adds [] s s'
    Writes buf s (s', Poll.pending) = Adds [] s s'

    started-Writes :
        (buf : Bytes) (s s1 : SenderSink TX) (len : ℕ) (r : SenderSink TX × Done)
        → len ≡ write_len buf s
        → Adds [] s s1
        → Sends (take len buf) s1 r
        → Writes buf s (write_started len r)
    unfolding write_started
    started-Writes buf s s1 len (s2, ok u) e h k =
        (e, joined (SendReq.send (take len buf) ∷ []) s s1 s2 h k)
    started-Writes buf s s1 len (s2, err x) e h k = joined [] s s1 s2 h k

    when_ready-Writes :
        (buf : Bytes) (s s1 : SenderSink TX) (p : Poll Done)
        → Adds [] s s1
        → Writes buf s (write_when_ready buf (s1, p))
    unfolding write_when_ready write_len
    when_ready-Writes buf s s1 (Poll.ready (ok u)) h =
        started-Writes buf s s1 (write_len buf s1) _
          (ap₂
            (λ (x : Cfg) (y : ExchangedCfg). min (length buf) (min x.io_write_size y.recv_buffer))
            h.own h.remote)
          h (start_send-Sends (take (write_len buf s1) buf) s1)
    when_ready-Writes buf s s1 (Poll.ready (err e)) h = h
    when_ready-Writes buf s s1 Poll.pending h = h

    poll_write-Writes :
        (answer : ℕ → Poll Bool) (buf : Bytes) (s : SenderSink TX)
        → Writes buf s (poll_write answer buf s)
    unfolding poll_write
    poll_write-Writes answer buf s =
        when_ready-Writes buf s (poll_ready answer s).0 (poll_ready answer s).1
          (poll_ready-Adds answer s)

    -- A sink whose packets have a size
    abbrev pub HasSize : SenderSink TX → Type 0
    HasSize s = 0 < min s.cfg.io_write_size s.remote_cfg.recv_buffer

    kept_size :
        (more : List SendReq) (s s' : SenderSink TX) → Adds more s s' → HasSize s → HasSize s'
    kept_size more s s' h z = omega (
      arith,
      z,
      ap₂ (λ (x : Cfg) (y : ExchangedCfg). min x.io_write_size y.recv_buffer) h.own h.remote,
    )

    -- What is queued and what is left are the buffer.
    abbrev Split : Bytes → SenderSink TX → SenderSink TX × Bytes → Type 0
    Split buf s r =
        (pieces : List Bytes) × (queue r.0.tx ≡ queue s.tx ++ map SendReq.send pieces)
        × (concat pieces ++ r.1 ≡ buf)
        × All IsPacket pieces

    moved :
        (buf : Bytes) (s s' : SenderSink TX) (r : SenderSink TX × Bytes)
        → Adds [] s s'
        → Split buf s' r
        → Split buf s r
    moved buf s s' r h (pieces, queued, whole, nonempty) = (
      pieces,
      queued
          ∙ ap (λ (q : List SendReq). q ++ map SendReq.send pieces)
              (h.queued ∙ append-nil (queue s.tx)),
      whole,
      nonempty,
    )

    unwritten : (s : SenderSink TX) (buf : Bytes) → Split buf s (s, buf)
    unfolding concat
    unwritten s buf = ([], sym (append-nil (queue s.tx)), refl, tt)

    pub write_all-Split :
        (n : ℕ) (answer : ℕ → Poll Bool) (buf : Bytes) (s : SenderSink TX)
        → HasSize s
        → Split buf s (write_all n answer buf s)
    unfolding write_all write_len concat
    write_all-Split zero answer buf s z = unwritten s buf
    write_all-Split (suc n) answer [] s z = unwritten s []
    write_all-Split (suc n) answer (b ∷ buf) s z =
        goes_on
          (λ (rest : Bytes) (s' : SenderSink TX) (size : HasSize s').
            write_all-Split n answer rest s' size)
          (poll_write answer (b ∷ buf) s) (poll_write-Writes answer (b ∷ buf) s)
      where
        written :
            (len : ℕ) (s' : SenderSink TX)
            → len ≡ write_len (b ∷ buf) s
            → Adds (SendReq.send (take len (b ∷ buf)) ∷ []) s s'
            → Split (drop len (b ∷ buf)) s' (write_all n answer (drop len (b ∷ buf)) s')
            → Split (b ∷ buf) s (write_all n answer (drop len (b ∷ buf)) s')
        written len s' e h (pieces, queued, whole, nonempty) =
            let piece : Bytes = take len (b ∷ buf) in
            (
              piece ∷ pieces,
              queued
                  ∙ ap (λ (q : List SendReq). q ++ map SendReq.send pieces) h.queued
                  ∙ append_assoc (queue s.tx) (SendReq.send piece ∷ []) (map SendReq.send pieces),
              append_assoc piece (concat pieces) _
                  ∙ ap (λ (q : Bytes). piece ++ q) whole
                  ∙ append-take-drop len (b ∷ buf),
              (omega (arith, e, z, length-take_le len (b ∷ buf) (omega (arith, e))), nonempty),
            )

        goes_on :
            ((rest : Bytes) (s' : SenderSink TX)
              → HasSize s'
              → Split rest s' (write_all n answer rest s'))
            → (r : SenderSink TX × Poll (Result SendError ℕ)) → Writes (b ∷ buf) s r
            → Split (b ∷ buf) s (write_rest (write_all n answer) (b ∷ buf) r)
        goes_on again (s', Poll.ready (ok len)) (e, h) =
            written len s' e h (again (drop len (b ∷ buf)) s' (kept_size _ s s' h z))
        goes_on again (s', Poll.ready (err x)) h =
            moved (b ∷ buf) s s' (s', b ∷ buf) h (unwritten s' (b ∷ buf))
        goes_on again (s', Poll.pending) h =
            moved (b ∷ buf) s s' (write_all n answer (b ∷ buf) s') h
              (again (b ∷ buf) s' (kept_size [] s s' h z))

-- The data of the requests, in order: the packets that the connection brings to the other end.
unfoldable pub contents : List SendReq → List Bytes
contents [] = []
contents (SendReq.send p ∷ rs) = p ∷ contents rs
contents (SendReq.flush n ∷ rs) = contents rs

contents-send : (ps : List Bytes) → contents (map SendReq.send ps) ≡ ps
unfolding contents
contents-send [] = refl
contents-send (p ∷ ps) = ap (◌∷◌ p) (contents-send ps)

module _ {TX RX : Type 0} ⦃c : SendChannel TX⦄ ⦃d : RecvChannel RX⦄ (queue : TX → List SendReq)
    (ordered : IsOrdered queue) (waiting : RX → List Bytes) (fifo : IsFifo waiting) where
  -- A buffer is written by any number of polls to a sink with nothing queued whose packets have a size, whatever its
  -- channel and a flush under way answer. A reader with an empty buffer, for whom the data of the queued
  -- requests waits in order, gets by reads with space for any positive numbers of bytes, of which as
  -- many are not pending as the buffer has bytes, just the bytes in front of those that are left to write.
  pub written-read :
      (n : ℕ) (answer : ℕ → Poll Bool) (buf : Bytes) (s : SenderSink TX) (ns : List ℕ)
      (r : ReceiverStream RX)
      → HasSize queue ordered s
      → queue s.tx ≡ []
      → r.buf ≡ []
      → waiting r.receiver.rx ≡ contents (queue (write_all n answer buf s).0.tx)
      → All (λ (k : ℕ). 0 < k) ns
      → length buf ≤ answered ns r
      → (reads ns r).0 ++ (write_all n answer buf s).1 ≡ buf
  written-read n answer buf s ns r z none_queued none_read arrives pos enough =
      let (pieces, queued, whole, nonempty) = write_all-Split queue ordered n answer buf s z in
      let sends : queue (write_all n answer buf s).0.tx ≡ map SendReq.send pieces =
        queued ∙ ap (λ (q : List SendReq). q ++ map SendReq.send pieces) none_queued in
      let here : waiting r.receiver.rx ≡ pieces =
        arrives ∙ ap contents sends ∙ contents-send pieces in
      let all : r.buf ++ concat (waiting r.receiver.rx) ≡ concat pieces =
        ap₂ (λ (x : Bytes) (q : List Bytes). x ++ concat q) none_read here in
      ap (λ (q : Bytes). q ++ (write_all n answer buf s).1)
        (reads-left waiting fifo ns r (subst (All IsPacket) (sym here) nonempty) pos (
            omega (
              arith,
              ap length all,
              ap length whole,
              length-append (concat pieces) (write_all n answer buf s).1,
              enough,
            ))
          ∙ all)
      ∙ whole

  -- A write of no bytes to a sink that is not closed, has no flush under way and whose channel is ready and takes what it is
  -- given succeeds and queues an empty packet; and when an empty packet is the first that waits for a reader
  -- with an empty buffer, whatever waits behind it, a read with space for any number of bytes is pending or
  -- returns no bytes, which means the end of the stream.
  pub empty_write-ends :
      (answer : ℕ → Poll Bool) (s : SenderSink TX) (n : ℕ) (r : ReceiverStream RX) (ps : List Bytes)
      → IsOpen queue ordered s
      → r.buf ≡ []
      → waiting r.receiver.rx ≡ [] ∷ ps
      → ((poll_write answer [] s).1 ≡ Poll.ready (ok 0))
        × (queue (poll_write answer [] s).0.tx ≡ queue s.tx ++ (SendReq.send [] ∷ []))
        × ReadsNone waiting fifo n r ps
  unfolding write_len
  empty_write-ends answer s n r ps o none_read first =
      let e = write_fits queue ordered answer [] s o (omega arith) in
      let none_taken : take (write_len [] s) [] ≡ [] = take-nil (write_len [] s) in
      (
        ap (λ x. x.1) e ∙ ap (λ (k : ℕ). Poll.ready (ok k)) (omega arith),
        ap (λ x. queue x.0.tx) e
            ∙ ordered.appends _ _ (o.takes (take (write_len [] s) []))
            ∙ ap₂ (λ (q : List SendReq) (p : Bytes). q ++ (SendReq.send p ∷ []))
                (ordered.keeps s.tx) none_taken,
        poll_read-empty waiting fifo n r ps none_read first,
      )
