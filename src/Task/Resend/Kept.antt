-- ===== src/Task/Resend/Kept.antt =====
-- The resend queue holds the packets that wait to be sent again, oldest first.
use aggligator.Base.{
  ℕ, suc, ◌+◌, ◌≤◌, ◌≡◌, refl, sym, ap, subst, ◌∙◌, false, none, [], ◌∷◌, ◌++◌, length,
  length-append, arith,
}
use native.Mathlib.Nat.{add-zero}
use aggligator.Base.Result.{ok}
use aggligator.Bytes.{ByteOrder}
use aggligator.Seq.{one_quarter}
use aggligator.Msg.{ReliableMsg}
use aggligator.Packets.{Packets, SentReliable, SentReliableStatus, sort_by_seq, pushed}
use aggligator.Packets.Queue.{is_queued, queued, Numbered, Addressed}
use aggligator.Packets.Requeue.{sort-queued, length-requeue, requeue-Addressed}
use aggligator.Link.{Sink, LinkInt, NotWorkingReason}
use aggligator.Task.Defs.{Task, TxState, link_at}
use aggligator.Task.Ack.Queue.{Resendable}
use aggligator.Task.Ack.Acknowledge.{Accounted}
use aggligator.Task.Send.{push_packet}
use aggligator.Task.Send.Unchanged.{Unchanged}
use aggligator.Task.Send.Handler.{Sent}
use aggligator.Task.Links.{requeue_packets, unconfirm_link}
use aggligator.Task.Links.Unconfirm.{Exists, unconfirm_link-Accounted}

-- A change of flush marks keeps this.
pub flushed-Resendable :
    (a : ℕ) (s : TxState) (ps : Packets)
    → Resendable a s
    → Unchanged s.txed_packets ps
    → Resendable a (record s { txed_packets = ps })
flushed-Resendable a s ps r u = record {
  addressed = u.addressed a r.addressed;
  next_address = omega (arith, r.next_address, u.count);
  queue = r.queue ∙ sym u.queue;
}

requeue_packets-Resendable :
    (n a id : ℕ) (s : TxState)
    → Resendable a s
    → Numbered n s.txed_packets
    → length s.txed_packets ≤ one_quarter
    → Resendable a (requeue_packets id s)
unfolding requeue_packets
requeue_packets-Resendable n a id s r h le = record {
  addressed = requeue-Addressed id a s.txed_packets r.addressed;
  next_address = omega (arith, r.next_address, length-requeue id s.txed_packets);
  queue =
      ap (λ q. sort_by_seq (q ++ pushed id s.txed_packets)) r.queue
      ∙ sort-queued id n s.txed_packets h le;
}

queued-append :
    (ps : Packets) (p : SentReliable)
    → is_queued p.status ≡ false
    → queued (ps ++ (p ∷ [])) ≡ queued ps
queued-append [] p off = rw off refl
queued-append (x ∷ ps) p off = rw (queued-append ps p off) refl

Addressed-append :
    (a : ℕ) (ps : Packets) (p : SentReliable)
    → Addressed a ps
    → p.ptr ≡ a + length ps
    → Addressed a (ps ++ (p ∷ []))
Addressed-append a [] p h e = (rw add-zero at e, tt)
Addressed-append a (x ∷ ps) p h e = (h.0, Addressed-append (suc a) ps p h.1 (omega arith))

push_packet-Resendable :
    (a now id link : ℕ) (msg : ReliableMsg) (s : TxState)
    → Resendable a s
    → Resendable a (push_packet now id link msg s)
unfolding push_packet
push_packet-Resendable a now id link msg s r =
    let p : SentReliable = record {
      ptr = s.next_ptr;
      seq = s.tx_seq;
      status = SentReliableStatus.sent (record {
        sent = now;
        flushed = none;
        link_id = id;
        link = link;
        msg = msg;
        resent = false;
      });
    } in
    record {
      addressed = Addressed-append a s.txed_packets p r.addressed r.next_address;
      next_address = omega (arith, length-append s.txed_packets (p ∷ []), r.next_address);
      queue = r.queue ∙ sym (queued-append s.txed_packets p refl);
    }

module _ {TX : Type 0} where
  pub record Requeues (n a now id : ℕ) (reason : NotWorkingReason) (t : Task TX) : Type 0 where
    pub after : Task TX
    pub runs : unconfirm_link now id reason t ≡ ok after
    pub accounted : Accounted n after
    pub resendable : Resendable a after.tx_state
    pub kept : length after.txed_packets ≡ length t.txed_packets
    pub there : (j : ℕ) → Exists t.links j → Exists after.links j

  -- Unconfirming a link that exists keeps the resend queue the packets that wait to be sent again, oldest
  -- first, those of the link included, while at most a quarter of the sequence numbers are in use.
  pub unconfirm_link-Resendable :
      (n a now id : ℕ) (reason : NotWorkingReason) (l : LinkInt TX) (t : Task TX)
      → Accounted n t
      → Resendable a t.tx_state
      → length t.txed_packets ≤ one_quarter
      → link_at t.links id ≡ ok l
      → Requeues n a now id reason t
  unconfirm_link-Resendable n a now id reason l t acc r le here =
      let u = unconfirm_link-Accounted n now id reason l t acc r.queue le here in
      record {
        after = u.after;
        runs = u.runs;
        accounted = u.accounted;
        kept = u.kept;
        there = u.there;
        resendable = subst (Resendable a) (sym u.requeued) (
            requeue_packets-Resendable n a id (record t.tx_state { txed_packets = u.flushed })
              (flushed-Resendable a t.tx_state u.flushed r u.unchanged)
              (u.unchanged.numbered n acc.counted.numbered) (omega (arith, u.unchanged.count)));
      }

module _ {TX : Type 0} ⦃o : Sink TX⦄ ⦃b : ByteOrder⦄ where
  -- Sending a packet keeps the resend queue what it is.
  pub added-Resendable :
      (n a now id : ℕ) (msg : ReliableMsg) (t : Task TX) (x : Sent n now id msg t)
      → Resendable a t.tx_state
      → Resendable a x.after.tx_state
  added-Resendable n a now id msg t x r = subst (Resendable a) (sym x.pushed) (
      push_packet-Resendable a now id x.link msg (record t.tx_state { txed_packets = x.packets })
        (flushed-Resendable a t.tx_state x.packets r x.unchanged))
