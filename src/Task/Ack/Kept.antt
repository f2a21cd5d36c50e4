-- ===== src/Task/Ack/Kept.antt =====
-- An ack keeps the sums over the packets, and takes no sum below 0.
use aggligator.Base.{
  ℕ, ◌+◌, ◌-◌, ◌<◌, ◌^◌, ◌≡◌, ◌≢◌, refl, sym, ap, ap₂, subst, ◌∙◌, false, true, some, length,
  get_elem?, set, arith, ◌==◌, ge→ltb, Bool-cases, inl, inr,
}
use aggligator.Base.Result.{ok}
use aggligator.Seq.{Seq}
use aggligator.Seq.Order.{wrap}
use aggligator.Packets.{
  Packets, SentInfo, SentReliable, SentReliableStatus, data_size, status_size, sent_size,
}
use aggligator.Link.{LinkInt}
use aggligator.Task.Defs.{TxState}
use aggligator.Task.Ack.{count_received, estimate_roundtrip, mark_received, retain_not}
use aggligator.Packets.Queue.{is_queued, queued, Numbered, Addressed}
use aggligator.Packets.Update.{updated, queued-set_same}
use aggligator.Task.Ack.Queue.{Resendable, retain_not-set}
use aggligator.Task.Ack.Totals.{
  Addressed-set, total, unacked_status, received_status, sent_size-total, total-set, total-get,
  Numbered-set, length-set,
}

-- The task's side: the packets are numbered from `n` on up to the next sequence number, and the sums are
-- those of the packets' sizes.
pub record Counted (n : ℕ) (s : TxState) : Type 0 where
  pub numbered : Numbered n s.txed_packets
  pub next : s.tx_seq ≡ wrap (n + length s.txed_packets)
  pub short : length s.txed_packets < 2 ^ 31
  pub unacked : s.txed_unacked ≡ total unacked_status s.txed_packets
  pub received : s.txed_unconsumable ≡ total received_status s.txed_packets

record Recorded (n idx size : ℕ) (p : SentReliable) (s : TxState) : Type 0 where
  after : TxState
  runs : count_received idx size p s ≡ ok after
  counted : Counted n after
  packets :
      after.txed_packets
      ≡ set s.txed_packets idx (record p { status = SentReliableStatus.received size })
  queue : after.resend_queue ≡ s.resend_queue
  pointer : after.next_ptr ≡ s.next_ptr

count_received-Recorded :
    (n idx size : ℕ) (p : SentReliable) (s : TxState)
    → Counted n s
    → get_elem? s.txed_packets idx ≡ some p
    → unacked_status p.status ≡ size
    → received_status p.status ≡ 0
    → Recorded n idx size p s
unfolding count_received
count_received-Recorded n idx size p s c e u r =
    let st = SentReliableStatus.received size in
    let p' = record p { status = st } in
    record {
      after = record s {
        txed_unacked = s.txed_unacked - size;
        txed_unconsumable = s.txed_unconsumable + size;
        txed_packets = set s.txed_packets idx p';
      };
      runs =
          rw
            (ge→ltb s.txed_unacked size
              (omega (arith, c.unacked, total-get unacked_status s.txed_packets idx p e)))
            refl;
      counted = record {
        numbered = Numbered-set n s.txed_packets idx p st c.numbered e;
        next = c.next ∙ ap (λ (x : ℕ). wrap (n + x)) (sym (length-set s.txed_packets idx p'));
        short = omega (arith, c.short, length-set s.txed_packets idx p');
        unacked = omega (arith, c.unacked, total-set unacked_status s.txed_packets idx p p' e);
        received = omega (arith, c.received, total-set received_status s.txed_packets idx p p' e);
      };
      packets = refl;
      queue = refl;
      pointer = refl;
    }

-- A packet's status changes to received: what it does to the sums of the links.
sent_size-set :
    (j size idx : ℕ) (p : SentReliable) (ps : Packets)
    → get_elem? ps idx ≡ some p
    → sent_size j (set ps idx (record p { status = SentReliableStatus.received size }))
        + status_size j p.status
      ≡ sent_size j ps
unfolding status_size
sent_size-set j size idx p ps e =
    let p' : SentReliable = record p { status = SentReliableStatus.received size } in
    omega (
      arith,
      sent_size-total j ps,
      sent_size-total j (set ps idx p'),
      total-set (status_size j) ps idx p p' e,
    )

other_share :
    (i : SentInfo) (id j : ℕ)
    → (i.link_id == id) ≡ true
    → j ≢ id
    → status_size j (SentReliableStatus.sent i) ≡ 0
unfolding status_size
other_share i id j same h = ground arith

-- What counting a packet as received leaves of the resend queue.
recorded-Resendable :
    (n a idx size : ℕ) (p : SentReliable) (s s' : TxState)
    → Resendable a s
    → get_elem? s.txed_packets idx ≡ some p
    → s'.txed_packets ≡ set s.txed_packets idx (updated p (SentReliableStatus.received size))
    → s'.resend_queue ≡ s.resend_queue
    → s'.next_ptr ≡ s.next_ptr
    → is_queued p.status ≡ false
    → Resendable a s'
recorded-Resendable n a idx size p s s' h e ps q ptr off = record {
  addressed =
      subst (Addressed a) (sym ps)
        (Addressed-set a s.txed_packets idx p (SentReliableStatus.received size) h.addressed e);
  next_address =
      ptr
      ∙ h.next_address
      ∙ ap (◌+◌ a) (
          sym (
            ap length ps
            ∙ length-set s.txed_packets idx (updated p (SentReliableStatus.received size))));
  queue =
      q
      ∙ h.queue
      ∙ sym (
          ap queued ps
          ∙ queued-set_same s.txed_packets idx p (SentReliableStatus.received size) e off);
}

dequeued-Resendable :
    (n a idx size : ℕ) (rxed_seq : Seq) (p : SentReliable) (s s' : TxState)
    → Resendable a s
    → Numbered n s.txed_packets
    → length s.txed_packets < 2 ^ 31
    → get_elem? s.txed_packets idx ≡ some p
    → rxed_seq ≡ p.seq
    → s'.txed_packets ≡ set s.txed_packets idx (updated p (SentReliableStatus.received size))
    → s'.resend_queue ≡ s.resend_queue
    → s'.next_ptr ≡ s.next_ptr
    → is_queued p.status ≡ true
    → Resendable a (record s' { resend_queue = retain_not rxed_seq s'.resend_queue })
dequeued-Resendable n a idx size rxed_seq p s s' h num short e seq ps q ptr on = record {
  addressed =
      subst (Addressed a) (sym ps)
        (Addressed-set a s.txed_packets idx p (SentReliableStatus.received size) h.addressed e);
  next_address =
      ptr
      ∙ h.next_address
      ∙ ap (◌+◌ a) (
          sym (
            ap length ps
            ∙ length-set s.txed_packets idx (updated p (SentReliableStatus.received size))));
  queue =
      ap₂ retain_not seq (q ∙ h.queue)
      ∙ retain_not-set n s.txed_packets idx p size num short e on
      ∙ sym (ap queued ps);
}

module _ {TX : Type 0} where
  -- The link's side: its sum is that of the packets sent over it and not received.
  pub record Marked (n now id : ℕ) (rxed_seq : Seq) (idx : ℕ) (p : SentReliable)
      (st : SentReliableStatus) (l : LinkInt TX) (s : TxState) : Type 0 where
    pub link : LinkInt TX
    pub after : TxState
    pub runs : mark_received now id rxed_seq idx p st l s ≡ ok (link, after)
    pub counted : Counted n after
    pub own : link.txed_unacked_data ≡ sent_size id after.txed_packets
    pub others : (j : ℕ) → j ≢ id → sent_size j after.txed_packets ≡ sent_size j s.txed_packets
    pub waits : (a : ℕ) → rxed_seq ≡ p.seq → Resendable a s → Resendable a after

  pub mark_received-Marked :
      (n now id : ℕ) (rxed_seq : Seq) (idx : ℕ) (p : SentReliable) (st : SentReliableStatus)
      (l : LinkInt TX) (s : TxState)
      → Counted n s
      → l.txed_unacked_data ≡ sent_size id s.txed_packets
      → get_elem? s.txed_packets idx ≡ some p
      → p.status ≡ st
      → Marked n now id rxed_seq idx p st l s
  unfolding mark_received status_size estimate_roundtrip
  mark_received-Marked n now id rxed_seq idx p (SentReliableStatus.sent i) l s c o e is =
      elim (Bool-cases (i.link_id == id)) [
        | inl same ↦
            let size : ℕ = data_size i.msg in
            let r =
              count_received-Recorded n idx size p s c e (ap unacked_status is)
                (ap received_status is) in
            let share : status_size id p.status ≡ size = ap (status_size id) is ∙ rw same refl in
            let less = sent_size-set id size idx p s.txed_packets e in
            record {
              link =
                  estimate_roundtrip (now - i.sent)
                    (record l { txed_unacked_data = l.txed_unacked_data - size });
              after = r.after;
              runs =
                  rw (same, ge→ltb l.txed_unacked_data size (omega (arith, o, share, less)), r.runs)
                    refl;
              counted = r.counted;
              own = omega (arith, o, ap (sent_size id) r.packets, less, share);
              others = λ j h. omega (
                arith,
                ap (sent_size j) r.packets,
                sent_size-set j size idx p s.txed_packets e,
                ap (status_size j) is,
                other_share i id j same h,
              );
              waits = λ a seq h.
                  recorded-Resendable n a idx size p s r.after h e r.packets r.queue r.pointer
                    (ap is_queued is);
            }
        | inr differs ↦ record {
          link = l;
          after = s;
          runs = rw differs refl;
          counted = c;
          own = o;
          others = λ j h. refl;
          waits = λ a seq h. h;
        }
      ]
  mark_received-Marked n now id rxed_seq idx p (SentReliableStatus.resend_queued msg x) l s c o e
        is =
      let r =
        count_received-Recorded n idx (data_size msg) p s c e (ap unacked_status is)
          (ap received_status is) in
      record {
        link = l;
        after = record r.after { resend_queue = retain_not rxed_seq r.after.resend_queue };
        runs = rw r.runs refl;
        counted = record {
          numbered = r.counted.numbered;
          next = r.counted.next;
          short = r.counted.short;
          unacked = r.counted.unacked;
          received = r.counted.received;
        };
        own = omega (
          arith,
          o,
          ap (sent_size id) r.packets,
          sent_size-set id (data_size msg) idx p s.txed_packets e,
          ap (status_size id) is,
        );
        others = λ j h. omega (
          arith,
          ap (sent_size j) r.packets,
          sent_size-set j (data_size msg) idx p s.txed_packets e,
          ap (status_size j) is,
        );
        waits = λ a seq h.
            dequeued-Resendable n a idx (data_size msg) rxed_seq p s r.after h c.numbered c.short e
              seq r.packets r.queue r.pointer (ap is_queued is);
      }
  mark_received-Marked n now id rxed_seq idx p (SentReliableStatus.received size) l s c o e is =
      record {
        link = l;
        after = s;
        runs = refl;
        counted = c;
        own = o;
        others = λ j h. refl;
        waits = λ a seq h. h;
      }
