-- ===== src/Task/Ack/Handler.antt =====
-- `handle_ack` never panics, and keeps the task's and the links' sums.
use aggligator.Base.{
  ℕ, ◌+◌, ◌<◌, ◌^◌, ◌≡◌, refl, sym, ap, ◌∙◌, arith, Bool-cases, Option-cases, inl, inr,
}
use aggligator.Base.Result.{ok}
use aggligator.Seq
use aggligator.Seq.{Seq}
use aggligator.Seq.Order.{wrap}
use aggligator.Link.{LinkInt, clean_txed_packets}
use aggligator.Task.Defs.{Task, link_at, put_link}
use aggligator.Task.Ack.{unblock_increase, handle_ack}
use aggligator.Task.Ack.Queue.{Resendable}
use aggligator.Task.Ack.Swipe.{Outstanding, swipe-Swiped}
use aggligator.Task.Ack.Acknowledge.{Accounted, links_after, acknowledge-Acknowledged}

module _ {TX : Type 0} where
  unblock_increase-data :
      (rxed_seq : Seq) (l : LinkInt TX)
      → (unblock_increase rxed_seq l).txed_unacked_data ≡ l.txed_unacked_data
  unfolding unblock_increase
  unblock_increase-data rxed_seq l = elim (Option-cases l.txed_unacked_data_limit_increased) [
    | inl not_increased ↦ rw not_increased refl
    | inr (last, increased) ↦ elim (Bool-cases (Seq.le last rxed_seq)) [
      | inl passed ↦ rw (increased, passed) refl
      | inr open_yet ↦ rw (increased, open_yet) refl
    ]
  ]

  -- The steps of handling an ack.
  record AckSteps (n now id : ℕ) (rxed_seq : Seq) (t : Task TX) : Type 0 where
    k : ℕ
    after : Task TX
    runs : handle_ack now id rxed_seq t ≡ ok after
    accounted : Accounted (n + k) after
    outstanding : Outstanding after.txed_packets
    waits : (a : ℕ) → Resendable a t.tx_state → Resendable (a + k) after.tx_state

  handle_ack-AckSteps :
      (n now id : ℕ) (rxed_seq : Seq) (l : LinkInt TX) (t : Task TX)
      → Accounted n t
      → link_at t.links id ≡ ok l
      → rxed_seq < 2 ^ 32
      → AckSteps n now id rxed_seq t
  unfolding handle_ack clean_txed_packets
  handle_ack-AckSteps n now id rxed_seq l t acc here h =
      let a =
        acknowledge-Acknowledged n now id rxed_seq (unblock_increase rxed_seq l) t.tx_state h
          acc.counted (unblock_increase-data rxed_seq l ∙ acc.links id l here) in
      let w =
        swipe-Swiped n a.after.txed_packets a.after.txed_unconsumable a.after.txed_last_consumed
          a.counted.numbered a.counted.received in
      record {
        k = w.k;
        after = put_link id (clean_txed_packets w.rest a.link) (record t {
          tx_state = record a.after {
            txed_packets = w.rest;
            txed_unconsumable = w.left;
            txed_last_consumed = w.last';
          };
        });
        runs = rw (here, a.runs, w.runs) refl;
        accounted = record {
          counted = record {
            numbered = w.numbered;
            next = a.counted.next ∙ ap wrap (omega (arith, w.count));
            short = omega (arith, a.counted.short, w.count);
            unacked = omega (arith, a.counted.unacked, w.unacked);
            received = w.received;
          };
          links =
              links_after id t.links (clean_txed_packets w.rest a.link) t.txed_packets w.rest
                acc.links (a.own ∙ sym (w.sizes id)) (λ j k. w.sizes j ∙ a.others j k);
        };
        outstanding = w.outstanding;
        waits = λ a0 h0.
            let r = a.waits a0 h0 in
            record {
              addressed = w.addressed a0 r.addressed;
              next_address = omega (arith, r.next_address, w.count);
              queue = r.queue ∙ sym w.waiting;
            };
      }

  -- What handling an ack does: it ends without a fault, and `k` packets are taken off the front so that the
  -- first packet left was not received.
  pub record AckHandled (n now id : ℕ) (rxed_seq : Seq) (t : Task TX) : Type 0 where
    pub k : ℕ
    pub after : Task TX
    pub runs : handle_ack now id rxed_seq t ≡ ok after
    pub accounted : Accounted (n + k) after
    pub outstanding : Outstanding after.txed_packets

  -- An ack with any 32-bit sequence number that arrives on a link that exists is handled without a panic.
  -- If the packets were numbered one after another up to the next sequence number, fewer
  -- than 2 ^ 31 of them, and the task's sums of unacknowledged and of received data and every
  -- link's sum of unacknowledged data were those of the packets, then they are so again, and
  -- no received packet stays at the front.
  pub handle_ack-Accounted :
      (n now id : ℕ) (rxed_seq : Seq) (l : LinkInt TX) (t : Task TX)
      → Accounted n t
      → link_at t.links id ≡ ok l
      → rxed_seq < 2 ^ 32
      → AckHandled n now id rxed_seq t
  handle_ack-Accounted n now id rxed_seq l t acc here h =
      let x = handle_ack-AckSteps n now id rxed_seq l t acc here h in
      record {
        k = x.k;
        after = x.after;
        runs = x.runs;
        accounted = x.accounted;
        outstanding = x.outstanding;
      }

  pub record AckKeeps (n a now id : ℕ) (rxed_seq : Seq) (t : Task TX) : Type 0 where
    pub k : ℕ
    pub after : Task TX
    pub runs : handle_ack now id rxed_seq t ≡ ok after
    pub accounted : Accounted (n + k) after
    pub resendable : Resendable (a + k) after.tx_state

  -- An ack with any 32-bit sequence number that arrives on a link that exists is handled without a panic, keeps
  -- the numbers and the sums right, and leaves the resend queue the packets that still wait, oldest
  -- first: a packet that waited and is received now leaves it.
  pub handle_ack-Resendable :
      (n a now id : ℕ) (rxed_seq : Seq) (l : LinkInt TX) (t : Task TX)
      → Accounted n t
      → Resendable a t.tx_state
      → link_at t.links id ≡ ok l
      → rxed_seq < 2 ^ 32
      → AckKeeps n a now id rxed_seq t
  handle_ack-Resendable n a now id rxed_seq l t acc r here h =
      let x = handle_ack-AckSteps n now id rxed_seq l t acc here h in
      record {
        k = x.k;
        after = x.after;
        runs = x.runs;
        accounted = x.accounted;
        resendable = x.waits a r;
      }
