-- ===== src/Task/Receive/Place.antt =====
-- `receive` places a packet in the reassembly queue.
use aggligator.Base.{
  ℕ, ◌+◌, ◌-◌, ◌≤◌, ◌<◌, ◌≡◌, refl, sym, Option, none, some, List, get_elem?, set, arith,
  Bool-cases, inl, inr, ltb, lt→ltb, ge→ltb, ltb→lt, ltb→ge, ◌∙◌, subst,
}
use aggligator.Base.Result.{ok, err}
use aggligator.Fault.{seq_underflow}
use aggligator.Seq.{usable_interval, one_quarter}
use aggligator.Seq.Order.{wrap, lt-wrap, diff-wrap_le}
use aggligator.Msg.{ReliableMsg}
use aggligator.Packets.{data_size}
use aggligator.Task.Defs.{Task, RxState, ReceivedReliableMsg}
use aggligator.Task.Receive.{extend, fill_slot, accept, receive, store}
use aggligator.Task.Receive.Sizes.{
  Entry, length-extend, length-extend_le, queue_size-extend, queue_size-set,
}
use aggligator.Task.Receive.Order.{
  packet, Holds, Missing, Holds-extend, Holds-set, set_front, held_front, length-set,
}
use aggligator.Task.Receive.Handler.{
  get_elem?-in_bounds, Admissible, first_received-Grown, InOrder, Placed,
}

-- The received packet in its slot, and the size of its data counted.
abbrev stored : ReceivedReliableMsg → ℕ → RxState → RxState
stored r d s = record s { rxed_reliable = set s.rxed_reliable d (some r) }

abbrev grow : ℕ → RxState → RxState
grow size s = record s { rxed_reliable_size = s.rxed_reliable_size + size }

module _ (m : ℕ → ReliableMsg) {TX : Type 0} where
  pub record Received (k n : ℕ) (out : List ReceivedReliableMsg) (t : Task TX) : Type 0 where
    pub after : Task TX
    pub runs : receive (wrap k) (m k) t ≡ ok after
    pub placed : Placed m k n out after.rx_state
    pub same_links : after.links ≡ t.links
    pub unconsumed : ℕ
    pub same_tx : after.tx_state ≡ record t.tx_state { txed_unconsumed = unconsumed }

  receive-old :
      (k n : ℕ) (out : List ReceivedReliableMsg) (t : Task TX)
      → InOrder m n out t.rx_state
      → n ≤ k + one_quarter
      → k < n
      → Received k n out t
  unfolding receive
  receive-old k n out t i near old = record {
    after = t;
    runs = rw (i.seq, lt-wrap k n (omega arith) near, lt→ltb k n old) refl;
    placed = record {
      seq = i.seq;
      holds = i.holds;
      delivered = i.delivered;
      size = i.size;
      short = i.short;
      filled = λ e. absurd (omega arith);
    };
    same_links = refl;
    unconsumed = t.txed_unconsumed;
    same_tx = refl;
  }

  -- The state with the queue extended for the k-th packet.
  abbrev extended : ℕ → Task TX → Task TX
  extended d t = record t {
    rx_state = record t.rx_state { rxed_reliable = extend t.rxed_reliable d };
  }

  receive-new :
      (k n : ℕ) (t : Task TX)
      → t.rx_seq ≡ wrap n
      → n ≤ k
      → k ≤ n + usable_interval
      → receive (wrap k) (m k) t
        ≡ fill_slot
            (get_elem? (extend t.rxed_reliable (k - n)) (k - n))
            (k - n)
            (packet m k)
            (extended (k - n) t)
  unfolding receive accept
  receive-new k n t e ge le =
      rw
        (
          e,
          lt-wrap k n (omega arith) (omega arith),
          ge→ltb k n ge,
          diff-wrap_le k n ge (omega arith),
          ge→ltb usable_interval (k - n) (omega arith),
        )
        refl

  Admissible-extended :
      (msg : ReliableMsg) (d : ℕ) (t : Task TX) → Admissible msg t → Admissible msg (extended d t)
  Admissible-extended (ReliableMsg.data_msg bytes) d t h = h
  Admissible-extended (ReliableMsg.consumed n) d t h = h
  Admissible-extended ReliableMsg.send_finish d t h = tt
  Admissible-extended ReliableMsg.receive_close d t h = tt
  Admissible-extended ReliableMsg.receive_finish d t h = tt

  stored-Placed :
      (k n : ℕ) (out : List ReceivedReliableMsg) (t : Task TX)
      → InOrder m n out t.rx_state
      → n ≤ k
      → k ≤ n + usable_interval
      → get_elem? (extend t.rxed_reliable (k - n)) (k - n) ≡ some none
      → Placed m k n out
          (stored (packet m k) (k - n) (grow (data_size (m k)) (extended (k - n) t).rx_state))
  stored-Placed k n out t i ge le e =
      let q : List Entry = extend t.rxed_reliable (k - n) in
      record {
        seq = i.seq;
        holds =
            subst (λ x. Holds m n (set q (k - n) (some (packet m x)))) (omega arith)
              (Holds-set m n (k - n) q (Holds-extend m n (k - n) t.rxed_reliable i.holds));
        delivered = i.delivered;
        size = omega (
          arith,
          i.size,
          queue_size-extend t.rxed_reliable (k - n),
          queue_size-set q (k - n) (packet m k) e,
        );
        short = omega (
          arith,
          length-set q (k - n) (some (packet m k)),
          length-extend_le t.rxed_reliable (k - n) (usable_interval + 1) i.short (omega arith),
        );
        filled = λ same.
            subst (λ x. ¬ Missing (set q x (some (packet m k)))) (omega (arith, same))
              (set_front q (packet m k) (omega (arith, length-extend t.rxed_reliable (k - n))));
      }

  -- What the slot's update needs to know of the queue, extended for the packet.
  receive-filled :
      (k n : ℕ) (out : List ReceivedReliableMsg) (t : Task TX)
      → InOrder m n out t.rx_state
      → n ≤ k
      → k ≤ n + usable_interval
      → Admissible (m k) t
      → (r : Option ReceivedReliableMsg)
      → get_elem? (extend t.rxed_reliable (k - n)) (k - n) ≡ some r
      → Received k n out t
  unfolding fill_slot
  receive-filled k n out t i ge le adm (some old) e = record {
    after = extended (k - n) t;
    runs = receive-new k n t i.seq ge le ∙ rw e refl;
    placed = record {
      seq = i.seq;
      holds = Holds-extend m n (k - n) t.rxed_reliable i.holds;
      delivered = i.delivered;
      size = omega (arith, i.size, queue_size-extend t.rxed_reliable (k - n));
      short = length-extend_le t.rxed_reliable (k - n) (usable_interval + 1) i.short (omega arith);
      filled = λ same. held_front (extend t.rxed_reliable (k - n)) old (
          subst (λ x. get_elem? (extend t.rxed_reliable (k - n)) x ≡ some (some old))
            (omega (arith, same)) e);
    };
    same_links = refl;
    unconsumed = t.txed_unconsumed;
    same_tx = refl;
  }
  receive-filled k n out t i ge le adm none e =
      let f =
        first_received-Grown (m k) (extended (k - n) t) (Admissible-extended (m k) (k - n) t adm) in
      record {
        after = store (k - n) (packet m k) f.after;
        runs = receive-new k n t i.seq ge le ∙ (rw (e, f.runs) refl);
        placed =
            subst (λ (s : RxState). Placed m k n out (stored (packet m k) (k - n) s)) (sym f.grown)
              (stored-Placed k n out t i ge le e);
        same_links = f.same_links;
        unconsumed = f.unconsumed;
        same_tx = f.same_tx;
      }

  pub receive-Received :
      (k n : ℕ) (out : List ReceivedReliableMsg) (t : Task TX)
      → InOrder m n out t.rx_state
      → k ≤ n + usable_interval
      → n ≤ k + one_quarter
      → Admissible (m k) t
      → Received k n out t
  receive-Received k n out t i le near adm = elim (Bool-cases (ltb k n)) [
    | inl old ↦ receive-old k n out t i near (ltb→lt k n old)
    | inr new ↦
        let slot =
          get_elem?-in_bounds (extend t.rxed_reliable (k - n)) (k - n)
            (length-extend t.rxed_reliable (k - n)) in
        receive-filled k n out t i (ltb→ge k n new) le adm slot.0 slot.1
  ]

  -- A packet that is too far ahead is refused.
  pub receive-ahead :
      (k n : ℕ) (t : Task TX)
      → t.rx_seq ≡ wrap n
      → n + usable_interval < k
      → k ≤ n + one_quarter
      → receive (wrap k) (m k) t ≡ err seq_underflow
  unfolding receive accept
  receive-ahead k n t e far near =
      rw
        (
          e,
          lt-wrap k n (omega arith) (omega arith),
          ge→ltb k n (omega arith),
          diff-wrap_le k n (omega arith) (omega arith),
          lt→ltb usable_interval (k - n) (omega arith),
        )
        refl
