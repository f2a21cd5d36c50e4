-- ===== src/Task/Receive/Handler.antt =====
-- `handle_received_reliable_msg` keeps the order of the messages, and when it succeeds.
use aggligator.Base.{
  ℕ, zero, suc, ◌+◌, ◌-◌, ◌≤◌, ◌<◌, ◌≡◌, refl, sym, some, List, [], ◌∷◌, ◌++◌, length, get_elem?,
  arith, append_assoc, ap, ◌∙◌,
}
use native.Mathlib.Nat.{zero-add, add-zero, suc-add}
use aggligator.Base.Result.{ok}
use aggligator.Seq.{usable_interval}
use aggligator.Seq.Order.{wrap}
use aggligator.Msg.{ReliableMsg}
use aggligator.Packets.{data_size}
use aggligator.Task.Defs.{Task, RxState, ReceivedReliableMsg}
use aggligator.Task.Receive.{first_received, forward_rx}
use aggligator.Task.Receive.Sizes.{queue_size, sizes}
use aggligator.Task.Receive.Order.{in_order, Holds, Missing, forward-Forwarded, suc_add}

pub get_elem?-in_bounds {ℓ} :
    {A : Type ℓ} (xs : List A) (i : ℕ) → i < length xs → (a : A) × (get_elem? xs i ≡ some a)
get_elem?-in_bounds [] i h = absurd (omega arith)
get_elem?-in_bounds (x ∷ xs) zero h = (x, refl)
get_elem?-in_bounds (x ∷ xs) (suc i) h = get_elem?-in_bounds xs i (omega arith)

module _ {TX : Type 0} where
  -- The receive buffer has room for data, and no more is consumed than was sent.
  abbrev pub Admissible : ReliableMsg → Task TX → Type 0
  Admissible (ReliableMsg.data_msg bytes) t =
      t.rxed_reliable_size + length bytes ≤ t.cfg.recv_buffer
  Admissible (ReliableMsg.consumed n) t = n ≤ t.txed_unconsumed
  Admissible ReliableMsg.send_finish t = Unit {0}
  Admissible ReliableMsg.receive_close t = Unit {0}
  Admissible ReliableMsg.receive_finish t = Unit {0}

  pub record Grown (msg : ReliableMsg) (t : Task TX) : Type 0 where
    pub after : Task TX
    pub runs : first_received msg t ≡ ok after
    pub grown :
        after.rx_state
        ≡ record t.rx_state { rxed_reliable_size = t.rxed_reliable_size + data_size msg }
    pub same_links : after.links ≡ t.links
    pub unconsumed : ℕ
    pub same_tx : after.tx_state ≡ record t.tx_state { txed_unconsumed = unconsumed }

  pub first_received-Grown : (msg : ReliableMsg) (t : Task TX) → Admissible msg t → Grown msg t
  unfolding first_received
  first_received-Grown (ReliableMsg.data_msg bytes) t h = record {
    after = record t {
      rx_state = record t.rx_state { rxed_reliable_size = t.rxed_reliable_size + length bytes };
    };
    runs = ground arith;
    grown = refl;
    same_links = refl;
    unconsumed = t.txed_unconsumed;
    same_tx = refl;
  }
  first_received-Grown (ReliableMsg.consumed n) t h = record {
    after = record t { tx_state = record t.tx_state { txed_unconsumed = t.txed_unconsumed - n } };
    runs = ground arith;
    grown = ground arith;
    same_links = refl;
    unconsumed = t.txed_unconsumed - n;
    same_tx = refl;
  }
  first_received-Grown _ t h = record {
    after = _;
    runs = refl;
    grown = ground arith;
    same_links = refl;
    unconsumed = t.txed_unconsumed;
    same_tx = refl;
  }

module _ (m : ℕ → ReliableMsg) where
  -- `n` packets were forwarded in order, of which `out` are the consumable ones that were consumed.
  pub record InOrder (n : ℕ) (out : List ReceivedReliableMsg) (s : RxState) : Type 0 where
    pub seq : s.rx_seq ≡ wrap n
    pub holds : Holds m n s.rxed_reliable
    pub missing : Missing s.rxed_reliable
    pub delivered : out ++ s.rxed_reliable_consumable ≡ in_order m 0 n
    pub size : s.rxed_reliable_size ≡ queue_size s.rxed_reliable + sizes s.rxed_reliable_consumable
    pub short : length s.rxed_reliable ≤ usable_interval + 1

  -- The state between `receive` and the forwarding loop: the front slot may be filled.
  pub record Placed (k n : ℕ) (out : List ReceivedReliableMsg) (s : RxState) : Type 0 where
    pub seq : s.rx_seq ≡ wrap n
    pub holds : Holds m n s.rxed_reliable
    pub delivered : out ++ s.rxed_reliable_consumable ≡ in_order m 0 n
    pub size : s.rxed_reliable_size ≡ queue_size s.rxed_reliable + sizes s.rxed_reliable_consumable
    pub short : length s.rxed_reliable ≤ usable_interval + 1
    pub filled : k ≡ n → ¬ Missing s.rxed_reliable

  in_order-append : (k a b : ℕ) → in_order m k (a + b) ≡ in_order m k a ++ in_order m (k + a) b
  in_order-append k zero b = rw (zero-add b, add-zero k) refl
  in_order-append k (suc a) b =
      rw (suc-add a b, in_order-append (suc k) a b, suc_add k a)
        (sym (append_assoc _ (in_order m (suc k) a) (in_order m (k + suc a) b)))

  pub record Next (n : ℕ) (out : List ReceivedReliableMsg) (s : RxState) : Type 0 where
    pub d : ℕ
    pub after : RxState
    pub runs : forward_rx s ≡ ok after
    pub ordered : InOrder (n + d) out after
    pub moved : d ≡ 0 → Missing s.rxed_reliable

  pub forward_rx-Next :
      (k n : ℕ) (out : List ReceivedReliableMsg) (s : RxState) → Placed k n out s → Next n out s
  unfolding forward_rx
  forward_rx-Next k n out s p =
      let f = forward-Forwarded m n s.rxed_reliable s.rxed_reliable_consumable p.holds in
      record {
        d = f.d;
        after = record s {
          rx_seq = wrap (n + f.d);
          rxed_reliable = f.q';
          rxed_reliable_consumable = s.rxed_reliable_consumable ++ in_order m n f.d;
        };
        runs = rw (p.seq, f.runs) refl;
        ordered = record {
          seq = refl;
          holds = f.holds;
          missing = f.missing;
          delivered =
              sym (append_assoc out s.rxed_reliable_consumable (in_order m n f.d))
              ∙ ap (λ x. x ++ in_order m n f.d) p.delivered
              ∙ ap (λ (x : ℕ). in_order m 0 n ++ in_order m x f.d) (sym (zero-add n))
              ∙ sym (in_order-append 0 n f.d);
          size = omega (arith, p.size, f.size);
          short = omega (arith, p.short, f.count);
        };
        moved = f.stays;
      }
