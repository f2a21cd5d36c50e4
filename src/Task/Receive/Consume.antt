-- ===== src/Task/Receive/Consume.antt =====
-- `ConsumeReceived` hands the waiting messages to the user, in order.
use aggligator.Base.{
  ℕ, zero, suc, ◌+◌, ◌-◌, ◌≡◌, refl, sym, true, List, [], ◌∷◌, ◌++◌, Option, none, some, length,
  arith, append_assoc, Bool-cases, inl, inr, All, ap, ◌∙◌, subst, ge→ltb,
}
use aggligator.Base.Result.{ok}
use aggligator.Bytes.{Bytes}
use aggligator.Packets.{data_size}
use aggligator.Msg.{ReliableMsg}
use aggligator.Task.Defs.{Task, ReceivedReliableMsg}
use aggligator.Task.Receive.{is_consumable, consume, consume_received}
use aggligator.Task.Receive.Sizes.{sizes}
use aggligator.Task.Receive.Order.{in_order}
use aggligator.Task.Receive.Handler.{InOrder}

abbrev Consumable : ReceivedReliableMsg → Type 0
Consumable r = is_consumable r.msg ≡ true

All-append_right {ℓ} : {A : Type 0} (P : A → Type ℓ) (xs ys : List A) → All P (xs ++ ys) → All P ys
All-append_right P [] ys h = h
All-append_right P (x ∷ xs) ys h = All-append_right P xs ys h.1

-- What the user gets for a message: the bytes of data, and the end of the channel for `SendFinish`.
abbrev pub handed : ReliableMsg → Option (List Bytes) → Option (List Bytes)
handed (ReliableMsg.data_msg bytes) none = none
handed (ReliableMsg.data_msg bytes) (some out) = some (out ++ (bytes ∷ []))
handed ReliableMsg.send_finish out = none
handed (ReliableMsg.consumed n) out = out
handed ReliableMsg.receive_close out = out
handed ReliableMsg.receive_finish out = out

hand_data :
    (bytes : Bytes) (o : Option (List Bytes))
    → elim o as (λ _. Option (List Bytes)) [ none ↦ none | some out ↦ some (out ++ (bytes ∷ [])) ]
      ≡ handed (ReliableMsg.data_msg bytes) o
hand_data bytes none = refl
hand_data bytes (some out) = refl

module _ (m : ℕ → ReliableMsg) where
  in_order-Consumable : (n d : ℕ) → All Consumable (in_order m n d)
  in_order-Consumable n zero = tt
  in_order-Consumable n (suc d) = elim (Bool-cases (is_consumable (m n))) [
    | inl held ↦ rw held (held, in_order-Consumable (suc n) d)
    | inr not_held ↦ rw not_held (in_order-Consumable (suc n) d)
  ]

  module _ {TX : Type 0} where
    pub record Consumed (n : ℕ) (out : List ReceivedReliableMsg) (r : ReceivedReliableMsg)
        (t : Task TX) : Type 0 where
      pub after : Task TX
      pub runs : consume_received t ≡ ok after
      pub ordered : InOrder m n (out ++ (r ∷ [])) after.rx_state
      pub read : after.read_tx ≡ handed r.msg t.read_tx
      pub same_tx : after.tx_state ≡ t.tx_state
      pub same_links : after.links ≡ t.links

    consume-Consumed :
        (n : ℕ) (out : List ReceivedReliableMsg) (r : ReceivedReliableMsg)
        (rest : List ReceivedReliableMsg) (t : Task TX)
        → InOrder m n out t.rx_state
        → t.rxed_reliable_consumable ≡ r ∷ rest
        → (msg : ReliableMsg) → r.msg ≡ msg
        → is_consumable msg ≡ true
        → Consumed n out r t
    unfolding consume_received consume is_consumable
    consume-Consumed n out r rest t i e (ReliableMsg.data_msg bytes) is h = record {
      after = record t {
        rx_state = record t.rx_state {
          rxed_reliable_consumable = rest;
          rxed_reliable_size = t.rxed_reliable_size - length bytes;
          rxed_reliable_consumed_since_last_ack =
              t.rxed_reliable_consumed_since_last_ack + length bytes;
        };
        read_tx = elim t.read_tx [ none ↦ none | some done ↦ some (done ++ (bytes ∷ [])) ];
      };
      runs =
          rw
            (
              e,
              is,
              ge→ltb t.rxed_reliable_size (length bytes)
                  (omega (arith, i.size, ap sizes e, ap data_size is)),
            )
            refl;
      ordered = record {
        seq = i.seq;
        holds = i.holds;
        missing = i.missing;
        delivered = append_assoc out (r ∷ []) rest ∙ ap (◌++◌ out) (sym e) ∙ i.delivered;
        size = omega (arith, i.size, ap sizes e, ap data_size is);
        short = i.short;
      };
      read = hand_data bytes t.read_tx ∙ ap (λ x. handed x t.read_tx) (sym is);
      same_tx = refl;
      same_links = refl;
    }
    consume-Consumed n out r rest t i e ReliableMsg.send_finish is h = record {
      after = record t {
        rx_state = record t.rx_state { rxed_reliable_consumable = rest };
        read_error = none;
        read_tx = none;
        receive_finish_sent = true;
      };
      runs = rw (e, is) refl;
      ordered = record {
        seq = i.seq;
        holds = i.holds;
        missing = i.missing;
        delivered = append_assoc out (r ∷ []) rest ∙ ap (◌++◌ out) (sym e) ∙ i.delivered;
        size = omega (arith, i.size, ap sizes e, ap data_size is);
        short = i.short;
      };
      read = ap (λ x. handed x t.read_tx) (sym is);
      same_tx = refl;
      same_links = refl;
    }
    consume-Consumed n out r rest t i e (ReliableMsg.consumed k) is h = cc
    consume-Consumed n out r rest t i e ReliableMsg.receive_close is h = cc
    consume-Consumed n out r rest t i e ReliableMsg.receive_finish is h = cc

    -- A message that waits for the user is handed over without a fault: it follows those that were
    -- handed over before, data is appended to what the user reads and `SendFinish` ends it, and
    -- the buffer size that is counted stays the size of the data that is held.
    pub consume_received-InOrder :
        (n : ℕ) (out : List ReceivedReliableMsg) (r : ReceivedReliableMsg)
        (rest : List ReceivedReliableMsg) (t : Task TX)
        → InOrder m n out t.rx_state
        → t.rxed_reliable_consumable ≡ r ∷ rest
        → Consumed n out r t
    consume_received-InOrder n out r rest t i e =
        consume-Consumed n out r rest t i e r.msg refl
          (All-append_right Consumable out (r ∷ rest) (
            subst (All Consumable) (sym (ap (◌++◌ out) (sym e) ∙ i.delivered))
              (in_order-Consumable 0 n))).0
