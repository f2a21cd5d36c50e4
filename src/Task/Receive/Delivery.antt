-- ===== src/Task/Receive/Delivery.antt =====
-- `handle_received_reliable_msg`: packets arrive in any order and more than once, and are
-- forwarded in order and once.
use aggligator.Base.{
  ◌∙◌, ℕ, zero, suc, ◌+◌, ◌≤◌, ◌<◌, ◌≡◌, refl, List, some, set, arith, ◌∷◌, ◌++◌, [],
}
use aggligator.Base.Result.{ok, err}
use aggligator.Fault.{seq_underflow}
use aggligator.Seq.{usable_interval, one_quarter}
use aggligator.Seq.Order.{wrap}
use aggligator.Msg.{ReliableMsg}
use aggligator.Link.{LinkInt, report_ready}
use aggligator.Task.Defs.{TxState, Task, ReceivedReliableMsg, link_at}
use aggligator.Task.Receive.{queue_ack, handle_received_reliable_msg}
use aggligator.Task.Receive.Handler.{Admissible, InOrder, forward_rx-Next}
use aggligator.Task.Receive.Place.{receive-Received, receive-ahead}

positive : (d : ℕ) → ¬ (d ≡ 0) → 0 < d
positive zero h = absurd (h refl)
positive (suc d) h = omega arith

module _ (m : ℕ → ReliableMsg) {TX : Type 0} where
  -- What the handler does with the k-th packet, when `n` packets were forwarded before: it ends
  -- without a fault, `d` more packets are forwarded, at least one if it was the awaited packet, and the
  -- packet's ack is queued on the link it came from.
  pub record Handled (k n now id : ℕ) (out : List ReceivedReliableMsg) (l : LinkInt TX)
      (t : Task TX) : Type 0 where
    pub d : ℕ
    pub after : Task TX
    pub runs : handle_received_reliable_msg now id (wrap k) (m k) t ≡ ok after
    pub ordered : InOrder m (n + d) out after.rx_state
    pub progress : k ≡ n → 0 < d
    pub acked :
        after.links
        ≡ set t.links id
            (some (report_ready now (record l { tx_ack_queue = l.tx_ack_queue ++ (wrap k ∷ []) })))
    pub unconsumed : ℕ
    pub same_tx : after.tx_state ≡ record t.tx_state { txed_unconsumed = unconsumed }

  Admissible-queue_ack :
      (msg : ReliableMsg) (now id k : ℕ) (l : LinkInt TX) (t : Task TX)
      → Admissible msg t
      → Admissible msg (queue_ack now id k l t)
  unfolding queue_ack
  Admissible-queue_ack (ReliableMsg.data_msg bytes) now id k l t h = h
  Admissible-queue_ack (ReliableMsg.consumed n) now id k l t h = h
  Admissible-queue_ack ReliableMsg.send_finish now id k l t h = tt
  Admissible-queue_ack ReliableMsg.receive_close now id k l t h = tt
  Admissible-queue_ack ReliableMsg.receive_finish now id k l t h = tt

  queue_ack-InOrder :
      (n now id k : ℕ) (out : List ReceivedReliableMsg) (l : LinkInt TX) (t : Task TX)
      → InOrder m n out t.rx_state
      → InOrder m n out (queue_ack now id k l t).rx_state
  unfolding queue_ack
  queue_ack-InOrder n now id k out l t i = i

  queue_ack-links :
      (now id k : ℕ) (l : LinkInt TX) (t : Task TX)
      → (queue_ack now id k l t).links
        ≡ set t.links id
            (some (report_ready now (record l { tx_ack_queue = l.tx_ack_queue ++ (k ∷ []) })))
  unfolding queue_ack
  queue_ack-links now id k l t = refl

  queue_ack-tx :
      (now id k u : ℕ) (l : LinkInt TX) (t : Task TX)
      → ◌≡◌ {A = TxState}
          (record (queue_ack now id k l t).tx_state { txed_unconsumed = u })
          (record t.tx_state { txed_unconsumed = u })
  unfolding queue_ack
  queue_ack-tx now id k u l t = refl

  -- A packet that arrives on a link that exists, not further ahead of the awaited packet than the usable
  -- interval and at most a quarter of the range behind it, whose data fits the receive buffer
  -- and which acknowledges no more consumed data than was sent, is handled without a fault, whether it was
  -- received before or not. The messages that were handed to the user, followed by those that
  -- wait for it, stay the consumable messages of the packets forwarded, in order and each once.
  pub handle_received_reliable_msg-InOrder :
      (k n now id : ℕ) (out : List ReceivedReliableMsg) (l : LinkInt TX) (t : Task TX)
      → InOrder m n out t.rx_state
      → link_at t.links id ≡ ok l
      → k ≤ n + usable_interval
      → n ≤ k + one_quarter
      → Admissible (m k) t
      → Handled k n now id out l t
  unfolding handle_received_reliable_msg
  handle_received_reliable_msg-InOrder k n now id out l t i at le near adm =
      let r =
        receive-Received m k n out (queue_ack now id (wrap k) l t)
          (queue_ack-InOrder n now id (wrap k) out l t i) le near
          (Admissible-queue_ack (m k) now id (wrap k) l t adm) in
      let f = forward_rx-Next m k n out r.after.rx_state r.placed in
      record {
        d = f.d;
        after = record r.after { rx_state = f.after };
        runs = rw (at, r.runs, f.runs) refl;
        ordered = f.ordered;
        progress = λ same. positive f.d (λ none_moved. r.placed.filled same (f.moved none_moved));
        acked = rw (r.same_links, queue_ack-links now id (wrap k) l t) refl;
        unconsumed = r.unconsumed;
        same_tx = r.same_tx ∙ queue_ack-tx now id (wrap k) r.unconsumed l t;
      }

  -- A packet that arrives on a link that exists, further ahead than the usable interval and at most a quarter of the
  -- range, ends the connection with a protocol error.
  pub handle_received_reliable_msg-ahead :
      (k n now id : ℕ) (l : LinkInt TX) (t : Task TX)
      → t.rx_seq ≡ wrap n
      → link_at t.links id ≡ ok l
      → n + usable_interval < k
      → k ≤ n + one_quarter
      → handle_received_reliable_msg now id (wrap k) (m k) t ≡ err seq_underflow
  unfolding handle_received_reliable_msg queue_ack
  handle_received_reliable_msg-ahead k n now id l t e at far near =
      rw (at, receive-ahead m k n (queue_ack now id (wrap k) l t) e far near) refl
