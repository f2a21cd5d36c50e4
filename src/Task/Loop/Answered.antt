-- ===== src/Task/Loop/Answered.antt =====
-- What an answer to a received message is, and the answers to reliable messages and to `SetBlock`.
use native.Mathlib.Nat.{add-zero}
use aggligator.Base.{ℕ, ◌+◌, ◌≤◌, ◌<◌, ◌^◌, ◌≡◌, refl, Bool, false, Option, List}
use aggligator.Base.Result.{ok}
use aggligator.Fault.{Run}
use aggligator.Bytes.{Bytes}
use aggligator.Seq.{usable_interval, one_quarter}
use aggligator.Seq.Order.{wrap}
use aggligator.Msg.{LinkMsg, ReliableMsg}
use aggligator.Msg.Reliable.{from_link_msg}
use aggligator.Link.{LinkInt, report_ready}
use aggligator.Task.Defs.{Task, ReceivedReliableMsg, link_at}
use aggligator.Task.Receive.Handler.{Admissible, InOrder}
use aggligator.Task.Receive.Delivery.{handle_received_reliable_msg-InOrder}
use aggligator.Task.Messages.{continue_with, received_reliable, received_set_block}
use aggligator.Task.Ready.Sound.{Sound, Runs}
use aggligator.Task.Loop.{Outcome, Ending, received_outcome}
use aggligator.Task.Loop.Events.{replaced-Sound}
use aggligator.Task.Loop.Served.{moved-Sound}
use aggligator.Task.Loop.Tested.{CanTest}

module _ {TX : Type 0} where
  -- A reliable message as the peer sends it: the packet is in the window, and the peer keeps to the buffer.
  pub record Arrives (msg : LinkMsg) (bytes : Option Bytes) (t : Task TX) : Type 0 where
    pub m : ℕ → ReliableMsg
    pub k : ℕ
    pub n : ℕ
    pub out : List ReceivedReliableMsg
    pub ordered : InOrder m n out t.rx_state
    pub packet : from_link_msg msg bytes ≡ ok (m k, wrap k)
    pub ahead : k ≤ n + usable_interval
    pub behind : n ≤ k + one_quarter
    pub admissible : Admissible (m k) t

  -- What is known of a message that comes over the link.
  abbrev pub Comes : LinkMsg → Option Bytes → LinkInt TX → Task TX → Type 0
  Comes LinkMsg.ping bytes l t = Unit {0}
  Comes LinkMsg.pong bytes l t = CanTest l
  Comes (LinkMsg.ack received) bytes l t = received < 2 ^ 32
  Comes (LinkMsg.test_data size) bytes l t = Unit {0}
  Comes (LinkMsg.set_block blocked) bytes l t = Unit {0}
  Comes LinkMsg.goodbye bytes l t = Unit {0}
  Comes LinkMsg.terminate bytes l t = Unit {0}
  Comes (LinkMsg.welcome e k i u c) bytes l t = Unit {0}
  Comes (LinkMsg.connect e k i n x u c) bytes l t = Unit {0}
  Comes LinkMsg.accepted bytes l t = Unit {0}
  Comes (LinkMsg.refused reason) bytes l t = Unit {0}
  Comes msg bytes l t = Arrives msg bytes t

  abbrev pub EndsSound : ℕ → ℕ → Outcome TX → Type 0
  EndsSound n a (Outcome.continue_loop t) = Sound n a t
  EndsSound n a (Outcome.end_loop e) = Unit {0}

  -- There is no panic, and if the loop goes on, the sums and the queue are right, `k` packets being done.
  pub record Answered (n a : ℕ) (r : Run (Outcome TX)) : Type 0 where
    pub k : ℕ
    pub outcome : Outcome TX
    pub runs : r ≡ ok outcome
    pub sound : EndsSound (n + k) (a + k) outcome

  pub stays : (n a : ℕ) (e : Outcome TX) → EndsSound n a e → EndsSound (n + 0) (a + 0) e
  stays n a e h = rw (add-zero n, add-zero a) h

  pub runs-Answered :
      (n a : ℕ) (r : Run (Task TX)) (t : Task TX)
      → r ≡ ok t
      → Sound n a t
      → Answered n a (received_outcome (continue_with r))
  unfolding received_outcome continue_with
  runs-Answered n a r t e s = record {
    k = 0;
    outcome = Outcome.continue_loop t;
    runs = rw e refl;
    sound = stays n a (Outcome.continue_loop t) s;
  }

  pub kept-Answered :
      (n a : ℕ) (t : Task TX) (r : Run (Task TX))
      → Runs n a t r
      → Answered n a (received_outcome (continue_with r))
  kept-Answered n a t r h = runs-Answered n a r h.after h.runs h.sound

  pub ended-Answered : (n a : ℕ) (e : Ending) → Answered n a (ok (Outcome.end_loop e))
  ended-Answered n a e = record { k = 0; outcome = Outcome.end_loop e; runs = refl; sound = tt }

  -- The link is replaced by one that counts the same, and the rest may differ in `txed_unconsumed`.
  unconsumed-Sound :
      (n a u : ℕ) (t t' : Task TX)
      → Sound n a t
      → t'.tx_state ≡ record t.tx_state { txed_unconsumed = u }
      → t'.links ≡ t.links
      → Sound n a t'
  unconsumed-Sound n a u t t' s e f =
      moved-Sound n a (record t { tx_state = record t.tx_state { txed_unconsumed = u } }) t'
        (record {
          accounted = record {
            counted = record {
              numbered = s.accounted.counted.numbered;
              next = s.accounted.counted.next;
              short = s.accounted.counted.short;
              unacked = s.accounted.counted.unacked;
              received = s.accounted.counted.received;
            };
            links = s.accounted.links;
          };
          resendable = record {
            addressed = s.resendable.addressed;
            next_address = s.resendable.next_address;
            queue = s.resendable.queue;
          };
        })
        e f

  pub reliable-Answered :
      (n a now id : ℕ) (msg : LinkMsg) (bytes : Option Bytes) (l : LinkInt TX) (t : Task TX)
      → Sound n a t
      → link_at t.links id ≡ ok l
      → (p : Arrives msg bytes t)
      → Answered n a (received_outcome (continue_with (received_reliable now id msg bytes t)))
  unfolding received_reliable
  reliable-Answered n a now id msg bytes l t s here p =
      let x =
        handle_received_reliable_msg-InOrder p.m p.k p.n now id p.out l t p.ordered here p.ahead
          p.behind p.admissible in
      runs-Answered n a _ x.after (rw (p.packet, x.runs) refl) (
        unconsumed-Sound n a x.unconsumed _ x.after (replaced-Sound n a id l _ t s here refl)
          x.same_tx x.acked)

  pub set_block-Answered :
      (n a now id : ℕ) (blocked : Bool) (l : LinkInt TX) (t : Task TX)
      → Sound n a t
      → link_at t.links id ≡ ok l
      → Answered n a (received_outcome (ok (false, received_set_block now id blocked l t)))
  unfolding received_outcome received_set_block
  set_block-Answered n a now id blocked l t s here = record {
    k = 0;
    outcome = Outcome.continue_loop (received_set_block now id blocked l t);
    runs = refl;
    sound = stays n a (Outcome.continue_loop (received_set_block now id blocked l t)) (
        moved-Sound n a _ _
          (replaced-Sound n a id l (report_ready now (record l { remotely_blocked = blocked })) t s
            here refl)
          refl refl);
  }
