-- ===== src/Task/Ready/Sends.antt =====
-- Sending a message over a link that is ready keeps the sums and the resend queue.
use aggligator.Base.{
  ℕ, ◌<◌, ◌≡◌, refl, sym, ap, subst, ◌∙◌, Option, none, some, List, length, Bool-cases, inl, inr,
  arith,
}
use aggligator.Base.Result.{Result, ok, err}
use aggligator.Fault.{Run}
use aggligator.Bytes.{Bytes, ByteOrder}
use aggligator.Seq.{one_quarter}
use aggligator.Msg.{LinkMsg, ReliableMsg}
use aggligator.Msg.Write.{encode}
use aggligator.Packets.{Packets, sent_size}
use aggligator.Peekable.{PeekableReceiver, TryRecvIfError}
use aggligator.Link.{Sink, TxError, LinkInt, start_send_msg}
use aggligator.Link.Send.{get_or_insert, hand_over}
use aggligator.Task.Defs.{Task, TxState, SendReq, link_at, put_link, without}
use aggligator.Task.Ack.Kept.{Counted}
use aggligator.Task.Send.{send_reliable_over_link}
use aggligator.Task.Send.Counts.{Keeps, hand_over-Keeps}
use aggligator.Task.Send.Unchanged.{same}
use aggligator.Task.Send.Handler.{send_reliable_over_link-Accounted}
use aggligator.Task.Ack.Queue.{Resendable}
use aggligator.Task.Resend.Kept.{added-Resendable}
use aggligator.Task.Ready.{not_idle, after_sent, send_link_msg, ready_send, ready_written}
use aggligator.Task.Ready.Sound.{Sound, Runs, put-Sound, ready_idle-Runs}

module _ {TX : Type 0} ⦃o : Sink TX⦄ ⦃b : ByteOrder⦄ where
  -- A link that neither waits for its sink nor holds data takes a message that can be encoded.
  pub record Taken (now : ℕ) (msg : LinkMsg) (l : LinkInt TX) (ps : Packets) : Type 0 where
    pub link : LinkInt TX
    pub packets : Packets
    pub runs : start_send_msg now msg none l ps ≡ ok (link, packets)
    pub keeps : Keeps l ps (link, packets)

  start_send_msg-Taken :
      (now : ℕ) (msg : LinkMsg) (bytes : Bytes) (l : LinkInt TX) (ps : Packets)
      → encode msg ≡ ok bytes
      → l.tx_polling ≡ none
      → l.tx_data ≡ none
      → Taken now msg l ps
  unfolding start_send_msg
  start_send_msg-Taken now msg bytes l ps e idle empty = elim (Bool-cases l.tx_failed) [
    | inl failed ↦ record {
      link = record l { tx_error = get_or_insert l.tx_error TxError.link_failed };
      packets = ps;
      runs = rw (idle, empty, failed) refl;
      keeps = (same ps, refl);
    }
    | inr working ↦
        let l1 : LinkInt TX = record l { tx_polling = some now; tx_idle_since = none } in
        let r : LinkInt TX × Packets =
          hand_over now msg none bytes (o.start_send l.tx bytes) l1 ps in
        record {
          link = r.0;
          packets = r.1;
          runs = rw (idle, empty, working, e) refl;
          keeps = hand_over-Keeps now msg none bytes (o.start_send l.tx bytes) l1 ps;
        }
  ]

  pub send_link_msg-Runs :
      (n a now id : ℕ) (msg : LinkMsg) (bytes : Bytes) (f : LinkInt TX → LinkInt TX)
      (l : LinkInt TX) (t : Task TX)
      → Sound n a t
      → encode msg ≡ ok bytes
      → l.txed_unacked_data ≡ sent_size id t.txed_packets
      → ((k : LinkInt TX) → (f k).txed_unacked_data ≡ k.txed_unacked_data)
      → l.tx_polling ≡ none
      → l.tx_data ≡ none
      → Runs n a t (send_link_msg now id msg f l t)
  unfolding send_link_msg
  send_link_msg-Runs n a now id msg bytes f l t s e own keep idle empty =
      let x = start_send_msg-Taken now msg bytes l t.txed_packets e idle empty in
      let t' : Task TX = record t {
        idle_links = without id t.idle_links;
        tx_state = record t.tx_state { txed_packets = x.packets };
      } in
      record {
        after = put_link id (f x.link) t';
        runs = rw x.runs refl;
        sound =
            put-Sound n a id (f x.link) x.packets t t' s x.keeps.0 (keep x.link ∙ x.keeps.1 ∙ own)
              refl refl;
        grown = omega (arith, x.keeps.0.count);
      }

  pub after_sent-Runs :
      (n a now id : ℕ) (msg : ReliableMsg) (f : Task TX → Task TX) (l : LinkInt TX) (t : Task TX)
      → Sound n a t
      → link_at t.links id ≡ ok l
      → l.tx_polling ≡ none
      → l.tx_data ≡ none
      → length t.txed_packets < one_quarter
      → ((t' : Task TX) → ((f t').tx_state ≡ t'.tx_state) × ((f t').links ≡ t'.links))
      → Runs n a t (after_sent f (send_reliable_over_link now id msg t))
  after_sent-Runs n a now id msg f l t s here idle empty room keep =
      let x =
        send_reliable_over_link-Accounted n now id msg l t s.accounted here idle empty
          (omega (arith, room)) in
      let k = keep x.after in
      record {
        after = f x.after;
        runs = rw x.runs refl;
        sound = record {
          accounted = record {
            counted = subst (Counted n) (sym k.0) x.accounted.counted;
            links = λ j l' at.
                x.accounted.links j l'
                  (subst (λ (ls : List (Option (LinkInt TX))). link_at ls j ≡ ok l') k.1 at)
                ∙ ap (λ (y : TxState). sent_size j y.txed_packets) (sym k.0);
          };
          resendable =
              subst (Resendable a) (sym k.0) (added-Resendable n a now id msg t x s.resendable);
        };
        grown = omega (arith, x.grown, ap (λ (y : TxState). length y.txed_packets) k.0);
      }

  pub ready_send-Runs :
      (n a now id : ℕ) (msg : ReliableMsg) (f : Task TX → Task TX) (l : LinkInt TX) (t : Task TX)
      → Sound n a t
      → link_at t.links id ≡ ok l
      → l.tx_polling ≡ none
      → l.tx_data ≡ none
      → length t.txed_packets < one_quarter
      → ((t' : Task TX) → ((f t').tx_state ≡ t'.tx_state) × ((f t').links ≡ t'.links))
      → Runs n a t (ready_send now id msg f t)
  unfolding ready_send
  ready_send-Runs n a now id msg f l t s here idle empty room keep =
      let x =
        after_sent-Runs n a now id msg f l (not_idle id t)
          (record {
            accounted = record { counted = s.accounted.counted; links = s.accounted.links };
            resendable = s.resendable;
          })
          here idle empty room keep in
      record { after = x.after; runs = x.runs; sound = x.sound; grown = x.grown }

  pub ready_written-Runs :
      (n a now id : ℕ) (l : LinkInt TX) (t : Task TX) (res : Result TryRecvIfError SendReq)
      (rx : PeekableReceiver SendReq)
      → Sound n a t
      → link_at t.links id ≡ ok l
      → l.tx_polling ≡ none
      → l.tx_data ≡ none
      → length t.txed_packets < one_quarter
      → Runs n a t (ready_written now id l t (res, rx))
  unfolding ready_written
  ready_written-Runs n a now id l t res rx s here idle empty room = go res
    where
      t1 : Task TX
      t1 = record t { write_rx = some rx }

      s1 : Sound n a t1
      s1 = record {
        accounted = record { counted = s.accounted.counted; links = s.accounted.links };
        resendable = s.resendable;
      }

      moved : (r : Run (Task TX)) → Runs n a t1 r → Runs n a t r
      moved r h = record { after = h.after; runs = h.runs; sound = h.sound; grown = h.grown }

      go : (q : Result TryRecvIfError SendReq) → Runs n a t (ready_written now id l t (q, rx))
      go (ok (SendReq.send bytes)) = moved _ (
          ready_send-Runs n a now id (ReliableMsg.data_msg bytes) (λ t'. t') l t1 s1 here idle empty
            room (λ t'. (refl, refl)))
      go (ok (SendReq.flush w)) = moved _ (ready_idle-Runs n a now id l t1 s1 here)
      go (err e) = moved _ (ready_idle-Runs n a now id l t1 s1 here)
