-- ===== src/Task/Resend/Handler.antt =====
-- Resending the packet that waits longest never panics, and keeps the sums and the resend queue.
use mathlib.Core.List.{reverse}
use aggligator.Base.{
  ℕ, ◌≡◌, refl, sym, ap, ◌∙◌, true, false, Option, none, some, List, [], ◌∷◌, length, arith, All,
}
use aggligator.Base.Result.{ok}
use aggligator.Bytes.{ByteOrder}
use aggligator.Packets.{
  Packets, PacketRef, SentInfo, SentReliable, SentReliableStatus, set_status, meets, meets_first,
}
use aggligator.Packets.Update.{updated, queued-Front}
use aggligator.Link.{Sink, LinkInt, is_sendable}
use aggligator.Task.Defs.{Task, TxState, link_at, put_link, without}
use aggligator.Task.Ack.Totals.{unacked_status, length-set}
use aggligator.Task.Ack.Acknowledge.{Accounted, links_after}
use aggligator.Task.Send.{refer, lower_increased, resend_reliable_over_link}
use aggligator.Task.Send.Counts.{transmit-Transmitted}
use aggligator.Task.Resend.{
  sent_link_of, may_resend, non_resendable_link, resend_popped, resend_packet, resend_chosen,
  resend_idle,
}
use aggligator.Task.Resend.Pick.{Usable, IsChoice, any_link, resendable_link}
use aggligator.Task.Resend.Select.{Chooses, choose_links-IsChoice}
use aggligator.Task.Links.Unconfirm.{flushed-Counted}
use aggligator.Task.Ack.Queue.{Resendable}
use aggligator.Task.Resend.Kept.{flushed-Resendable}
use aggligator.Task.Resend.Again.{
  is_queued-Waiting, set_sent-Resent, allowed, sent_link_of-queued, both_fit,
}

module _ {TX : Type 0} where
  -- No link that is flushed comes to the first packet of the resend queue.
  abbrev pub Apart : Task TX → Type 0
  Apart t =
      (id : ℕ) (l : LinkInt TX)
      → link_at t.links id ≡ ok l
      → meets_first l.link_id t.resend_queue (reverse l.txed_packets) t.txed_packets ≡ false

module _ {TX : Type 0} ⦃o : Sink TX⦄ ⦃b : ByteOrder⦄ where
  -- What resending does: it ends without a panic, and no packet is lost.
  pub record Resends (n a now id : ℕ) (rest : List PacketRef) (t : Task TX) : Type 0 where
    pub after : Task TX
    pub runs : resend_packet now id t ≡ ok after
    pub accounted : Accounted n after
    pub resendable : Resendable a after.tx_state
    pub left : after.resend_queue ≡ rest
    pub kept : length after.txed_packets ≡ length t.txed_packets

  -- The packet that waits longest is resent over a link that exists, is ready, is not the one that it was sent over, and
  -- does not come to it when it flushes: no panic is met, the packets that wait are then the others, no packet is lost, and the numbers
  -- and the sums of the task and of every link stay right.
  pub resend_packet-Resendable :
      (n a now id : ℕ) (r : PacketRef) (rest : List PacketRef) (nr : Option ℕ) (l : LinkInt TX)
      (t : Task TX)
      → Accounted n t
      → Resendable a t.tx_state
      → t.resend_queue ≡ r ∷ rest
      → non_resendable_link t ≡ ok nr
      → may_resend nr l.link_id ≡ true
      → link_at t.links id ≡ ok l
      → l.tx_polling ≡ none
      → l.tx_data ≡ none
      → meets r.ptr l.link_id (reverse l.txed_packets) t.txed_packets ≡ false
      → Resends n a now id rest t
  unfolding resend_packet resend_popped resend_reliable_over_link refer lower_increased
      non_resendable_link
  resend_packet-Resendable n a now id r rest nr l t acc h front is may here idle empty free =
      let f0 = queued-Front a t.txed_packets r rest h.addressed (sym h.queue ∙ front) in
      let w0 = is_queued-Waiting f0.p.status f0.waits in
      let x = transmit-Transmitted now w0.msg r.seq l t.txed_packets idle empty in
      let u = x.unchanged in
      let f =
        queued-Front a x.packets r rest (u.addressed a h.addressed)
          (u.queue ∙ sym h.queue ∙ front) in
      let same : some f0.p ≡ some f.p = sym (u.waits r.ptr f0.p f0.found f0.waits) ∙ f.found in
      let p_same : f0.p ≡ f.p = cc in
      let i : SentInfo = record {
        sent = now;
        flushed = none;
        link_id = id;
        link = x.link.link_id;
        msg = w0.msg;
        resent = true;
      } in
      let s1 : TxState = t.tx_state in
      let done =
        set_sent-Resent n a id i s1 x.packets r rest f (is_queued-Waiting f.p.status f.waits)
          (flushed-Counted n s1 x.packets acc.counted u) (flushed-Resendable a s1 x.packets h u)
          refl (sym w0.unacked ∙ ap (λ (p : SentReliable). unacked_status p.status) p_same) in
      let qs : Packets = set_status r.ptr (SentReliableStatus.sent i) x.packets in
      let l' : LinkInt TX = refer r.ptr w0.msg (lower_increased r.seq x.link) in
      let not_there =
        allowed t.txed_packets r rest f0.p w0 l.link_id nr f0.found
          (sym (ap (sent_link_of t.txed_packets) front) ∙ is) may in
      record {
        after = put_link id l' (record t {
          tx_state = record s1 { resend_queue = rest; txed_packets = qs };
          idle_links = without id t.idle_links;
        });
        runs =
            ap (resend_popped now id t) front
            ∙ (rw (here, f0.found, w0.runs, not_there, free, x.runs) refl);
        accounted = record {
          counted = done.counted;
          links =
              links_after id t.links l' t.txed_packets qs acc.links
                (omega (arith, x.data_size, acc.links id l here, done.own, u.sizes id))
                (λ j ne. done.others j ne ∙ u.sizes j);
        };
        resendable = done.resendable;
        left = refl;
        kept =
            ap length (f.sets (SentReliableStatus.sent i))
            ∙ length-set x.packets f.i (updated f.p (SentReliableStatus.sent i))
            ∙ u.count;
      }

  pub record ResendsIdle (n a now : ℕ) (t : Task TX) : Type 0 where
    pub after : Task TX
    pub runs : resend_idle now t ≡ ok after
    pub accounted : Accounted n after
    pub resendable : Resendable a after.tx_state
    pub kept : length after.txed_packets ≡ length t.txed_packets

  resend_chosen-Resendable :
      (n a now : ℕ) (nr : Option ℕ) (t : Task TX) (c : Chooses nr t) (rs : List PacketRef)
      (o : Option ℕ)
      → Accounted n t
      → Resendable a t.tx_state
      → t.resend_queue ≡ rs
      → non_resendable_link t ≡ ok nr
      → c.choice.resendable_idle_link_id ≡ o
      → IsChoice (resendable_link nr) t.links (reverse t.idle_links) o
      → Apart t
      → (after : Task TX) × (resend_chosen now t rs o ≡ ok after)
        × Accounted n after
        × Resendable a after.tx_state
        × (length after.txed_packets ≡ length t.txed_packets)
  unfolding resend_chosen meets_first
  resend_chosen-Resendable n a now nr t c [] o acc h q is e w ap' = (t, refl, acc, h, refl)
  resend_chosen-Resendable n a now nr t c (r ∷ rest) none acc h q is e w ap' =
      (t, refl, acc, h, refl)
  resend_chosen-Resendable n a now nr t c (r ∷ rest) (some id) acc h q is e w ap' =
      let x =
        resend_packet-Resendable n a now id r rest nr w.0.link t acc h q is
          (both_fit (is_sendable w.0.link) (may_resend nr w.0.link.link_id) w.0.fit) w.0.here
          w.0.idle w.0.empty
          (sym (
              ap
                (λ (rs : List PacketRef).
                  meets_first w.0.link.link_id rs (reverse w.0.link.txed_packets) t.txed_packets)
                q)
            ∙ ap' id w.0.link w.0.here) in
      (x.after, x.runs, x.accounted, x.resendable, x.kept)

  -- When every idle link exists and is ready, and no link comes to the packet that waits longest when it flushes, choosing a link and resending over it the packet that waits longest
  -- ends without a panic, loses no packet, and keeps the resend queue the packets that wait and the sums
  -- of the task and of every link right.
  pub resend_idle-Resendable :
      (n a now : ℕ) (t : Task TX)
      → Accounted n t
      → Resendable a t.tx_state
      → All (Usable any_link t.links) t.idle_links
      → Apart t
      → ResendsIdle n a now t
  unfolding resend_idle non_resendable_link
  resend_idle-Resendable n a now t acc h us apart =
      let (nr, is) = sent_link_of-queued a t.tx_state t.resend_queue h refl in
      let c = choose_links-IsChoice nr t is us in
      let x =
        resend_chosen-Resendable n a now nr t c t.resend_queue c.choice.resendable_idle_link_id acc
          h refl is refl c.resending apart in
      record { after = x.0; runs = rw c.runs x.1; accounted = x.2; resendable = x.3; kept = x.4 }
