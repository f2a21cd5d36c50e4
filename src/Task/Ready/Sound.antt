-- ===== src/Task/Ready/Sound.antt =====
-- Flushing a link or leaving it idle keeps the sums and the resend queue.
use aggligator.Base.{
  ℕ, ◌+◌, ◌≤◌, ◌≡◌, refl, sym, ap, subst, ◌∙◌, Bool, true, false, Option, some, List, [], ◌∷◌, ◌++◌,
  length, set, if◌then◌else◌, arith,
}
use aggligator.Base.Result.{ok}
use aggligator.Fault.{Run}
use aggligator.Packets.{Packets, sent_size}
use aggligator.Link.{LinkInt, start_flush, mark_idle}
use aggligator.Task.Defs.{Task, TxState, link_at, put_link, without}
use aggligator.Task.Ack.Kept.{Counted}
use aggligator.Task.Ack.Acknowledge.{Accounted, links_after}
use aggligator.Task.Send.{flush_link}
use aggligator.Task.Send.Counts.{start_flush-Keeps}
use aggligator.Task.Send.Unchanged.{Unchanged, same}
use aggligator.Task.Links.Unconfirm.{flushed-Counted}
use aggligator.Task.Ack.Queue.{Resendable}
use aggligator.Task.Resend.Kept.{flushed-Resendable}
use aggligator.Task.Ready.{ready_idle, ready_unconfirmed}

module _ {TX : Type 0} where
  -- The sums are right, and the resend queue is the packets that wait.
  pub record Sound (n a : ℕ) (t : Task TX) : Type 0 where
    pub accounted : Accounted n t
    pub resendable : Resendable a t.tx_state

  -- A step that ends without a panic, keeps this, and adds at most one packet.
  pub record Runs (n a : ℕ) (t : Task TX) (r : Run (Task TX)) : Type 0 where
    pub after : Task TX
    pub runs : r ≡ ok after
    pub sound : Sound n a after
    pub grown : length after.txed_packets ≤ length t.txed_packets + 1

  pub done-Runs : (n a : ℕ) (t : Task TX) → Sound n a t → Runs n a t (ok t)
  done-Runs n a t s = record { after = t; runs = refl; sound = s; grown = omega arith }

  pub if-Runs :
      (n a : ℕ) (t : Task TX) (b : Bool) (x y : Run (Task TX))
      → Runs n a t x
      → Runs n a t y
      → Runs n a t (if b then x else y)
  if-Runs n a t true x y h k = h
  if-Runs n a t false x y h k = k

  -- The link is replaced by one that counts the same, and the packets by those with other flush marks.
  pub put-Sound :
      (n a id : ℕ) (l' : LinkInt TX) (ps : Packets) (t t' : Task TX)
      → Sound n a t
      → Unchanged t.txed_packets ps
      → l'.txed_unacked_data ≡ sent_size id t.txed_packets
      → t'.links ≡ t.links
      → t'.tx_state ≡ record t.tx_state { txed_packets = ps }
      → Sound n a (put_link id l' t')
  put-Sound n a id l' ps t t' s u own e f = record {
    accounted = record {
      counted = subst (Counted n) (sym f) (flushed-Counted n t.tx_state ps s.accounted.counted u);
      links = λ j l at.
          links_after id t.links l' t.txed_packets ps s.accounted.links (own ∙ sym (u.sizes id))
            (λ i ne. u.sizes i) j l
            (subst (λ (ls : List (Option (LinkInt TX))). link_at (set ls id (some l')) j ≡ ok l) e
              at)
          ∙ ap (λ (x : TxState). sent_size j x.txed_packets) (sym f);
    };
    resendable = subst (Resendable a) (sym f) (flushed-Resendable a t.tx_state ps s.resendable u);
  }

  pub flush_link-Runs :
      (n a now id : ℕ) (l : LinkInt TX) (t : Task TX)
      → Sound n a t
      → link_at t.links id ≡ ok l
      → Runs n a t (flush_link now id t)
  unfolding flush_link
  flush_link-Runs n a now id l t s here =
      let f = start_flush-Keeps now l t.txed_packets in
      let ps : Packets = (start_flush now l t.txed_packets).1 in
      let l' : LinkInt TX = (start_flush now l t.txed_packets).0 in
      let t' : Task TX = record t {
        tx_state = record t.tx_state { txed_packets = ps };
        idle_links = without id t.idle_links;
      } in
      record {
        after = put_link id l' t';
        runs = rw here refl;
        sound = put-Sound n a id l' ps t t' s f.0 (f.1 ∙ s.accounted.links id l here) refl refl;
        grown = omega (arith, f.0.count);
      }

  pub ready_unconfirmed-Runs :
      (n a now id : ℕ) (l : LinkInt TX) (t : Task TX)
      → Sound n a t
      → link_at t.links id ≡ ok l
      → Runs n a t (ready_unconfirmed now id l t)
  unfolding ready_unconfirmed
  ready_unconfirmed-Runs n a now id l t s here =
      if-Runs n a t _ _ _ (flush_link-Runs n a now id l t s here) (done-Runs n a t s)

  pub ready_idle-Runs :
      (n a now id : ℕ) (l : LinkInt TX) (t : Task TX)
      → Sound n a t
      → link_at t.links id ≡ ok l
      → Runs n a t (ready_idle now id l t)
  unfolding ready_idle
  ready_idle-Runs n a now id l t s here =
      let t' : Task TX = record t { idle_links = t.idle_links ++ (id ∷ []) } in
      let marked : Runs n a t (ok (put_link id (mark_idle now l) t')) = record {
        after = put_link id (mark_idle now l) t';
        runs = refl;
        sound =
            put-Sound n a id (mark_idle now l) t.txed_packets t t' s (same t.txed_packets)
              (s.accounted.links id l here) refl refl;
        grown = omega arith;
      } in
      if-Runs n a t _ _ _ (flush_link-Runs n a now id l t s here)
        (if-Runs n a t _ _ _ marked (done-Runs n a t s))
