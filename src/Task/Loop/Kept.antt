-- ===== src/Task/Loop/Kept.antt =====
-- The handlers of the main loop never panic, and keep the sums and the resend queue.
use aggligator.Base.{
  ℕ, zero, suc, ◌<◌, ◌≡◌, ◌⊎◌, inl, inr, refl, sym, ap, subst, ◌∙◌, Bool, true, false, Option, none,
  some, List, [], ◌∷◌, length, All, Option-cases, ◌≢◌, ltb, if◌then◌else◌, arith,
}
use aggligator.Base.Result.{ok}
use aggligator.Bytes.{ByteOrder}
use aggligator.Seq.{one_quarter}
use aggligator.Msg.{ReliableMsg}
use aggligator.Cfg.{ExchangedCfg}
use aggligator.Packets.{Packets, sent_size}
use aggligator.Link.{Sink, LinkInt, NotWorkingReason, link_cfg, report_ready, set_unconfirmed}
use aggligator.Task.Defs.{Task, TxState, link_at}
use aggligator.Task.Ack.Kept.{Counted}
use aggligator.Task.Send.Counts.{Keeps, start_flush-Keeps}
use aggligator.Task.Send.Unchanged.{Unchanged, same, trans}
use aggligator.Task.Links.{place, add_link}
use aggligator.Task.Links.Unconfirm.{flushed-Counted}
use aggligator.Task.Ack.Queue.{Resendable}
use aggligator.Task.Resend.Kept.{flushed-Resendable}
use aggligator.Task.Resend.Pick.{Usable, any_link}
use aggligator.Task.Ready.Sound.{Sound, Runs}
use aggligator.Task.Ready.Sends.{after_sent-Runs}
use aggligator.Task.Loop.{pop_last, flush_confirmed, flush_all, handle_flush, handle_new_link}
use aggligator.Task.Loop.Dispatch.{send_over_popped}

pub pop_last-All :
    (P : ℕ → Type 0) (ids : List ℕ) (p : ℕ × List ℕ) → pop_last ids ≡ some p → All P ids → P p.0
unfolding pop_last
pop_last-All P [] p e h = cc
pop_last-All P (x ∷ xs) p e h = elim (Option-cases (pop_last xs)) [
  | inl last ↦
      let k = rw (pop_last, last) at e in
      let z : x ≡ p.0 = (let w : (x, []) ≡ p = cc in ap (λ q. q.0) w) in subst P z h.0
  | inr (q, more) ↦
      let k = rw (pop_last, more) at e in
      let z : q.0 ≡ p.0 = (let w : (q.0, x ∷ q.1) ≡ p = cc in ap (λ y. y.0) w) in
      subst P z (pop_last-All P xs q more h.1)
]

module _ {TX : Type 0} where
  abbrev Counts : List (Option (LinkInt TX)) → List (Option (LinkInt TX)) → Type 0
  Counts ls ls' =
      (j : ℕ) (l' : LinkInt TX)
      → link_at ls' j ≡ ok l'
      → (l : LinkInt TX) × (link_at ls j ≡ ok l) × (l'.txed_unacked_data ≡ l.txed_unacked_data)

  flush_confirmed-Keeps :
      (now : ℕ) (l : LinkInt TX) (ps : Packets) (u : Option (ℕ × NotWorkingReason))
      → Keeps l ps (flush_confirmed now l ps u).1
  unfolding flush_confirmed
  flush_confirmed-Keeps now l ps none = start_flush-Keeps now l ps
  flush_confirmed-Keeps now l ps (some u) = (same ps, refl)

  gap-Counts :
      (ls ls' : List (Option (LinkInt TX))) → Counts ls ls' → Counts (none ∷ ls) (none ∷ ls')
  gap-Counts ls ls' h zero l' e = cc
  gap-Counts ls ls' h (suc j) l' e = h j l' e

  slot-Counts :
      (l k : LinkInt TX) (ls ls' : List (Option (LinkInt TX)))
      → k.txed_unacked_data ≡ l.txed_unacked_data
      → Counts ls ls'
      → Counts (some l ∷ ls) (some k ∷ ls')
  slot-Counts l k ls ls' d h zero l' e =
      (l, refl, let z : k ≡ l' = cc in ap (λ (x : LinkInt TX). x.txed_unacked_data) (sym z) ∙ d)
  slot-Counts l k ls ls' d h (suc j) l' e = h j l' e

  -- Flushing every confirmed link.
  flush_all-Counts :
      (now i : ℕ) (ls : List (Option (LinkInt TX))) (ps : Packets)
      → Unchanged ps (flush_all now i ls ps).2 × Counts ls (flush_all now i ls ps).1
  unfolding flush_all
  flush_all-Counts now i [] ps = (same ps, λ j l' e. (l', e, refl))
  flush_all-Counts now i (none ∷ ls) ps =
      let r = flush_all-Counts now (suc i) ls ps in (r.0, gap-Counts ls _ r.1)
  flush_all-Counts now i (some k ∷ ls) ps =
      let f = flush_confirmed-Keeps now k ps k.unconfirmed in
      let r = flush_all-Counts now (suc i) ls (flush_confirmed now k ps k.unconfirmed).1.1 in
      (trans f.0 r.0, slot-Counts k _ ls _ f.1 r.1)

  pub handle_flush-Sound :
      (n a now notify : ℕ) (t : Task TX) → Sound n a t → Runs n a t (ok (handle_flush now notify t))
  unfolding handle_flush
  handle_flush-Sound n a now notify t s =
      let f = flush_all-Counts now 0 t.links t.txed_packets in
      record {
        after = handle_flush now notify t;
        runs = refl;
        sound = record {
          accounted = record {
            counted = flushed-Counted n t.tx_state _ s.accounted.counted f.0;
            links = λ j l' at.
                let (l, before, d) = f.1 j l' at in
                d ∙ s.accounted.links j l before ∙ sym (f.0.sizes j);
          };
          resendable = flushed-Resendable a t.tx_state _ s.resendable f.0;
        };
        grown = omega (arith, f.0.count);
      }

  -- A link at a place is the new one there, or one from before.
  place-link_at :
      (l : LinkInt TX) (ls : List (Option (LinkInt TX))) (j : ℕ) (k : LinkInt TX)
      → link_at (place l ls).1 j ≡ ok k
      → ((j ≡ (place l ls).0) × (l ≡ k)) ⊎ (link_at ls j ≡ ok k)
  unfolding place
  place-link_at l [] zero k e = inl (refl, cc)
  place-link_at l [] (suc j) k e = cc
  place-link_at l (none ∷ ls) zero k e = inl (refl, cc)
  place-link_at l (none ∷ ls) (suc j) k e = inr e
  place-link_at l (some x ∷ ls) zero k e = inr e
  place-link_at l (some x ∷ ls) (suc j) k e = elim (place-link_at l ls j k e) [
    | inl h ↦ inl (ap suc h.0, h.1)
    | inr h ↦ inr h
  ]

  place-vacant :
      (l : LinkInt TX) (ls : List (Option (LinkInt TX))) (k : LinkInt TX)
      → link_at ls (place l ls).0 ≢ ok k
  unfolding place
  place-vacant l [] k e = cc
  place-vacant l (none ∷ ls) k e = cc
  place-vacant l (some x ∷ ls) k e = place-vacant l ls k e

  -- Where there is no link, nothing is counted for one.
  abbrev pub Vacant : Task TX → Type 0
  Vacant t =
      (j : ℕ) → ((k : LinkInt TX) → link_at t.links j ≢ ok k) → sent_size j t.txed_packets ≡ 0

  place-Sound :
      (n a : ℕ) (l : LinkInt TX) (t t' : Task TX)
      → Sound n a t
      → l.txed_unacked_data ≡ 0
      → Vacant t
      → t'.tx_state ≡ t.tx_state
      → t'.links ≡ (place l t.links).1
      → Sound n a t'
  place-Sound n a l t t' s zero_data v e f = record {
    accounted = record {
      counted = subst (Counted n) (sym e) s.accounted.counted;
      links = λ j k at.
          counts j k (
            place-link_at l t.links j k
              (subst (λ (ls : List (Option (LinkInt TX))). link_at ls j ≡ ok k) f at))
          ∙ ap (λ (x : TxState). sent_size j x.txed_packets) (sym e);
    };
    resendable = subst (Resendable a) (sym e) s.resendable;
  }
    where
      counts :
          (j : ℕ) (k : LinkInt TX)
          → ((j ≡ (place l t.links).0) × (l ≡ k)) ⊎ (link_at t.links j ≡ ok k)
          → k.txed_unacked_data ≡ sent_size j t.txed_packets
      counts j k (inl (at, same_link)) =
          ap (λ (x : LinkInt TX). x.txed_unacked_data) (sym same_link)
          ∙ zero_data
          ∙ sym (
              v j (λ q.
                subst (λ (i : ℕ). link_at t.links i ≢ ok q) (sym at) (place-vacant l t.links q)))
      counts j k (inr before) = s.accounted.links j k before

  pub handle_new_link-Sound :
      (n a now : ℕ) (l : LinkInt TX) (c : ExchangedCfg) (accepted : Bool) (t : Task TX)
      → Sound n a t
      → l.txed_unacked_data ≡ 0
      → Vacant t
      → Runs n a t (ok (handle_new_link now l c accepted t))
  unfolding handle_new_link add_link
  handle_new_link-Sound n a now l c true t s zero_data v = record {
    after = handle_new_link now l c true t;
    runs = refl;
    sound =
        place-Sound n a _ t (handle_new_link now l c true t) s
          (go (ltb 0 (link_cfg l).test_data_limit)) v refl refl;
    grown = omega arith;
  }
    where
      go :
          (b : Bool)
          → (if b
              then set_unconfirmed (some (now, NotWorkingReason.new)) (report_ready now l)
              else record (report_ready now l) { last_ping = some now }).txed_unacked_data
            ≡ 0
      go true = zero_data
      go false = zero_data
  handle_new_link-Sound n a now l c false t s zero_data v = record {
    after = handle_new_link now l c false t;
    runs = refl;
    sound = record {
      accounted = record { counted = s.accounted.counted; links = s.accounted.links };
      resendable = s.resendable;
    };
    grown = omega arith;
  }

module _ {TX : Type 0} ⦃o : Sink TX⦄ ⦃b : ByteOrder⦄ where
  -- A message over the idle link that was popped.
  pub send_over_popped-Runs :
      (n a now : ℕ) (msg : ReliableMsg) (f : Task TX → Task TX) (t : Task TX)
      (p : Option (ℕ × List ℕ))
      → Sound n a t
      → pop_last t.idle_links ≡ p
      → All (Usable any_link t.links) t.idle_links
      → length t.txed_packets < one_quarter
      → ((t' : Task TX) → ((f t').tx_state ≡ t'.tx_state) × ((f t').links ≡ t'.links))
      → Runs n a t (send_over_popped now msg f t p)
  unfolding send_over_popped
  send_over_popped-Runs n a now msg f t none s e us room keep = record {
    after = t;
    runs = refl;
    sound = s;
    grown = omega arith;
  }
  send_over_popped-Runs n a now msg f t (some p) s e us room keep =
      let u = pop_last-All (Usable any_link t.links) t.idle_links p e us in
      let x =
        after_sent-Runs n a now p.0 msg f u.link (record t { idle_links = p.1 })
          (record {
            accounted = record { counted = s.accounted.counted; links = s.accounted.links };
            resendable = s.resendable;
          })
          u.here u.idle u.empty room keep in
      record { after = x.after; runs = x.runs; sound = x.sound; grown = x.grown }
