-- ===== src/Task/Ack/Acknowledge.antt =====
-- The sums of the task and of its links, and `acknowledge`, which keeps them.
use aggligator.Base.{
  ℕ, zero, suc, ◌+◌, ◌-◌, ◌<◌, ◌^◌, ◌≡◌, ◌≢◌, refl, sym, ap, ◌∙◌, subst, true, Option, some, List,
  [], ◌∷◌, length, get_elem?, set, arith, ◌&&◌, leb, ◌==◌, ==_self, Bool-cases, inl, inr,
}
use aggligator.Base.Int.{as_usize, is_positive}
use aggligator.Base.Result.{ok}
use aggligator.Seq
use aggligator.Seq.{Seq}
use aggligator.Seq.Order.{wrap}
use aggligator.Packets.{Packets, sent_size}
use aggligator.Link.{LinkInt}
use aggligator.Task.Defs.{Task, TxState, link_at, flatten}
use aggligator.Task.Ack.{acknowledge_at, acknowledge}
use aggligator.Task.Ack.Totals.{Numbered-get}
use aggligator.Task.Ack.Queue.{Resendable}
use aggligator.Task.Ack.Kept.{Counted, mark_received-Marked}
use aggligator.Task.Receive.Handler.{get_elem?-in_bounds}

pub get_set_other {ℓ} :
    {A : Type ℓ} (xs : List A) (i j : ℕ) (v : A) → j ≢ i → get_elem? (set xs i v) j ≡ get_elem? xs j
get_set_other [] i j v h = refl
get_set_other (x ∷ xs) zero zero v h = absurd (h refl)
get_set_other (x ∷ xs) zero (suc j) v h = refl
get_set_other (x ∷ xs) (suc i) zero v h = refl
get_set_other (x ∷ xs) (suc i) (suc j) v h = get_set_other xs i j v (λ e. h (ap suc e))

-- The packet that is indexed from the back has the acknowledged number.
pub indexed_seq :
    (n len : ℕ) (tx rxed : Seq)
    → tx ≡ wrap (n + len)
    → rxed < 2 ^ 32
    → len < 2 ^ 31
    → (is_positive (Seq.diff tx rxed) && leb (as_usize (Seq.diff tx rxed)) len) ≡ true
    → (wrap (n + (len - as_usize (Seq.diff tx rxed))) ≡ rxed)
      × (len - as_usize (Seq.diff tx rxed) < len)
unfolding Seq.diff
indexed_seq n len tx rxed e h k i = ground arith

module _ {TX : Type 0} where
  pub link_at-set :
      (ls : List (Option (LinkInt TX))) (id : ℕ) (l' l : LinkInt TX)
      → link_at (set ls id (some l')) id ≡ ok l
      → l ≡ l'
  link_at-set [] id l' l e = cc
  link_at-set (x ∷ ls) zero l' l e = cc
  link_at-set (x ∷ ls) (suc id) l' l e = link_at-set ls id l' l e

  -- The task counts the data of its packets, and each link that of the packets sent over it.
  pub record Accounted (n : ℕ) (t : Task TX) : Type 0 where
    pub counted : Counted n t.tx_state
    pub links :
        (id : ℕ) (l : LinkInt TX)
        → link_at t.links id ≡ ok l
        → l.txed_unacked_data ≡ sent_size id t.txed_packets

  pub links_after :
      (id : ℕ) (ls : List (Option (LinkInt TX))) (l' : LinkInt TX) (ps ps' : Packets)
      → ((j : ℕ) (l : LinkInt TX) → link_at ls j ≡ ok l → l.txed_unacked_data ≡ sent_size j ps)
      → l'.txed_unacked_data ≡ sent_size id ps'
      → ((j : ℕ) → j ≢ id → sent_size j ps' ≡ sent_size j ps)
      → (j : ℕ) (l : LinkInt TX) → link_at (set ls id (some l')) j ≡ ok l
      → l.txed_unacked_data ≡ sent_size j ps'
  links_after id ls l' ps ps' before own others j l at = elim (Bool-cases (j == id)) [
    | inl same ↦
        let e : j ≡ id = ground (arith, same) in
        ap (λ (x : LinkInt TX). x.txed_unacked_data)
          (link_at-set ls id l' l (subst (λ (x : ℕ). link_at (set ls id (some l')) x ≡ ok l) e at))
        ∙ own
        ∙ ap (λ (x : ℕ). sent_size x ps') (sym e)
    | inr differs ↦
        let ne : j ≢ id = λ e. absurd (ground (arith, differs, e)) in
        before j l (sym (ap flatten (get_set_other ls id j (some l') ne)) ∙ at) ∙ sym (others j ne)
  ]

  pub record Acknowledged (n now id : ℕ) (rxed_seq : Seq) (l : LinkInt TX) (s : TxState)
      : Type 0 where
    pub link : LinkInt TX
    pub after : TxState
    pub runs : acknowledge now id rxed_seq l s ≡ ok (link, after)
    pub counted : Counted n after
    pub own : link.txed_unacked_data ≡ sent_size id after.txed_packets
    pub others : (j : ℕ) → j ≢ id → sent_size j after.txed_packets ≡ sent_size j s.txed_packets
    pub waits : (a : ℕ) → Resendable a s → Resendable a after

  pub acknowledge-Acknowledged :
      (n now id : ℕ) (rxed_seq : Seq) (l : LinkInt TX) (s : TxState)
      → rxed_seq < 2 ^ 32
      → Counted n s
      → l.txed_unacked_data ≡ sent_size id s.txed_packets
      → Acknowledged n now id rxed_seq l s
  unfolding acknowledge acknowledge_at
  acknowledge-Acknowledged n now id rxed_seq l s h c o =
      let len = length s.txed_packets in
      let d = Seq.diff s.tx_seq rxed_seq in
      elim (Bool-cases (is_positive d && leb (as_usize d) len)) [
        | inr out ↦ record {
          link = l;
          after = s;
          runs = rw out refl;
          counted = c;
          own = o;
          others = λ j k. refl;
          waits = λ a h. h;
        }
        | inl inside ↦
            let at = indexed_seq n len s.tx_seq rxed_seq c.next h c.short inside in
            let idx = len - as_usize d in
            let slot = get_elem?-in_bounds s.txed_packets idx at.1 in
            let mk =
              mark_received-Marked n now id rxed_seq idx slot.0 slot.0.status l s c o slot.1 refl in
            record {
              link = mk.link;
              after = mk.after;
              runs =
                  rw
                    (
                      inside,
                      slot.1,
                      Numbered-get n s.txed_packets idx slot.0 c.numbered slot.1 ∙ at.0,
                      ==_self rxed_seq,
                      mk.runs,
                    )
                    refl;
              counted = mk.counted;
              own = mk.own;
              others = mk.others;
              waits = λ a h'.
                  mk.waits a
                    (sym (Numbered-get n s.txed_packets idx slot.0 c.numbered slot.1 ∙ at.0)) h';
            }
      ]
