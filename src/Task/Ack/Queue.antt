-- ===== src/Task/Ack/Queue.antt =====
-- The resend queue and an ack: what is received does not wait any more.
use aggligator.Base.{
  ℕ, zero, suc, ◌+◌, ◌≤◌, ◌<◌, ◌^◌, ◌≡◌, refl, sym, ap, ◌∙◌, true, false, some, [], ◌∷◌, length,
  get_elem?, set, arith, ◌==◌, ==_self, Bool-cases, inl, inr,
}
use aggligator.Seq.{Seq}
use aggligator.Seq.Order.{wrap}
use aggligator.Packets.{Packets, SentReliable, SentReliableStatus}
use aggligator.Packets.Queue.{is_queued, queued, Numbered, Addressed}
use aggligator.Packets.Update.{updated}
use aggligator.Task.Defs.{TxState}
use aggligator.Task.Ack.{retain_not}
use aggligator.Task.Ack.Totals.{Numbered-get}

-- The packets have the addresses from `a` on up to the next one, and the resend queue refers to those that
-- wait, in order.
pub record Resendable (a : ℕ) (s : TxState) : Type 0 where
  pub addressed : Addressed a s.txed_packets
  pub next_address : s.next_ptr ≡ a + length s.txed_packets
  pub queue : s.resend_queue ≡ queued s.txed_packets

distinct : (m n : ℕ) → m < n → n < m + 2 ^ 32 → (wrap n == wrap m) ≡ false
distinct m n h k = ground arith

distinct_seqs :
    (m n : ℕ) (s t : Seq) → s ≡ wrap m → t ≡ wrap n → m < n → n < m + 2 ^ 32 → (s == t) ≡ false
distinct_seqs m n s t e f h k = ground arith

get_elem?-below :
    (ps : Packets) (i : ℕ) (p : SentReliable) → get_elem? ps i ≡ some p → i < length ps
get_elem?-below [] i p e = cc
get_elem?-below (x ∷ ps) zero p e = omega arith
get_elem?-below (x ∷ ps) (suc i) p e = omega (arith, get_elem?-below ps i p e)

-- The numbers of the packets behind are others.
retain_not-behind :
    (m n : ℕ) (ps : Packets)
    → Numbered n ps
    → m < n
    → n + length ps ≤ m + 2 ^ 32
    → retain_not (wrap m) (queued ps) ≡ queued ps
unfolding retain_not
retain_not-behind m n [] h lt le = refl
retain_not-behind m n (p ∷ ps) h lt le =
    let rest = retain_not-behind m (suc n) ps h.1 (omega arith) (omega arith) in
    elim (Bool-cases (is_queued p.status)) [
      | inl waits ↦ rw (waits, h.0, distinct m n lt (omega arith), rest) refl
      | inr other ↦ rw other rest
    ]

-- The packet that is received leaves the queue, and no other one does.
pub retain_not-set :
    (n : ℕ) (ps : Packets) (i : ℕ) (p : SentReliable) (size : ℕ)
    → Numbered n ps
    → length ps < 2 ^ 31
    → get_elem? ps i ≡ some p
    → is_queued p.status ≡ true
    → retain_not p.seq (queued ps)
      ≡ queued (set ps i (updated p (SentReliableStatus.received size)))
unfolding retain_not
retain_not-set n [] i p size h le e w = cc
retain_not-set n (x ∷ ps) zero p size h le e w =
    let k : x ≡ p = cc in
    let q : p.seq ≡ wrap n = ap (λ (y : SentReliable). y.seq) (sym k) ∙ h.0 in
    rw (k, w, ==_self p.seq)
      (ap (λ (z : Seq). retain_not z (queued ps)) q
        ∙ retain_not-behind n (suc n) ps h.1 (omega arith) (omega arith))
retain_not-set n (x ∷ ps) (suc i) p size h le e w =
    let rest = retain_not-set (suc n) ps i p size h.1 (omega arith) e w in
    let b = get_elem?-below ps i p e in
    let q : p.seq ≡ wrap (suc n + i) = Numbered-get (suc n) ps i p h.1 e in
    let ne : (x.seq == p.seq) ≡ false =
      distinct_seqs n (suc n + i) x.seq p.seq h.0 q (omega arith) (omega arith) in
    elim (Bool-cases (is_queued x.status)) [
      | inl waits ↦ rw (waits, ne, rest) refl
      | inr other ↦ rw other rest
    ]
