-- ===== src/Packets/Queue.antt =====
-- The packets that wait to be sent again, and that the resend queue holds them oldest first.
use aggligator.Base.{
  ℕ, suc, ◌+◌, ◌≤◌, ◌<◌, ◌≡◌, Bool, true, false, List, [], ◌∷◌, length, arith, if◌then◌else◌,
  Bool-cases, inl, inr, All,
}
use aggligator.Seq
use aggligator.Seq.{Seq, one_quarter}
use aggligator.Seq.Order.{wrap, le-wrap}
use aggligator.Packets.{Packets, PacketRef, SentReliableStatus, ref}

abbrev pub is_queued : SentReliableStatus → Bool
is_queued (SentReliableStatus.sent i) = false
is_queued (SentReliableStatus.received size) = false
is_queued (SentReliableStatus.resend_queued msg l) = true

-- References to the packets whose status fits, in order.
abbrev pub chosen : (SentReliableStatus → Bool) → Packets → List PacketRef
chosen f [] = []
chosen f (p ∷ ps) = if f p.status then ref p ∷ chosen f ps else chosen f ps

abbrev pub queued : Packets → List PacketRef
queued ps = chosen is_queued ps

-- The packets' sequence numbers follow one another from the n-th on, and their addresses from `a` on.
abbrev pub Numbered : ℕ → Packets → Type 0
Numbered n [] = Unit {0}
Numbered n (p ∷ ps) = (p.seq ≡ wrap n) × Numbered (suc n) ps

abbrev pub Addressed : ℕ → Packets → Type 0
Addressed a [] = Unit {0}
Addressed a (p ∷ ps) = (p.ptr ≡ a) × Addressed (suc a) ps

-- The sequence number comes before that of each reference.
abbrev pub Before : Seq → List PacketRef → Type 0
Before s rs = All (λ (r : PacketRef). (Seq.le s r.seq ≡ true) × (Seq.le r.seq s ≡ false)) rs

seq_before :
    (m n : ℕ)
    → m < n
    → n ≤ m + one_quarter
    → (Seq.le (wrap m) (wrap n) ≡ true) × (Seq.le (wrap n) (wrap m) ≡ false)
seq_before m n h k =
    ground (arith, le-wrap m n (omega arith) (omega arith), le-wrap n m (omega arith) (omega arith))

pub Before-chosen :
    (f : SentReliableStatus → Bool) (m n : ℕ) (ps : Packets)
    → Numbered n ps
    → m < n
    → n + length ps ≤ m + one_quarter + 1
    → Before (wrap m) (chosen f ps)
Before-chosen f m n [] h lt le = tt
Before-chosen f m n (p ∷ ps) h lt le = elim (Bool-cases (f p.status)) [
  | inl fits ↦ rw fits (
    rw h.0 (seq_before m n lt (omega arith)),
    Before-chosen f m (suc n) ps h.1 (omega arith) (omega arith),
  )
  | inr other ↦ rw other (Before-chosen f m (suc n) ps h.1 (omega arith) (omega arith))
]
