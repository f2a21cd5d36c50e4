-- ===== src/Packets/Requeue.antt =====
-- Queueing a link's packets for resending keeps the resend queue sorted.
use aggligator.Base.{
  ℕ, suc, ◌≤◌, ◌≡◌, refl, ap, ◌∙◌, Bool, true, false, ◌||◌, ◌&&◌, not, ◌==◌, ◌+◌, leb, All,
  All-append, List, [], ◌∷◌, ◌++◌, length, arith, Bool-cases, inl, inr,
}
use aggligator.Seq
use aggligator.Seq.{one_quarter}
use aggligator.Seq.Order.{wrap, le-wrap}
use aggligator.Packets.{
  Packets, PacketRef, SentReliableStatus, ref, insert, sort_by_seq, all_refs, is_total, requeue,
  requeue_status, pushed, sent_on,
}
use aggligator.Packets.Queue.{is_queued, chosen, queued, Numbered, Addressed, Before, Before-chosen}

-- Insertion of a list, last element first.
insert_all : List PacketRef → List PacketRef → List PacketRef
insert_all [] xs = xs
insert_all (r ∷ rs) xs = insert r (insert_all rs xs)

sort_by_seq-append :
    (rs xs : List PacketRef) → sort_by_seq (rs ++ xs) ≡ insert_all rs (sort_by_seq xs)
unfolding sort_by_seq insert_all
sort_by_seq-append [] xs = refl
sort_by_seq-append (r ∷ rs) xs = ap (insert r) (sort_by_seq-append rs xs)

insert-Before : (r : PacketRef) (xs : List PacketRef) → Before r.seq xs → insert r xs ≡ r ∷ xs
unfolding insert
insert-Before r [] h = refl
insert-Before r (x ∷ xs) h = rw h.0.0 refl

-- What comes first stays first.
insert_all-Before :
    (x : PacketRef) (rs xs : List PacketRef)
    → Before x.seq rs
    → insert_all rs (x ∷ xs) ≡ x ∷ insert_all rs xs
unfolding insert_all insert
insert_all-Before x [] xs h = refl
insert_all-Before x (r ∷ rs) xs h = ap (insert r) (insert_all-Before x rs xs h.1) ∙ (rw h.0.1 refl)

pub pushed-chosen : (id : ℕ) (ps : Packets) → pushed id ps ≡ chosen (sent_on id) ps
unfolding pushed
pushed-chosen id [] = refl
pushed-chosen id (p ∷ ps) = rw (pushed-chosen id ps) refl

-- The references that were chosen are sorted already.
sort_by_seq-chosen :
    (f : SentReliableStatus → Bool) (n : ℕ) (ps : Packets)
    → Numbered n ps
    → length ps ≤ one_quarter
    → sort_by_seq (chosen f ps) ≡ chosen f ps
unfolding sort_by_seq
sort_by_seq-chosen f n [] h le = refl
sort_by_seq-chosen f n (p ∷ ps) h le = elim (Bool-cases (f p.status)) [
  | inl fits ↦ rw fits (
      ap (insert (ref p)) (sort_by_seq-chosen f (suc n) ps h.1 (omega arith))
      ∙ insert-Before (ref p) (chosen f ps)
          (rw h.0 (Before-chosen f n (suc n) ps h.1 (omega arith) (omega arith))))
  | inr other ↦ rw other (sort_by_seq-chosen f (suc n) ps h.1 (omega arith))
]

queued_after :
    (id : ℕ) (st : SentReliableStatus)
    → is_queued (requeue_status id st) ≡ is_queued st || sent_on id st
unfolding requeue_status sent_on
queued_after id (SentReliableStatus.sent i) = ground arith
queued_after id (SentReliableStatus.received size) = refl
queued_after id (SentReliableStatus.resend_queued msg l) = refl

pub length-requeue : (id : ℕ) (ps : Packets) → length (requeue id ps) ≡ length ps
unfolding requeue
length-requeue id [] = refl
length-requeue id (p ∷ ps) = ap suc (length-requeue id ps)

pub requeue-Numbered : (id n : ℕ) (ps : Packets) → Numbered n ps → Numbered n (requeue id ps)
unfolding requeue
requeue-Numbered id n [] h = tt
requeue-Numbered id n (p ∷ ps) h = (h.0, requeue-Numbered id (suc n) ps h.1)

pub requeue-Addressed : (id a : ℕ) (ps : Packets) → Addressed a ps → Addressed a (requeue id ps)
unfolding requeue
requeue-Addressed id a [] h = tt
requeue-Addressed id a (p ∷ ps) h = (h.0, requeue-Addressed id (suc a) ps h.1)

exclusive : (id : ℕ) (st : SentReliableStatus) → is_queued st ≡ true → sent_on id st ≡ false
unfolding sent_on
exclusive id (SentReliableStatus.sent i) h = cc
exclusive id (SentReliableStatus.received size) h = refl
exclusive id (SentReliableStatus.resend_queued msg l) h = refl

merged :
    (id n : ℕ) (ps : Packets)
    → Numbered n ps
    → length ps ≤ one_quarter
    → insert_all (queued ps) (chosen (sent_on id) ps) ≡ queued (requeue id ps)
unfolding insert_all requeue
merged id n [] h le = refl
merged id n (p ∷ ps) h le =
    let rest = merged id (suc n) ps h.1 (omega arith) in
    elim (Bool-cases (is_queued p.status)) [
      | inl waits ↦
          rw (waits, exclusive id p.status waits, queued_after id p.status, waits)
            (ap (insert (ref p)) rest
              ∙ insert-Before (ref p) (queued (requeue id ps)) (
                  rw h.0 (
                    Before-chosen is_queued n (suc n) (requeue id ps)
                      (requeue-Numbered id (suc n) ps h.1) (omega arith)
                      (omega (arith, length-requeue id ps)))))
      | inr other ↦ elim (Bool-cases (sent_on id p.status)) [
        | inl on ↦
            rw (other, on, queued_after id p.status, other, on)
              (insert_all-Before (ref p) (queued ps) (chosen (sent_on id) ps)
                  (rw h.0 (Before-chosen is_queued n (suc n) ps h.1 (omega arith) (omega arith)))
                ∙ ap (◌∷◌ (ref p)) rest)
        | inr off ↦ rw (other, off, queued_after id p.status, other, off) rest
      ]
    ]

-- The packets of the link join those that were queued before, in order.
pub sort-queued :
    (id n : ℕ) (ps : Packets)
    → Numbered n ps
    → length ps ≤ one_quarter
    → sort_by_seq (queued ps ++ pushed id ps) ≡ queued (requeue id ps)
sort-queued id n ps h le =
    sort_by_seq-append (queued ps) (pushed id ps)
    ∙ ap (λ x. insert_all (queued ps) (sort_by_seq x)) (pushed-chosen id ps)
    ∙ ap (insert_all (queued ps)) (sort_by_seq-chosen (sent_on id) n ps h le)
    ∙ merged id n ps h le

-- The reference is to one of a quarter of the numbers, from the n-th on.
abbrev Near : ℕ → PacketRef → Type 0
Near n r = (k : ℕ) × (n ≤ k) × (k ≤ n + one_quarter) × (r.seq ≡ wrap k)

all_refs-true :
    (n : ℕ) (f : PacketRef → Bool) (rs : List PacketRef)
    → All (Near n) rs
    → ((r : PacketRef) → Near n r → f r ≡ true)
    → all_refs f rs ≡ true
unfolding all_refs
all_refs-true n f [] h t = refl
all_refs-true n f (r ∷ rs) h t = rw (t r h.0, all_refs-true n f rs h.1 t) refl

chosen-Near :
    (f : SentReliableStatus → Bool) (n m : ℕ) (ps : Packets)
    → Numbered m ps
    → n ≤ m
    → m + length ps ≤ n + one_quarter
    → All (Near n) (chosen f ps)
chosen-Near f n m [] h ge le = tt
chosen-Near f n m (p ∷ ps) h ge le = elim (Bool-cases (f p.status)) [
  | inl fits ↦
      rw fits
        ((m, ge, omega arith, h.0), chosen-Near f n (suc m) ps h.1 (omega arith) (omega arith))
  | inr other ↦ rw other (chosen-Near f n (suc m) ps h.1 (omega arith) (omega arith))
]

le-Near : (n : ℕ) (x y : PacketRef) (a : Near n x) (b : Near n y) → Seq.le x.seq y.seq ≡ leb a.0 b.0
le-Near n x y (i, ge, le, e) (j, ge', le', e') =
    rw (e, e') (le-wrap i j (omega arith) (omega arith))

same-Near :
    (n : ℕ) (x y : PacketRef) (a : Near n x) (b : Near n y)
    → (not (leb a.0 b.0 && leb b.0 a.0) || x.seq == y.seq) ≡ true
same-Near n x y (i, ge, le, e) (j, ge', le', e') = rw (e, e') (ground arith)

both : (x y z : Bool) → x ≡ true → y ≡ true → z ≡ true → (x && y && z) ≡ true
both x y z h k l = ground arith

-- The order of references near each other is total.
is_total-Near : (n : ℕ) (rs : List PacketRef) → All (Near n) rs → is_total rs ≡ true
unfolding is_total
is_total-Near n rs near = all_refs-true n _ rs near (λ x a. all_refs-true n _ rs near (λ y b.
    both (Seq.le x.seq y.seq || Seq.le y.seq x.seq)
      (not (Seq.le x.seq y.seq && Seq.le y.seq x.seq) || x.seq == y.seq) _
      (rw (le-Near n x y a b, le-Near n y x b a) (ground arith))
      (rw (le-Near n x y a b, le-Near n y x b a) (same-Near n x y a b))
      (all_refs-true n (λ z. not (Seq.le x.seq y.seq && Seq.le y.seq z.seq) || Seq.le x.seq z.seq)
        rs near
        (λ z c. rw (le-Near n x y a b, le-Near n y z b c, le-Near n x z a c) (ground arith)))))

pub is_total-queued :
    (id n : ℕ) (ps : Packets)
    → Numbered n ps
    → length ps ≤ one_quarter
    → is_total (queued ps ++ pushed id ps) ≡ true
is_total-queued id n ps h le = rw (pushed-chosen id ps) (
    is_total-Near n _ (
      All-append (Near n) (queued ps) (chosen (sent_on id) ps)
        (chosen-Near is_queued n n ps h (omega arith) (omega arith))
        (chosen-Near (sent_on id) n n ps h (omega arith) (omega arith))))
