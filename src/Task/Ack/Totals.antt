-- ===== src/Task/Ack/Totals.antt =====
-- The sums that the task and its links keep over the packets, and one packet's share in them.
use aggligator.Base.{
  ℕ, zero, suc, ◌+◌, ◌≤◌, ◌≡◌, refl, ap, ◌∙◌, some, [], ◌∷◌, length, get_elem?, set, arith,
}
use aggligator.Seq.Order.{wrap}
use aggligator.Packets.Queue.{Numbered, Addressed}
use aggligator.Packets.{
  Packets, SentReliable, SentReliableStatus, data_size, status_size, sent_size,
}

abbrev pub total : (SentReliableStatus → ℕ) → Packets → ℕ
total f [] = 0
total f (p ∷ ps) = f p.status + total f ps

-- The data of a packet that was not received, and of one that was.
abbrev pub unacked_status : SentReliableStatus → ℕ
unacked_status (SentReliableStatus.sent i) = data_size i.msg
unacked_status (SentReliableStatus.received size) = 0
unacked_status (SentReliableStatus.resend_queued msg l) = data_size msg

abbrev pub received_status : SentReliableStatus → ℕ
received_status (SentReliableStatus.sent i) = 0
received_status (SentReliableStatus.received size) = size
received_status (SentReliableStatus.resend_queued msg l) = 0

pub sent_size-total : (id : ℕ) (ps : Packets) → sent_size id ps ≡ total (status_size id) ps
unfolding sent_size
sent_size-total id [] = refl
sent_size-total id (p ∷ ps) = ap (◌+◌ (status_size id p.status)) (sent_size-total id ps)

module _ (f : SentReliableStatus → ℕ) where
  pub total-set :
      (ps : Packets) (i : ℕ) (p p' : SentReliable)
      → get_elem? ps i ≡ some p
      → total f (set ps i p') + f p.status ≡ total f ps + f p'.status
  total-set [] i p p' h = cc
  total-set (x ∷ ps) zero p p' h = grind arith
  total-set (x ∷ ps) (suc i) p p' h = omega (arith, total-set ps i p p' h)

  pub total-get :
      (ps : Packets) (i : ℕ) (p : SentReliable) → get_elem? ps i ≡ some p → f p.status ≤ total f ps
  total-get [] i p h = cc
  total-get (x ∷ ps) zero p h = grind arith
  total-get (x ∷ ps) (suc i) p h = omega (arith, total-get ps i p h)

pub Numbered-get :
    (n : ℕ) (ps : Packets) (i : ℕ) (p : SentReliable)
    → Numbered n ps
    → get_elem? ps i ≡ some p
    → p.seq ≡ wrap (n + i)
Numbered-get n [] i p h e = cc
Numbered-get n (x ∷ ps) zero p h e = grind arith
Numbered-get n (x ∷ ps) (suc i) p h e = Numbered-get (suc n) ps i p h.1 e ∙ ap wrap (omega arith)

pub Numbered-set :
    (n : ℕ) (ps : Packets) (i : ℕ) (p : SentReliable) (st : SentReliableStatus)
    → Numbered n ps
    → get_elem? ps i ≡ some p
    → Numbered n (set ps i (record p { status = st }))
Numbered-set n [] i p st h e = tt
Numbered-set n (x ∷ ps) zero p st h e = (grind arith, h.1)
Numbered-set n (x ∷ ps) (suc i) p st h e = (h.0, Numbered-set (suc n) ps i p st h.1 e)

pub length-set : (ps : Packets) (i : ℕ) (p : SentReliable) → length (set ps i p) ≡ length ps
length-set [] i p = refl
length-set (x ∷ ps) zero p = refl
length-set (x ∷ ps) (suc i) p = ap suc (length-set ps i p)

pub Addressed-set :
    (a : ℕ) (ps : Packets) (i : ℕ) (p : SentReliable) (st : SentReliableStatus)
    → Addressed a ps
    → get_elem? ps i ≡ some p
    → Addressed a (set ps i (record p { status = st }))
Addressed-set a [] i p st h e = tt
Addressed-set a (x ∷ ps) zero p st h e = (grind arith, h.1)
Addressed-set a (x ∷ ps) (suc i) p st h e = (h.0, Addressed-set (suc a) ps i p st h.1 e)
