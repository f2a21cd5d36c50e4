-- ===== src/Task/Send/Unchanged.antt =====
-- Marking packets as flushed changes nothing that is counted, and neither does handing a message to a link.
use aggligator.Base.{
  ℕ, suc, ◌≡◌, refl, sym, true, false, ap, subst, ◌∙◌, Option, none, some, List, [], ◌∷◌, length,
  arith, ◌==◌, Bool-cases, Option-cases, inl, inr,
}
use aggligator.Packets.{
  Packets, SentInfo, SentReliable, SentReliableStatus, status_size, sent_size, find, set_status,
  flush_step, mark_flushed,
}
use aggligator.Packets.Queue.{Numbered, is_queued, queued, Addressed}
use aggligator.Task.Ack.Totals.{total, unacked_status, received_status}

pub record Unchanged (ps ps' : Packets) : Type 0 where
  pub count : length ps' ≡ length ps
  pub numbered : (n : ℕ) → Numbered n ps → Numbered n ps'
  pub unacked : total unacked_status ps' ≡ total unacked_status ps
  pub received : total received_status ps' ≡ total received_status ps
  pub sizes : (j : ℕ) → sent_size j ps' ≡ sent_size j ps
  pub addressed : (a : ℕ) → Addressed a ps → Addressed a ps'
  pub queue : queued ps' ≡ queued ps
  pub waits :
      (r : ℕ) (p : SentReliable)
      → find r ps ≡ some p
      → is_queued p.status ≡ true
      → find r ps' ≡ some p

pub same : (ps : Packets) → Unchanged ps ps
same ps = record {
  count = refl;
  numbered = λ n h. h;
  unacked = refl;
  received = refl;
  sizes = λ j. refl;
  addressed = λ a h. h;
  queue = refl;
  waits = λ r p e w. e;
}

pub trans : {ps qs rs : Packets} → Unchanged ps qs → Unchanged qs rs → Unchanged ps rs
trans a b = record {
  count = b.count ∙ a.count;
  numbered = λ n h. b.numbered n (a.numbered n h);
  unacked = b.unacked ∙ a.unacked;
  received = b.received ∙ a.received;
  sizes = λ j. b.sizes j ∙ a.sizes j;
  addressed = λ n h. b.addressed n (a.addressed n h);
  queue = b.queue ∙ a.queue;
  waits = λ r p e w. b.waits r p (a.waits r p e w) w;
}

abbrev flushed_at : SentInfo → Option ℕ → SentReliableStatus
flushed_at i time = SentReliableStatus.sent (record i { flushed = time })

-- A waiting packet is still found where another packet is marked.
here_waits :
    (r : ℕ) (q : SentReliable) (time : Option ℕ) (i : SentInfo) (x : SentReliable) (ps : Packets)
    → x.status ≡ SentReliableStatus.sent i
    → find r (x ∷ ps) ≡ some q
    → is_queued q.status ≡ true
    → find r (record x { status = flushed_at i time } ∷ ps) ≡ some q
unfolding find
here_waits r q time i x ps e k w = elim (Bool-cases (x.ptr == r)) [
  | inl this ↦
      let z : x ≡ q = (let k' = rw this at k in cc) in
      let off : is_queued q.status ≡ false =
        ap (λ (y : SentReliable). is_queued y.status) (sym z) ∙ ap is_queued e in
      absurd (let bad : true ≡ false = sym w ∙ off in cc)
  | inr other ↦ rw other (rw other at k)
]

further_waits :
    (r : ℕ) (q x : SentReliable) (ps ps' : Packets)
    → (find r ps ≡ some q → is_queued q.status ≡ true → find r ps' ≡ some q)
    → find r (x ∷ ps) ≡ some q
    → is_queued q.status ≡ true
    → find r (x ∷ ps') ≡ some q
unfolding find
further_waits r q x ps ps' h k w = elim (Bool-cases (x.ptr == r)) [
  | inl this ↦ rw this (rw this at k)
  | inr other ↦ rw other (h (rw other at k) w)
]

-- The flush mark of the packet that is referred to.
mark-Unchanged :
    (a : ℕ) (time : Option ℕ) (i : SentInfo) (p : SentReliable) (ps : Packets)
    → find a ps ≡ some p
    → p.status ≡ SentReliableStatus.sent i
    → Unchanged ps (set_status a (flushed_at i time) ps)
unfolding find set_status sent_size status_size
mark-Unchanged a time i p [] h is = same []
mark-Unchanged a time i p (x ∷ ps) h is = elim (Bool-cases (x.ptr == a)) [
  | inl here ↦
      let e : x.status ≡ SentReliableStatus.sent i = (let k = rw here at h in cc) in
      rw here (record {
        count = refl;
        numbered = λ n k. k;
        unacked = omega (arith, ap unacked_status e);
        received = omega (arith, ap received_status e);
        sizes = λ j. omega (arith, ap (status_size j) e);
        addressed = λ n k. k;
        queue = rw e refl;
        waits = λ r q k w. here_waits r q time i x ps e k w;
      })
  | inr further ↦
      let u = mark-Unchanged a time i p ps (rw further at h) is in
      rw further (record {
        count = ap suc u.count;
        numbered = λ n k. (k.0, u.numbered (suc n) k.1);
        unacked = omega (arith, u.unacked);
        received = omega (arith, u.received);
        sizes = λ j. omega (arith, u.sizes j);
        addressed = λ n k. (k.0, u.addressed (suc n) k.1);
        queue = rw u.queue refl;
        waits = λ r q k w.
            further_waits r q x ps (set_status a (flushed_at i time) ps) (u.waits r q) k w;
      })
]

same_result : {ps rs qs : Packets} → some rs ≡ some qs → Unchanged ps rs → Unchanged ps qs
same_result {ps = ps} {rs = rs} {qs = qs} e u = let k : rs ≡ qs = cc in subst (Unchanged ps) k u

sent-Unchanged :
    (now lid a : ℕ) (p : SentReliable) (i : SentInfo) (ps qs : Packets)
    → find a ps ≡ some p
    → p.status ≡ SentReliableStatus.sent i
    → flush_step now lid a (some p) ps ≡ some qs
    → Unchanged ps qs
unfolding flush_step
sent-Unchanged now lid a p i ps qs e is k = elim (Bool-cases (i.link == lid)) [
  | inr elsewhere ↦ same_result (rw (is, elsewhere) at k) (same ps)
  | inl here ↦ elim (Option-cases i.flushed) [
    | inl unmarked ↦
        same_result (rw (is, here, unmarked) at k) (mark-Unchanged a (some now) i p ps e is)
    | inr (time, marked) ↦ absurd (let k' = rw (is, here, marked) at k in cc)
  ]
]

step-Unchanged :
    (now lid a : ℕ) (o : Option SentReliable) (ps qs : Packets)
    → find a ps ≡ o
    → flush_step now lid a o ps ≡ some qs
    → Unchanged ps qs
unfolding flush_step
step-Unchanged now lid a none ps qs e k = same_result k (same ps)
step-Unchanged now lid a (some p) ps qs e k = go p.status refl
  where
    go : (st : SentReliableStatus) → p.status ≡ st → Unchanged ps qs
    go (SentReliableStatus.sent i) is = sent-Unchanged now lid a p i ps qs e is k
    go (SentReliableStatus.received size) is = same_result (rw is at k) (same ps)
    go (SentReliableStatus.resend_queued msg l) is = same_result (rw is at k) (same ps)

pub mark_flushed-Unchanged :
    (now lid : ℕ) (refs : List ℕ) (ps : Packets) → Unchanged ps (mark_flushed now lid refs ps)
unfolding mark_flushed
mark_flushed-Unchanged now lid [] ps = same ps
mark_flushed-Unchanged now lid (a ∷ refs) ps =
    go (λ qs. mark_flushed-Unchanged now lid refs qs) (flush_step now lid a (find a ps) ps) refl
  where
    go :
        ((qs : Packets) → Unchanged qs (mark_flushed now lid refs qs))
        → (o : Option Packets) → flush_step now lid a (find a ps) ps ≡ o
        → Unchanged ps (elim o [ none ↦ ps | some qs ↦ mark_flushed now lid refs qs ])
    go rest none e = same ps
    go rest (some qs) e = trans (step-Unchanged now lid a (find a ps) ps qs refl e) (rest qs)
