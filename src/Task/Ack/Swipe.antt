-- ===== src/Task/Ack/Swipe.antt =====
-- The received packets at the front of the queue are taken off.
use aggligator.Base.{
  ℕ, suc, ◌+◌, ◌-◌, ◌≤◌, ◌≡◌, false, refl, sym, ap, ◌∙◌, subst, [], ◌∷◌, length, arith, ge→ltb,
}
use native.Mathlib.Nat.{add-zero}
use aggligator.Base.Result.{ok}
use aggligator.Seq.{Seq}
use aggligator.Packets.{Packets, SentReliable, SentReliableStatus, status_size, sent_size}
use aggligator.Task.Ack.{swipe}
use aggligator.Packets.Queue.{is_queued, queued, Numbered, Addressed}
use aggligator.Task.Ack.Totals.{total, unacked_status, received_status}

-- The front packet was not received.
abbrev pub Outstanding : Packets → Type 0
Outstanding [] = Unit {0}
Outstanding (p ∷ ps) = received_status p.status ≡ 0

pub record Swiped (n : ℕ) (ps : Packets) (u : ℕ) (last : Seq) : Type 0 where
  pub k : ℕ
  pub rest : Packets
  pub left : ℕ
  pub last' : Seq
  pub runs : swipe ps u last ≡ ok (rest, left, last')
  pub numbered : Numbered (n + k) rest
  pub count : length ps ≡ k + length rest
  pub received : left ≡ total received_status rest
  pub unacked : total unacked_status rest ≡ total unacked_status ps
  pub sizes : (j : ℕ) → sent_size j rest ≡ sent_size j ps
  pub outstanding : Outstanding rest
  pub addressed : (a : ℕ) → Addressed a ps → Addressed (a + k) rest
  pub waiting : queued rest ≡ queued ps

swipe_received :
    (p : SentReliable) (ps : Packets) (u size : ℕ) (last : Seq)
    → p.status ≡ SentReliableStatus.received size
    → size ≤ u
    → swipe (p ∷ ps) u last ≡ swipe ps (u - size) p.seq
unfolding swipe
swipe_received p ps u size last is h = rw (is, ge→ltb u size h) refl

unqueued :
    (p : SentReliable) (ps : Packets) → is_queued p.status ≡ false → queued (p ∷ ps) ≡ queued ps
unqueued p ps off = rw off refl

pub swipe-Swiped :
    (n : ℕ) (ps : Packets) (u : ℕ) (last : Seq)
    → Numbered n ps
    → u ≡ total received_status ps
    → Swiped n ps u last
unfolding swipe sent_size status_size
swipe-Swiped n [] u last h e = record {
  k = 0;
  rest = [];
  left = u;
  last' = last;
  runs = refl;
  numbered = tt;
  count = omega arith;
  received = e;
  unacked = refl;
  sizes = λ j. refl;
  outstanding = tt;
  addressed = λ a h. tt;
  waiting = refl;
}
swipe-Swiped n (p ∷ ps) u last h e =
    go (λ u' k. swipe-Swiped (suc n) ps u' p.seq h.1 k) p.status refl
  where
    stays :
        received_status p.status ≡ 0
        → swipe (p ∷ ps) u last ≡ ok (p ∷ ps, u, p.seq)
        → Swiped n (p ∷ ps) u last
    stays z r = record {
      k = 0;
      rest = p ∷ ps;
      left = u;
      last' = p.seq;
      runs = r;
      numbered = rw (add-zero n) h;
      count = omega arith;
      received = e;
      unacked = refl;
      sizes = λ j. refl;
      outstanding = z;
      addressed = λ a k. rw (add-zero a) k;
      waiting = refl;
    }

    go :
        ((u' : ℕ) → u' ≡ total received_status ps → Swiped (suc n) ps u' p.seq)
        → (st : SentReliableStatus) → p.status ≡ st
        → Swiped n (p ∷ ps) u last
    go further (SentReliableStatus.sent i) is = stays (ap received_status is) (simp (is))
    go further (SentReliableStatus.resend_queued msg x) is =
        stays (ap received_status is) (simp (is))
    go further (SentReliableStatus.received size) is =
        let share : received_status p.status ≡ size = ap received_status is in
        let s = further (u - size) (omega (arith, e, share)) in
        record {
          k = suc s.k;
          rest = s.rest;
          left = s.left;
          last' = s.last';
          runs = swipe_received p ps u size last is (omega (arith, e, share)) ∙ s.runs;
          numbered = subst (λ (x : ℕ). Numbered x s.rest) (omega arith) s.numbered;
          count = omega (arith, s.count);
          received = s.received;
          unacked = omega (arith, s.unacked, ap unacked_status is);
          sizes = λ j. omega (arith, s.sizes j, ap (status_size j) is);
          outstanding = s.outstanding;
          addressed =
              λ a k. subst (λ (x : ℕ). Addressed x s.rest) (omega arith) (s.addressed (suc a) k.1);
          waiting = s.waiting ∙ sym (unqueued p ps (ap is_queued is));
        }
