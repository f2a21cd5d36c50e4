-- ===== src/Task/Links/Unconfirm.antt =====
-- `unconfirm_link` and `remove_link` take the link's packets back and keep the sums.
use aggligator.Base.{
  ℕ, zero, suc, ◌≤◌, ◌++◌, true, ◌+◌, ◌-◌, ◌≡◌, ◌≢◌, refl, sym, ap, ◌∙◌, Option, none, some, List,
  [], ◌∷◌, arith, set, map, length, ge→ltb,
}
use aggligator.Base.Result.{ok, err}
use aggligator.Fault.{Run}
use aggligator.Seq.Order.{wrap}
use aggligator.Packets.{
  Packets, SentReliableStatus, pushed, is_total, status_size, sent_size, requeue, requeue_status,
}
use aggligator.Link.{
  LinkInt, LinkTest, NotWorkingReason, start_flush, clean_txed_packets, reset, set_unconfirmed,
}
use aggligator.Task.Defs.{Task, TxState, link_at, flatten, without}
use aggligator.Packets.Queue.{Numbered, queued}
use aggligator.Packets.Requeue.{is_total-queued}
use aggligator.Seq.{one_quarter}
use aggligator.Task.Ack.Totals.{total, unacked_status, received_status}
use aggligator.Task.Ack.Kept.{Counted}
use aggligator.Task.Ack.Acknowledge.{Accounted, links_after}
use aggligator.Task.Send.{flush_link}
use aggligator.Task.Send.Unchanged.{Unchanged}
use aggligator.Task.Send.Counts.{start_flush-Keeps}
use aggligator.Task.Links.{retest, requeue_packets, unconfirm_link}

-- A packet that is queued for resending is still unacknowledged, and no longer counts for the link.
requeue_unacked :
    (id : ℕ) (st : SentReliableStatus) → unacked_status (requeue_status id st) ≡ unacked_status st
unfolding requeue_status
requeue_unacked id (SentReliableStatus.sent i) = ground arith
requeue_unacked id (SentReliableStatus.received size) = refl
requeue_unacked id (SentReliableStatus.resend_queued msg l) = refl

requeue_received :
    (id : ℕ) (st : SentReliableStatus) → received_status (requeue_status id st) ≡ received_status st
unfolding requeue_status
requeue_received id (SentReliableStatus.sent i) = ground arith
requeue_received id (SentReliableStatus.received size) = refl
requeue_received id (SentReliableStatus.resend_queued msg l) = refl

requeue_own : (id : ℕ) (st : SentReliableStatus) → status_size id (requeue_status id st) ≡ 0
unfolding requeue_status status_size
requeue_own id (SentReliableStatus.sent i) = ground arith
requeue_own id (SentReliableStatus.received size) = refl
requeue_own id (SentReliableStatus.resend_queued msg l) = refl

requeue_other :
    (id j : ℕ) (st : SentReliableStatus)
    → j ≢ id
    → status_size j (requeue_status id st) ≡ status_size j st
unfolding requeue_status status_size
requeue_other id j (SentReliableStatus.sent i) h = ground arith
requeue_other id j (SentReliableStatus.received size) h = refl
requeue_other id j (SentReliableStatus.resend_queued msg l) h = refl

-- The same of all packets.
record Requeued (id : ℕ) (ps : Packets) : Type 0 where
  count : length (requeue id ps) ≡ length ps
  numbered : (n : ℕ) → Numbered n ps → Numbered n (requeue id ps)
  unacked : total unacked_status (requeue id ps) ≡ total unacked_status ps
  received : total received_status (requeue id ps) ≡ total received_status ps
  own : sent_size id (requeue id ps) ≡ 0
  others : (j : ℕ) → j ≢ id → sent_size j (requeue id ps) ≡ sent_size j ps

requeue-Requeued : (id : ℕ) (ps : Packets) → Requeued id ps
unfolding requeue sent_size
requeue-Requeued id [] = record {
  count = refl;
  numbered = λ n h. h;
  unacked = refl;
  received = refl;
  own = refl;
  others = λ j h. refl;
}
requeue-Requeued id (p ∷ ps) =
    let r = requeue-Requeued id ps in
    record {
      count = ap suc r.count;
      numbered = λ n h. (h.0, r.numbered (suc n) h.1);
      unacked = omega (arith, r.unacked, requeue_unacked id p.status);
      received = omega (arith, r.received, requeue_received id p.status);
      own = omega (arith, r.own, requeue_own id p.status);
      others = λ j h. omega (arith, r.others j h, requeue_other id j p.status h);
    }

requeue_packets-Counted : (n id : ℕ) (s : TxState) → Counted n s → Counted n (requeue_packets id s)
unfolding requeue_packets
requeue_packets-Counted n id s c =
    let r = requeue-Requeued id s.txed_packets in
    record {
      numbered = r.numbered n c.numbered;
      next = c.next ∙ ap (λ (x : ℕ). wrap (n + x)) (sym r.count);
      short = omega (arith, r.count, c.short);
      unacked = omega (arith, r.unacked, c.unacked);
      received = omega (arith, r.received, c.received);
    }

pub flushed-Counted :
    (n : ℕ) (s : TxState) (ps : Packets)
    → Counted n s
    → Unchanged s.txed_packets ps
    → Counted n (record s { txed_packets = ps })
flushed-Counted n s ps c u = record {
  numbered = u.numbered n c.numbered;
  next = c.next ∙ ap (λ (x : ℕ). wrap (n + x)) (sym u.count);
  short = omega (arith, u.count, c.short);
  unacked = omega (arith, u.unacked, c.unacked);
  received = omega (arith, u.received, c.received);
}

module _ {TX : Type 0} where
  pub link_at_put :
      (ls : List (Option (LinkInt TX))) (id : ℕ) (l l' : LinkInt TX)
      → link_at ls id ≡ ok l
      → link_at (set ls id (some l')) id ≡ ok l'
  link_at_put [] id l l' e = cc
  link_at_put (x ∷ ls) zero l l' e = refl
  link_at_put (x ∷ ls) (suc id) l l' e = link_at_put ls id l l' e

  abbrev data_of : Run (LinkInt TX) → ℕ
  data_of (ok l) = l.txed_unacked_data
  data_of (err f) = 0

  retest-data : (k : LinkInt TX) → data_of (flatten (some (retest (some k)))) ≡ k.txed_unacked_data
  unfolding retest
  retest-data k = go k.test refl
    where
      go :
          (x : LinkTest)
          → k.test ≡ x
          → data_of (flatten (some (retest (some k)))) ≡ k.txed_unacked_data
      go (LinkTest.failed when) is = rw is refl
      go LinkTest.inactive is = rw is refl
      go LinkTest.in_progress is = rw is refl

  no_link : {l : LinkInt TX} → flatten (some (retest none)) ≡ ok l → ⊥
  unfolding retest
  no_link e = cc

  map-retest :
      (ls : List (Option (LinkInt TX))) (j : ℕ) (l : LinkInt TX)
      → link_at (map retest ls) j ≡ ok l
      → (k : LinkInt TX) × (link_at ls j ≡ ok k) × (l.txed_unacked_data ≡ k.txed_unacked_data)
  map-retest [] j l e = cc
  map-retest (none ∷ ls) zero l e = absurd (no_link e)
  map-retest (some k ∷ ls) zero l e = (k, refl, sym (ap data_of e) ∙ retest-data k)
  map-retest (x ∷ ls) (suc j) l e = map-retest ls j l e

  -- A link that is there stays there.
  abbrev pub Exists : List (Option (LinkInt TX)) → ℕ → Type 0
  Exists ls j = (k : LinkInt TX) × (link_at ls j ≡ ok k)

  set-Exists :
      (ls : List (Option (LinkInt TX))) (id j : ℕ) (l : LinkInt TX)
      → Exists ls j
      → Exists (set ls id (some l)) j
  set-Exists [] id j l e = e
  set-Exists (x ∷ ls) zero zero l e = (l, refl)
  set-Exists (x ∷ ls) zero (suc j) l e = e
  set-Exists (x ∷ ls) (suc id) zero l e = e
  set-Exists (x ∷ ls) (suc id) (suc j) l e = set-Exists ls id j l e

  map-retest-Exists :
      (ls : List (Option (LinkInt TX))) (j : ℕ) → Exists ls j → Exists (map retest ls) j
  unfolding retest
  map-retest-Exists [] j e = e
  map-retest-Exists (none ∷ ls) zero (k, e) = cc
  map-retest-Exists (some l ∷ ls) zero e = (_, refl)
  map-retest-Exists (x ∷ ls) (suc j) e = map-retest-Exists ls j e

  -- What unconfirming a link does: it ends without a panic.
  pub record Unconfirmed (n now id : ℕ) (reason : NotWorkingReason) (t : Task TX) : Type 0 where
    pub after : Task TX
    pub runs : unconfirm_link now id reason t ≡ ok after
    pub accounted : Accounted n after
    pub taken_back : sent_size id after.txed_packets ≡ 0
    pub kept : length after.txed_packets ≡ length t.txed_packets
    pub there : (j : ℕ) → Exists t.links j → Exists after.links j
    pub flushed : Packets
    pub unchanged : Unchanged t.txed_packets flushed
    pub requeued :
        after.tx_state ≡ requeue_packets id (record t.tx_state { txed_packets = flushed })

  -- A link that exists is unconfirmed without a panic, when the resend queue holds the packets that
  -- wait to be sent again, oldest first, and at most a quarter of the sequence numbers are in use:
  -- all its unacknowledged data is taken off its sum and queued for resending, no packet is lost,
  -- and the numbers of the packets and the sums of the task and of every link stay right.
  pub unconfirm_link-Accounted :
      (n now id : ℕ) (reason : NotWorkingReason) (l : LinkInt TX) (t : Task TX)
      → Accounted n t
      → t.resend_queue ≡ queued t.txed_packets
      → length t.txed_packets ≤ one_quarter
      → link_at t.links id ≡ ok l
      → Unconfirmed n now id reason t
  unfolding unconfirm_link flush_link clean_txed_packets requeue_packets
  unconfirm_link-Accounted n now id reason l t acc q le here =
      let f = start_flush-Keeps now l t.txed_packets in
      let l1 : LinkInt TX = (start_flush now l t.txed_packets).0 in
      let ps : Packets = (start_flush now l t.txed_packets).1 in
      let r = requeue-Requeued id ps in
      let sorts : is_total (t.resend_queue ++ pushed id ps) ≡ true =
        ap (λ rs. is_total (rs ++ pushed id ps)) (q ∙ sym f.0.queue)
        ∙ is_total-queued id n ps (f.0.numbered n acc.counted.numbered)
            (omega (arith, f.0.count)) in
      let own : l1.txed_unacked_data ≡ sent_size id ps =
        f.1 ∙ acc.links id l here ∙ sym (f.0.sizes id) in
      let l2 : LinkInt TX = record (reset (set_unconfirmed (some (now, reason)) l1)) {
        txed_unacked_data = l1.txed_unacked_data - sent_size id ps;
      } in
      let l3 : LinkInt TX = clean_txed_packets (requeue id ps) l2 in
      let ls : List (Option (LinkInt TX)) = set (set t.links id (some l1)) id (some l3) in
      let s : TxState = requeue_packets id (record t.tx_state { txed_packets = ps }) in
      let flushed =
        links_after id t.links l1 t.txed_packets ps acc.links own (λ j h. f.0.sizes j) in
      let before =
        links_after id (set t.links id (some l1)) l3 ps (requeue id ps) flushed
          (omega (arith, own, r.own)) r.others in
      record {
        after = record t {
          links = map retest ls;
          idle_links = without id (without id t.idle_links);
          unflushed_links = without id t.unflushed_links;
          tx_state = s;
        };
        runs =
            rw
              (
                here,
                sorts,
                link_at_put t.links id l l1 here,
                ge→ltb l1.txed_unacked_data (sent_size id ps) (omega (arith, own)),
              )
              refl;
        accounted = record {
          counted =
              requeue_packets-Counted n id (record t.tx_state { txed_packets = ps })
                (flushed-Counted n t.tx_state ps acc.counted f.0);
          links = λ j k at. let (k0, at0, d) = map-retest ls j k at in d ∙ before j k0 at0;
        };
        taken_back = r.own;
        kept = r.count ∙ f.0.count;
        there = λ j e.
            map-retest-Exists ls j
              (set-Exists (set t.links id (some l1)) id j l3 (set-Exists t.links id j l1 e));
        flushed = ps;
        unchanged = f.0;
        requeued = refl;
      }
