-- ===== src/Task/Testing/Confirms.antt =====
-- When the test of a link confirms it.
use aggligator.Base.{
  ℕ, zero, suc, ◌+◌, ◌-◌, ◌/◌, ◌≤◌, ◌≡◌, refl, sym, ap, subst, ◌∙◌, min, Bool, true, false, Option,
  none, some, ltb, ◌⊎◌, inl, inr, Bool-cases, arith, if◌then◌else◌, is_none, is_some, get_elem?,
  List, [],
}
use aggligator.Base.Result.{ok, err, ◌>>=◌}
use aggligator.Fault.{Run}
use aggligator.Bytes.{Bytes, ByteOrder}
use aggligator.Msg.{LinkMsg}
use aggligator.Msg.Write.{encode}
use aggligator.Link.{Sink, PollReady, LinkInt, LinkTest, NotWorkingReason, link_cfg, send_test_data}
use aggligator.Link.Send.{taken, test_packet, test_round, test_loop, unwrap_encoded}
use aggligator.Task.Defs.{Task, link_at}
use aggligator.Task.Ack.Acknowledge.{link_at-set}
use aggligator.Task.Testing.{
  Step, stepped, retest_state, is_ack_timeout, others_slow, step_slot, link_testing_step, postpone,
  roundtrip_limit, in_progress_step, start_test, inactive_step, test_step, allow_retest,
}

module _ {TX : Type 0} where
  -- Why a link may be confirmed: the ping behind the test data was answered within half the longest ack
  -- timeout, or it had a timeout after which it needs no test.
  abbrev pub Confirmable : NotWorkingReason → LinkInt TX → Type 0
  Confirmable reason l =
      ((l.test ≡ LinkTest.in_progress)
        × (l.current_ping_sent ≡ none)
        × (l.send_ping ≡ false)
        × (l.roundtrip ≤ (link_cfg l).ack_timeout_max / 2))
      ⊎ ((is_ack_timeout reason ≡ true) × ((link_cfg l).test_after_ack_timeout ≡ false))

  limit_le :
      (ping : Option ℕ) (slow : Bool) (l : LinkInt TX)
      → roundtrip_limit ping slow l ≤ (link_cfg l).ack_timeout_max / 2
  unfolding roundtrip_limit
  limit_le ping slow l = ground arith

  in_progress-Confirmable :
      (now : ℕ) (ping : Option ℕ) (slow : Bool) (reason : NotWorkingReason) (since : ℕ)
      (l : LinkInt TX)
      → l.test ≡ LinkTest.in_progress
      → l.unconfirmed ≡ some (since, reason)
      → (in_progress_step now ping slow l).1.unconfirmed ≡ none
      → Confirmable reason l
  unfolding in_progress_step
  in_progress-Confirmable now ping slow reason since l t u h = ground (arith, limit_le ping slow l)

abbrev Leaves : {TX : Type 0} → Option (ℕ × NotWorkingReason) → Run (ℕ × LinkInt TX) → Type 0
Leaves u (ok (n, l)) = l.unconfirmed ≡ u
Leaves u (err f) = Unit {0}

unconfirmed_of : {TX : Type 0} → Run (Step TX) → Option (ℕ × NotWorkingReason)
unconfirmed_of (ok r) = r.1.unconfirmed
unconfirmed_of (err f) = none

links_of : {TX : Type 0} → Run (Option ℕ × Task TX) → List (Option (LinkInt TX))
links_of (ok (due, t)) = t.links
links_of (err f) = []

started :
    {TX : Type 0} (u : Option (ℕ × NotWorkingReason)) (p : Run (ℕ × LinkInt TX))
    → Leaves u p
    → {r : Step TX}
    → (do (n, l) ← p; ok (none, record l { send_ping = true; test = LinkTest.in_progress }, false))
      ≡ ok r
    → r.1.unconfirmed ≡ u
unfolding unconfirmed_of
started u (ok (n, l)) h e = sym (ap unconfirmed_of e) ∙ h
started u (err f) h e = cc

retest_progress :
    (now interval : ℕ) (st : LinkTest)
    → retest_state now interval st ≡ LinkTest.in_progress
    → st ≡ LinkTest.in_progress
unfolding retest_state
retest_progress now interval (LinkTest.failed when) e = ground (arith, e)
retest_progress now interval LinkTest.inactive e = cc
retest_progress now interval LinkTest.in_progress e = refl

-- A retest that becomes possible does not confirm a link by itself.
retest-Confirmable :
    {TX : Type 0} (now : ℕ) (reason : NotWorkingReason) (l : LinkInt TX)
    → Confirmable reason (allow_retest now l)
    → Confirmable reason l
unfolding allow_retest
retest-Confirmable now reason l (inl (t, p, q, r)) =
    inl (retest_progress now (link_cfg l).retest_interval l.test t, p, q, r)
retest-Confirmable now reason l (inr h) = inr h

module _ {TX : Type 0} where
  taken-Leaves :
      (k : ℕ → LinkInt TX → Run (ℕ × LinkInt TX)) (sent size : ℕ) (l : LinkInt TX) (r : TX × Bool)
      → ((n : ℕ) (l' : LinkInt TX) → Leaves l'.unconfirmed (k n l'))
      → Leaves l.unconfirmed (taken k sent size l r)
  unfolding taken
  taken-Leaves k sent size l (tx, true) h = h (sent + size) (record l { tx = tx })
  taken-Leaves k sent size l (tx, false) h = refl

module _ {TX : Type 0} ⦃s : Sink TX⦄ ⦃o : ByteOrder⦄ where
  test_round-Leaves :
      (k : ℕ → LinkInt TX → Run (ℕ × LinkInt TX)) (size limit sent : ℕ) (l : LinkInt TX)
      (p : PollReady)
      → ((n : ℕ) (l' : LinkInt TX) → Leaves l'.unconfirmed (k n l'))
      → Leaves l.unconfirmed (test_round k size limit sent l p)
  unfolding test_round test_packet
  test_round-Leaves k size limit sent l PollReady.pending h = refl
  test_round-Leaves k size limit sent l PollReady.failed h = refl
  test_round-Leaves k size limit sent l PollReady.ready h =
      go (unwrap_encoded (encode (LinkMsg.test_data part)))
    where
      part : ℕ
      part = min size (limit - sent)

      go :
          (r : Run Bytes)
          → Leaves l.unconfirmed (r >>= λ b. taken k sent part l (s.start_send l.tx b))
      go (ok b) = taken-Leaves k sent part l (s.start_send l.tx b) h
      go (err f) = tt

  test_loop-Leaves :
      (fuel size limit sent : ℕ) (l : LinkInt TX)
      → Leaves l.unconfirmed (test_loop fuel size limit sent l)
  unfolding test_loop
  test_loop-Leaves zero size limit sent l = refl
  test_loop-Leaves (suc fuel) size limit sent l = elim (Bool-cases (ltb sent limit)) [
    | inl e ↦
        rw (test_loop, e, Leaves)
          (test_round-Leaves (test_loop fuel size limit) size limit sent l (s.poll_ready l.tx)
            (test_loop-Leaves fuel size limit))
    | inr e ↦ rw (test_loop, e, Leaves) refl
  ]

  send_test_data-Leaves :
      (now size limit : ℕ) (l : LinkInt TX) → Leaves l.unconfirmed (send_test_data now size limit l)
  unfolding send_test_data
  send_test_data-Leaves now size limit l = go (is_none l.tx_data) l.tx_failed refl refl
    where
      go :
          (b c : Bool)
          → is_none l.tx_data ≡ b
          → l.tx_failed ≡ c
          → Leaves l.unconfirmed (send_test_data now size limit l)
      go false c e f = rw (e, Leaves) tt
      go true true e f = rw (e, f, Leaves) refl
      go true false e f = rw (e, f, Leaves) (test_loop-Leaves limit size limit 0 _)

  start_test-unconfirmed :
      (now buffer size : ℕ) (l : LinkInt TX) {r : Step TX}
      → start_test now buffer size l ≡ ok r
      → r.1.unconfirmed ≡ l.unconfirmed
  unfolding start_test
  start_test-unconfirmed now buffer size l {r = r} e =
      let most : ℕ =
        if is_some (link_cfg l).max_ping
        then (link_cfg l).unacked_init
        else min (link_cfg l).unacked_limit buffer in
      let limit : ℕ = min most (link_cfg l).test_data_limit in
      started l.unconfirmed (send_test_data now size limit l)
        (send_test_data-Leaves now size limit l) {r = r} e

  inactive-Confirmable :
      (now buffer size : ℕ) (reason : NotWorkingReason) (since : ℕ) (l : LinkInt TX) {r : Step TX}
      → l.unconfirmed ≡ some (since, reason)
      → inactive_step now buffer size l ≡ ok r
      → r.1.unconfirmed ≡ none
      → Confirmable reason l
  unfolding inactive_step postpone
  inactive-Confirmable now buffer size reason since l {r = r} u e h =
      ground (arith, start_test-unconfirmed now buffer size l {r = r})

  -- A step on a link that is not confirmed.
  test_step-Confirmable :
      (now buffer size : ℕ) (ping : Option ℕ) (slow : Bool) (reason : NotWorkingReason) (since : ℕ)
      (l : LinkInt TX) (st : LinkTest) {r : Step TX}
      → l.test ≡ st
      → l.unconfirmed ≡ some (since, reason)
      → test_step now buffer size ping slow st l ≡ ok r
      → r.1.unconfirmed ≡ none
      → Confirmable reason l
  unfolding test_step unconfirmed_of
  test_step-Confirmable now buffer size ping slow reason since l LinkTest.inactive {r = r} t u e h =
      inactive-Confirmable now buffer size reason since l {r = r} u e h
  test_step-Confirmable now buffer size ping slow reason since l LinkTest.in_progress {r = r} t u e
        h =
      in_progress-Confirmable now ping slow reason since l t u (ap unconfirmed_of e ∙ h)
  test_step-Confirmable now buffer size ping slow reason since l (LinkTest.failed when) {r = r} t u
        e h =
      let k = sym u ∙ ap unconfirmed_of e ∙ h in absurd (ground (arith, k))

  after_step :
      (id : ℕ) (l' : LinkInt TX) (t t' : Task TX) (due : Option ℕ) (p : Run (Step TX))
      → stepped id t p ≡ ok (due, t')
      → link_at t'.links id ≡ ok l'
      → (r : Step TX) × (p ≡ ok r) × (r.1 ≡ l')
  unfolding links_of stepped
  after_step id l' t t' due (ok r) e at = (
    r,
    refl,
    sym (
        link_at-set t.links id r.1 l'
          (subst (λ ls. link_at ls id ≡ ok l') (sym (ap links_of e)) at)),
  )
  after_step id l' t t' due (err f) e at = cc

  -- A step of the test that leaves a link confirmed which was not: the link's test was in progress, the ping
  -- behind the test data was answered and the roundtrip time is at most half the longest ack timeout;
  -- or the link had an ack timeout and is configured to need no test after that.
  pub link_testing_step-Confirmable :
      (now id since : ℕ) (reason : NotWorkingReason) (due : Option ℕ) (l l' : LinkInt TX)
      (t t' : Task TX)
      → get_elem? t.links id ≡ some (some l)
      → l.unconfirmed ≡ some (since, reason)
      → link_testing_step now id t ≡ ok (due, t')
      → link_at t'.links id ≡ ok l'
      → l'.unconfirmed ≡ none
      → Confirmable reason l
  unfolding link_testing_step step_slot
  link_testing_step-Confirmable now id since reason due l l' t t' here u e at h =
      let (r, runs, same) = after_step id l' t t' due _ (rw here at e) at in
      retest-Confirmable now reason l (
        test_step-Confirmable now t.cfg.send_buffer t.cfg.io_write_size _ (others_slow id 0 t.links)
          reason since (allow_retest now l) (allow_retest now l).test refl u runs
          (ap (λ (x : LinkInt TX). x.unconfirmed) same ∙ h))
