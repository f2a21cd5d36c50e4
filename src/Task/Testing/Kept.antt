-- ===== src/Task/Testing/Kept.antt =====
-- The test of a link changes none of the link's data that is unacknowledged.
use aggligator.Base.{
  ℕ, zero, suc, ◌-◌, ◌/◌, min, ◌≡◌, refl, Bool, true, false, not, ◌&&◌, Option, either, none, some,
  is_none, if◌then◌else◌, leb, ltb, ◌||◌,
}
use aggligator.Base.Result.{ok, err, ◌>>=◌, guard}
use aggligator.Fault.{Run, panic}
use aggligator.Bytes.{ByteOrder}
use aggligator.Msg.Write.{encode, write_body}
use aggligator.Link.{
  Sink, PollReady, LinkInt, LinkTest, NotWorkingReason, send_test_data, link_cfg,
  has_outstanding_ack, is_blocked, report_ready, set_unconfirmed,
}
use aggligator.Link.Send.{taken, test_packet, test_round, test_loop}
use aggligator.Task.Testing.{
  Step, postpone, roundtrip_limit, in_progress_step, start_test, inactive_step, test_step,
  is_ack_timeout,
}

module _ {TX : Type 0} where
  -- The link has so much unacknowledged data, or `E` if there was a panic.
  abbrev pub Kept : Type 0 → ℕ → Run (ℕ × LinkInt TX) → Type 0
  Kept E d (ok (n, l)) = l.txed_unacked_data ≡ d
  Kept E d (err f) = E

  abbrev pub StepKept : Type 0 → ℕ → Run (Step TX) → Type 0
  StepKept E d (ok (due, l, woken)) = l.txed_unacked_data ≡ d
  StepKept E d (err f) = E

either_when :
    {A : Type 0} (P : A → Type 0) (b c : Bool) (x y : A)
    → (b ≡ true → P x)
    → P y
    → P (if b && c then x else y)
either_when P true true x y h k = h refl
either_when P true false x y h k = k
either_when P false c x y h k = k

module _ {TX : Type 0} where
  guarded :
      (E : Type 0) (d : ℕ) (b : Bool) (r : Run (ℕ × LinkInt TX))
      → (b ≡ false → E)
      → Kept E d r
      → Kept E d (guard b panic >>= λ u. r)
  guarded E d true r h k = k
  guarded E d false r h k = h refl

  started :
      (E : Type 0) (d : ℕ) (r : Run (ℕ × LinkInt TX))
      → Kept E d r
      → StepKept E d (
          r >>= λ x. ok (none, record x.1 { send_ping = true; test = LinkTest.in_progress }, false))
  started E d (ok (n, l)) h = h
  started E d (err f) h = h

module _ {TX : Type 0} ⦃s : Sink TX⦄ ⦃o : ByteOrder⦄ (E : Type 0) where
  taken-Kept :
      (again : ℕ → LinkInt TX → Run (ℕ × LinkInt TX)) (d sent size : ℕ) (l : LinkInt TX)
      (r : TX × Bool)
      → ((n : ℕ) (k : LinkInt TX) → k.txed_unacked_data ≡ d → Kept E d (again n k))
      → l.txed_unacked_data ≡ d
      → Kept E d (taken again sent size l r)
  unfolding taken
  taken-Kept again d sent size l (tx, true) h e = h _ _ e
  taken-Kept again d sent size l (tx, false) h e = e

  test_round-Kept :
      (again : ℕ → LinkInt TX → Run (ℕ × LinkInt TX)) (d packet_size limit sent : ℕ)
      (l : LinkInt TX) (p : PollReady)
      → ((n : ℕ) (k : LinkInt TX) → k.txed_unacked_data ≡ d → Kept E d (again n k))
      → l.txed_unacked_data ≡ d
      → Kept E d (test_round again packet_size limit sent l p)
  unfolding test_round test_packet encode write_body
  test_round-Kept again d packet_size limit sent l PollReady.pending h e = e
  test_round-Kept again d packet_size limit sent l PollReady.failed h e = e
  test_round-Kept again d packet_size limit sent l PollReady.ready h e =
      taken-Kept again d sent (min packet_size (limit - sent)) l _ h e

  test_loop-Kept :
      (fuel packet_size limit sent d : ℕ) (l : LinkInt TX)
      → l.txed_unacked_data ≡ d
      → Kept E d (test_loop fuel packet_size limit sent l)
  unfolding test_loop
  test_loop-Kept zero packet_size limit sent d l e = e
  test_loop-Kept (suc fuel) packet_size limit sent d l e =
      elim (ltb sent limit)
        as (λ b. Kept E d (elim b as (λ x. Run (ℕ × LinkInt TX)) [
          | false ↦ ok (sent, l)
          | true ↦
              test_round (test_loop fuel packet_size limit) packet_size limit sent l
                (s.poll_ready l.tx)
        ])) [
          | false ↦ e
          | true ↦
              test_round-Kept (test_loop fuel packet_size limit) d packet_size limit sent l
                (s.poll_ready l.tx) (λ n k e'. test_loop-Kept fuel packet_size limit n d k e') e
        ]

  send_test_data-Kept :
      (now packet_size limit : ℕ) (l : LinkInt TX)
      → (is_none l.tx_data ≡ false → E)
      → Kept E l.txed_unacked_data (send_test_data now packet_size limit l)
  unfolding send_test_data
  send_test_data-Kept now packet_size limit l h =
      guarded E l.txed_unacked_data (is_none l.tx_data) _ h (
        either (Kept E l.txed_unacked_data) l.tx_failed _ _ refl
          (test_loop-Kept limit packet_size limit 0 l.txed_unacked_data _ refl))

  start_test-Kept :
      (now send_buffer packet_size : ℕ) (l : LinkInt TX)
      → (is_none l.tx_data ≡ false → E)
      → StepKept E l.txed_unacked_data (start_test now send_buffer packet_size l)
  unfolding start_test
  start_test-Kept now send_buffer packet_size l h =
      started E l.txed_unacked_data _ (send_test_data-Kept now packet_size _ l h)

  postpone-Kept :
      (now since : ℕ) (reason : NotWorkingReason) (l : LinkInt TX)
      → StepKept E l.txed_unacked_data (ok (postpone now since reason l))
  unfolding postpone
  postpone-Kept now since reason l =
      either (λ (x : Step TX). StepKept E l.txed_unacked_data (ok x))
        (leb ((link_cfg l).non_working_timeout / 2) (now - since)) _ _ refl refl

  inactive_step-Kept :
      (now send_buffer packet_size : ℕ) (l : LinkInt TX)
      → (is_none l.tx_polling ≡ true → is_none l.tx_data ≡ false → E)
      → StepKept E l.txed_unacked_data (inactive_step now send_buffer packet_size l)
  unfolding inactive_step
  inactive_step-Kept now send_buffer packet_size l h =
      let P : Run (Step TX) → Type 0 = StepKept E l.txed_unacked_data in
      elim l.unconfirmed
        as (λ u. P (elim u as (λ _. Run (Step TX)) [
          | none ↦ ok (none, l, false)
          | some (since, reason) ↦
              if is_none l.tx_polling
                && (is_none l.current_ping_sent && not (has_outstanding_ack l))
              then if not (is_ack_timeout reason) || (link_cfg l).test_after_ack_timeout
                then if is_blocked l
                  then ok (postpone now since reason l)
                  else start_test now send_buffer packet_size l
                else ok (none, report_ready now (set_unconfirmed none l), true)
              else ok (none, l, false)
        ])) [
          | none ↦ refl
          | some (since, reason) ↦
              either_when P (is_none l.tx_polling)
                (is_none l.current_ping_sent && not (has_outstanding_ack l)) _ _
                (λ idle.
                  either P (not (is_ack_timeout reason) || (link_cfg l).test_after_ack_timeout) _ _
                    (either P (is_blocked l) _ _ (postpone-Kept now since reason l)
                      (start_test-Kept now send_buffer packet_size l (h idle)))
                    refl)
                refl
        ]

  in_progress_step-Kept :
      (now : ℕ) (ping : Option ℕ) (slow : Bool) (l : LinkInt TX)
      → StepKept E l.txed_unacked_data (ok (in_progress_step now ping slow l))
  unfolding in_progress_step
  in_progress_step-Kept now ping slow l =
      let P : Step TX → Type 0 = λ x. StepKept E l.txed_unacked_data (ok x) in
      either P (is_none l.current_ping_sent && not l.send_ping) _ _
        (either P (leb l.roundtrip (roundtrip_limit ping slow l)) _ _ refl refl) refl

  pub test_step-Kept :
      (now send_buffer packet_size : ℕ) (ping : Option ℕ) (slow : Bool) (test : LinkTest)
      (l : LinkInt TX)
      → (is_none l.tx_polling ≡ true → is_none l.tx_data ≡ false → E)
      → StepKept E l.txed_unacked_data (test_step now send_buffer packet_size ping slow test l)
  unfolding test_step
  test_step-Kept now send_buffer packet_size ping slow LinkTest.inactive l h =
      inactive_step-Kept now send_buffer packet_size l h
  test_step-Kept now send_buffer packet_size ping slow LinkTest.in_progress l h =
      in_progress_step-Kept now ping slow l
  test_step-Kept now send_buffer packet_size ping slow (LinkTest.failed when) l h = refl
