-- ===== src/Task/Testing.antt =====
-- Testing of links that are not confirmed: `ping_spread_limits` and `link_testing_step`.
pub mod Kept
pub mod Confirms
use aggligator.Base.{
  ℕ, zero, suc, ◌+◌, ◌-◌, ◌*◌, ◌/◌, min, Bool, true, false, not, ◌&&◌, ◌||◌, Option, none, some,
  List, [], ◌∷◌, ltb, leb, ◌==◌, if◌then◌else◌, is_some, is_none, get_elem?,
}
use aggligator.Base.Result.{Result, ok, err, ◌>>=◌}
use aggligator.Fault.{Fault, Run, panic}
use aggligator.Bytes.{ByteOrder}
use aggligator.Link.{
  Sink, LinkInt, LinkTest, NotWorkingReason, link_cfg, is_blocked, has_outstanding_ack,
  set_unconfirmed, report_ready, send_test_data,
}
use aggligator.Task.Defs.{Task, put_link, without}

-- `RELIABLE_ROUNDTRIP_ESTIMATES`
abbrev pub reliable_roundtrip_estimates : ℕ
reliable_roundtrip_estimates = 10

abbrev pub is_ack_timeout : NotWorkingReason → Bool
is_ack_timeout NotWorkingReason.ack_timeout = true
is_ack_timeout NotWorkingReason.new = false
is_ack_timeout NotWorkingReason.disconnecting = false
is_ack_timeout NotWorkingReason.max_ping_exceeded = false

-- A failed test may be repeated after the retest interval.
unfoldable pub retest_state : (now interval : ℕ) → LinkTest → LinkTest
retest_state now interval (LinkTest.failed when) =
    if leb interval (now - when) then LinkTest.inactive else LinkTest.failed when
retest_state now interval LinkTest.inactive = LinkTest.inactive
retest_state now interval LinkTest.in_progress = LinkTest.in_progress

-- What a step does: when the next one is due, the link after it, and whether the link is idle no more.
abbrev pub Step : Type 0 → Type 0
Step TX = Option ℕ × LinkInt TX × Bool

-- From the least ping and the configured spread
unfoldable pub ping_spread_of : Option ℕ → Option ℕ → Option (ℕ × ℕ)
ping_spread_of none spread = none
ping_spread_of (some ping) none = none
ping_spread_of (some ping) (some spread) = some (ping * spread, (ping + 3 * (ping * spread)) / 4)

module _ {TX : Type 0} where
  -- Confirmed links that are not blocked and whose roundtrip time is well known.
  unfoldable pub is_measured : LinkInt TX → Bool
  is_measured l =
      is_none l.unconfirmed
      && (not (is_blocked l) && elim l.roundtrip_estimates [
        | none ↦ false
        | some n ↦ leb reliable_roundtrip_estimates n
      ])

  unfoldable pub min_ping : List (Option (LinkInt TX)) → Option ℕ
  unfolding is_measured
  min_ping [] = none
  min_ping (none ∷ ls) = min_ping ls
  min_ping (some l ∷ ls) =
      let rest = min_ping ls in
      if is_measured l
      then some (elim rest [ none ↦ l.roundtrip | some r ↦ min l.roundtrip r ])
      else rest

  -- The limit ping and the good ping.
  unfoldable pub ping_spread_limits : Task TX → Option (ℕ × ℕ)
  unfolding min_ping ping_spread_of
  ping_spread_limits t = ping_spread_of (min_ping t.links) t.cfg.link_max_ping_spread

  -- The link is out of use, or above its limit if it has one.
  unfoldable pub is_slow : LinkInt TX → Bool
  is_slow l =
      is_some l.unconfirmed
      || (is_blocked l
          || elim (link_cfg l).max_ping [ none ↦ true | some max_ping ↦ ltb max_ping l.roundtrip ])

  -- The links but the one with index `id`; `i` is the index of the first.
  unfoldable pub others_slow : ℕ → ℕ → List (Option (LinkInt TX)) → Bool
  unfolding is_slow
  others_slow id i [] = true
  others_slow id i (none ∷ ls) = others_slow id (suc i) ls
  others_slow id i (some l ∷ ls) = ((i == id) || is_slow l) && others_slow id (suc i) ls

  unfoldable pub allow_retest : ℕ → LinkInt TX → LinkInt TX
  unfolding retest_state
  allow_retest now l = record l { test = retest_state now (link_cfg l).retest_interval l.test }

  unfoldable pub postpone : ℕ → ℕ → NotWorkingReason → LinkInt TX → Step TX
  postpone now since reason l =
      let half = (link_cfg l).non_working_timeout / 2 in
      if leb half (now - since)
      then (some (now + half), set_unconfirmed (some (now, reason)) l, false)
      else (some (since + half), l, false)

  unfoldable pub roundtrip_limit : Option ℕ → Bool → LinkInt TX → ℕ
  roundtrip_limit limit_ping slow l =
      let timeout = (link_cfg l).ack_timeout_max / 2 in
      let own : ℕ = elim (link_cfg l).max_ping [
        | none ↦ timeout
        | some max_ping ↦ if slow then timeout else min timeout max_ping
      ] in
      elim limit_ping [ none ↦ own | some ping ↦ min own ping ]

  -- The ping that follows the test data was answered, or is underway.
  unfoldable pub in_progress_step : ℕ → Option ℕ → Bool → LinkInt TX → Step TX
  unfolding roundtrip_limit
  in_progress_step now limit_ping slow l =
      if is_none l.current_ping_sent && not l.send_ping
      then if leb l.roundtrip (roundtrip_limit limit_ping slow l)
        then (
          none,
          report_ready now (record (set_unconfirmed none l) { test = LinkTest.inactive }),
          true,
        )
        else (
          some (now + (link_cfg l).retest_interval),
          record l {
            test = LinkTest.failed now;
            unconfirmed = elim l.unconfirmed [
              | none ↦ some (now, NotWorkingReason.max_ping_exceeded)
              | some (since, reason) ↦ some (since, NotWorkingReason.max_ping_exceeded)
            ];
          },
          false,
        )
      else (none, l, false)

module _ {TX : Type 0} where
  -- The link after the step is put back.
  unfoldable pub stepped : ℕ → Task TX → Run (Step TX) → Run (Option ℕ × Task TX)
  stepped id t (ok (due, l, woken)) = ok (
    due,
    put_link id l
        (record t { idle_links = if woken then without id t.idle_links else t.idle_links }),
  )
  stepped id t (err f) = err f

module _ {TX : Type 0} ⦃s : Sink TX⦄ ⦃o : ByteOrder⦄ where
  unfoldable pub start_test : ℕ → ℕ → ℕ → LinkInt TX → Run (Step TX)
  start_test now send_buffer packet_size l =
      let most =
        if is_some (link_cfg l).max_ping
        then (link_cfg l).unacked_init
        else min (link_cfg l).unacked_limit send_buffer in
      do
        (test_data, l') ← send_test_data now packet_size (min most (link_cfg l).test_data_limit) l
        ok (none, record l' { send_ping = true; test = LinkTest.in_progress }, false)

  -- A link that is confirmed, or that still sends or waits, is left alone.
  unfoldable pub inactive_step : ℕ → ℕ → ℕ → LinkInt TX → Run (Step TX)
  unfolding start_test postpone
  inactive_step now send_buffer packet_size l = elim l.unconfirmed [
    | none ↦ ok (none, l, false)
    | some (since, reason) ↦
        if is_none l.tx_polling && (is_none l.current_ping_sent && not (has_outstanding_ack l))
        then if not (is_ack_timeout reason) || (link_cfg l).test_after_ack_timeout
          then if is_blocked l
            then ok (postpone now since reason l)
            else start_test now send_buffer packet_size l
          else ok (none, report_ready now (set_unconfirmed none l), true)
        else ok (none, l, false)
  ]

  -- The `match` on the state of the test.
  unfoldable pub test_step : ℕ → ℕ → ℕ → Option ℕ → Bool → LinkTest → LinkInt TX → Run (Step TX)
  unfolding inactive_step in_progress_step
  test_step now send_buffer packet_size limit_ping slow LinkTest.inactive l =
      inactive_step now send_buffer packet_size l
  test_step now send_buffer packet_size limit_ping slow LinkTest.in_progress l =
      ok (in_progress_step now limit_ping slow l)
  test_step now send_buffer packet_size limit_ping slow (LinkTest.failed when) l =
      ok (some (when + (link_cfg l).retest_interval), l, false)

  -- The slot of the link: out of bounds is a panic, and nothing is done without a link.
  unfoldable pub step_slot :
      ℕ → ℕ → Option (Option (LinkInt TX)) → Task TX → Run (Option ℕ × Task TX)
  unfolding test_step allow_retest stepped
  step_slot now id none t = err panic
  step_slot now id (some none) t = ok (none, t)
  step_slot now id (some (some l)) t =
      let limit_ping : Option ℕ = elim (ping_spread_limits t) [
        | none ↦ none
        | some (limit, good) ↦ some limit
      ] in
      stepped id t (
        test_step now t.cfg.send_buffer t.cfg.io_write_size limit_ping (others_slow id 0 t.links)
          (allow_retest now l).test (allow_retest now l))

  unfoldable pub link_testing_step : ℕ → ℕ → Task TX → Run (Option ℕ × Task TX)
  unfolding step_slot
  link_testing_step now id t = step_slot now id (get_elem? t.links id) t
