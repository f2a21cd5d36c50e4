-- ===== src/Task/Limits/Adjust.antt =====
-- `adjust_link_tx_limits`: how much unacknowledged data each link may have. Sizes are below 2 ^ 64 / 100, so that the
-- products by percentages do not overflow; a product of a duration too.
pub mod Change
pub mod Within
pub mod Kept
use aggligator.Base.{
  ℕ, zero, suc, ◌+◌, ◌-◌, ◌*◌, ◌/◌, min, max, Bool, true, false, not, ◌&&◌, ◌||◌, Option, none,
  some, List, [], ◌∷◌, map, ltb, leb, ◌==◌, if◌then◌else◌, is_none, is_some,
}
use aggligator.Base.Result.{Result, ok, err, ◌>>=◌}
use aggligator.Fault.{Run}
use aggligator.Seq.{Seq}
use aggligator.Cfg.{LinkCfg, UnackedIncrease, from_secs}
use aggligator.Packets.{PacketRef, SentInfo}
use aggligator.Peekable.{PeekableReceiver, TryRecvIfError, try_peek}
use aggligator.Link.{LinkInt, link_cfg, is_blocked, is_sendable}
use aggligator.Link.Send.{saturating_add}
use aggligator.Task.Defs.{
  Task, TxState, SendOverrun, SendReq, link_at, put_link, remote_recv_buffer,
}
use aggligator.Task.Testing.{min_ping, ping_spread_of}
use aggligator.Task.Timeouts.{oldest_sent}
use aggligator.Task.Limits.{exceeds, exceeds_or_none, is_reliable}

abbrev pub coming_seq : Seq → List PacketRef → Seq
coming_seq tx_seq [] = tx_seq
coming_seq tx_seq (r ∷ rs) = r.seq

abbrev pub is_armed : SendOverrun → Bool
is_armed SendOverrun.armed = true
is_armed SendOverrun.soft = false
is_armed SendOverrun.hard = false

abbrev pub is_hard : SendOverrun → Bool
is_hard SendOverrun.armed = false
is_hard SendOverrun.soft = false
is_hard SendOverrun.hard = true

-- `is_none_or(|max_ping| roundtrip <= max_ping / 2 || all_links_slow)`
abbrev pub is_fast : Option ℕ → ℕ → Bool → Bool
is_fast none roundtrip slow = true
is_fast (some max_ping) roundtrip slow = leb roundtrip (max_ping / 2) || slow

abbrev pub is_good : Option ℕ → ℕ → Option ℕ → Bool
is_good none roundtrip estimates = true
is_good (some good_ping) roundtrip estimates = leb roundtrip good_ping && is_reliable estimates

-- `filter(..).max_by_key(|step| step.consecutive)`: the last of the greatest
abbrev pub later : UnackedIncrease → Option UnackedIncrease → UnackedIncrease
later x none = x
later x (some y) = if leb x.consecutive y.consecutive then y else x

unfoldable pub best_step : ℕ → List UnackedIncrease → Option UnackedIncrease
best_step n [] = none
best_step n (x ∷ xs) =
    let rest = best_step n xs in if leb x.consecutive n then some (later x rest) else rest

abbrev pub reduced : ℕ → ℕ
reduced current = current * 95 / 100

module _ {TX : Type 0} where
  -- The limit goes down to a share of what is unacknowledged, and does not go up before new data is received.
  unfoldable pub lower_limit : (ℕ → ℕ) → Seq → LinkInt TX → LinkInt TX
  lower_limit share coming l = record l {
    txed_unacked_data_limit = share (min l.txed_unacked_data l.txed_unacked_data_limit);
    txed_unacked_data_limit_increased = some coming;
    txed_unacked_data_limit_increased_consecutively = 0;
  }

  abbrev pub rearm : Task TX → Task TX
  rearm t = record t { tx_overrun = SendOverrun.armed; tx_overrun_since = none }

  -- Too much data is unconsumable: the link of the oldest unconfirmed packet is limited.
  unfoldable pub limit_guilty : ℕ → Seq → Bool → Task TX → Option SentInfo → Run (Task TX)
  unfolding lower_limit
  limit_guilty now coming hard t none = ok t
  limit_guilty now coming hard t (some i) = link_at t.links i.link_id >>= λ l. ok (
      put_link i.link_id (lower_limit (if hard then (λ current. current / 2) else reduced) coming l)
        (record t {
          tx_overrun = if hard then SendOverrun.hard else SendOverrun.soft;
          tx_overrun_since = some now;
        }))

  unfoldable pub handle_overrun : ℕ → Seq → Bool → Bool → Task TX → Run (Task TX)
  unfolding limit_guilty oldest_sent
  handle_overrun now coming soft hard t =
      if (soft && is_armed t.tx_overrun) || (hard && not (is_hard t.tx_overrun))
      then limit_guilty now coming hard t (oldest_sent t.txed_packets)
      else ok (if not (is_armed t.tx_overrun) && not soft && not hard then rearm t else t)

  unfoldable pub rearm_after_second : ℕ → Option ℕ → Task TX → Task TX
  rearm_after_second now none t = t
  rearm_after_second now (some since) t = if leb (from_secs 1) (now - since) then rearm t else t

  unfoldable pub all_links_slow : List (Option (LinkInt TX)) → Bool
  all_links_slow [] = true
  all_links_slow (none ∷ ls) = all_links_slow ls
  all_links_slow (some l ∷ ls) =
      (is_some l.unconfirmed || is_blocked l || elim (link_cfg l).max_ping [
        | none ↦ true
        | some max_ping ↦ ltb (max_ping / 2) l.roundtrip
      ])
      && all_links_slow ls

  -- `for link_opt in &mut self.links`
  abbrev pub each :
      (LinkInt TX → LinkInt TX) → List (Option (LinkInt TX)) → List (Option (LinkInt TX))
  each f [] = []
  each f (none ∷ ls) = none ∷ each f ls
  each f (some l ∷ ls) = some (f l) ∷ each f ls

  -- A link near its maximum ping.
  unfoldable pub lower_slow : Seq → LinkInt TX → LinkInt TX
  unfolding lower_limit
  lower_slow coming l =
      if is_none l.unconfirmed
        && is_none l.txed_unacked_data_limit_increased
        && elim (link_cfg l).max_ping [
          | none ↦ false
          | some max_ping ↦ ltb (max_ping * 3 / 4) l.roundtrip
        ]
      then lower_limit reduced coming l
      else l

  -- A link above the limit of the ping spread.
  unfoldable pub lower_spread : ℕ → Seq → LinkInt TX → LinkInt TX
  unfolding lower_limit
  lower_spread limit_ping coming l =
      if is_none l.unconfirmed
        && not (is_blocked l)
        && ltb limit_ping l.roundtrip
        && is_reliable l.roundtrip_estimates
      then record (lower_limit reduced coming l) { roundtrip_estimates = none }
      else l

  abbrev pub is_working : LinkInt TX → Bool
  is_working l = is_none l.unconfirmed && not (is_blocked l)

  unfoldable pub working_link_count : List (Option (LinkInt TX)) → ℕ
  working_link_count [] = 0
  working_link_count (none ∷ ls) = working_link_count ls
  working_link_count (some l ∷ ls) =
      let rest = working_link_count ls in if is_working l then suc rest else rest

  unfoldable pub sendable_link_avail : List (Option (LinkInt TX)) → Bool
  sendable_link_avail [] = false
  sendable_link_avail (none ∷ ls) = sendable_link_avail ls
  sendable_link_avail (some l ∷ ls) =
      (not l.tx_pending && is_working l && is_sendable l) || sendable_link_avail ls

  -- By how much a limit goes up; none when no step is configured for it.
  unfoldable pub increase_percent : ℕ → LinkInt TX → Option ℕ
  unfolding best_step
  increase_percent working l =
      if working == 1
      then some (link_cfg l).unacked_increase_single_link
      else elim (best_step l.txed_unacked_data_limit_increased_consecutively
          (link_cfg l).unacked_increase) [ none ↦ none | some x ↦ some x.percent ]

  unfoldable pub raise_limit : Seq → LinkInt TX → Option ℕ → LinkInt TX
  raise_limit coming l none = l
  raise_limit coming l (some percent) = record l {
    txed_unacked_data_limit = max (l.txed_unacked_data_limit * percent / 100) 100;
    txed_unacked_data_limit_increased = some coming;
    txed_unacked_data_limit_increased_consecutively =
        saturating_add l.txed_unacked_data_limit_increased_consecutively 1;
    roundtrip_estimates = none;
  }

  unfoldable pub may_raise : Bool → Option ℕ → LinkInt TX → Bool
  may_raise slow good_ping l =
      not l.tx_pending
      && is_working l
      && not (is_sendable l)
      && is_none l.txed_unacked_data_limit_increased
      && ltb l.txed_unacked_data_limit (link_cfg l).unacked_limit
      && is_fast (link_cfg l).max_ping l.roundtrip slow
      && is_good good_ping l.roundtrip l.roundtrip_estimates

  unfoldable pub raise_blocked : ℕ → Bool → Option ℕ → Seq → LinkInt TX → LinkInt TX
  unfolding increase_percent raise_limit may_raise
  raise_blocked working slow good_ping coming l =
      if may_raise slow good_ping l then raise_limit coming l (increase_percent working l) else l

  abbrev pub reset_count : LinkInt TX → LinkInt TX
  reset_count l = record l { txed_unacked_data_limit_increased_consecutively = 0 }

  -- The loops over the links, each under its condition.
  unfoldable pub lower_all_slow :
      Bool → Seq → List (Option (LinkInt TX)) → List (Option (LinkInt TX))
  unfolding lower_slow
  lower_all_slow slow coming ls = if slow then ls else each (lower_slow coming) ls

  unfoldable pub lower_all_spread :
      Option (ℕ × ℕ) → Seq → List (Option (LinkInt TX)) → List (Option (LinkInt TX))
  unfolding lower_spread
  lower_all_spread none coming ls = ls
  lower_all_spread (some (limit_ping, good_ping)) coming ls =
      each (lower_spread limit_ping coming) ls

  unfoldable pub raise_all :
      Bool → Bool → Option (ℕ × ℕ) → Seq → List (Option (LinkInt TX)) → List (Option (LinkInt TX))
  unfolding raise_blocked working_link_count sendable_link_avail
  raise_all send_data_avail slow spread coming ls =
      let good_ping : Option ℕ = elim spread [ none ↦ none | some (limit, good) ↦ some good ] in
      if send_data_avail && not (sendable_link_avail ls)
      then each (raise_blocked (working_link_count ls) slow good_ping coming) ls
      else ls

  unfoldable pub reset_all : Bool → List (Option (LinkInt TX)) → List (Option (LinkInt TX))
  reset_all low_level ls = if low_level then ls else each reset_count ls

  -- The links after all of that.
  unfoldable pub adjusted_links :
      Bool → Bool → Option ℕ → Seq → List (Option (LinkInt TX)) → List (Option (LinkInt TX))
  unfolding all_links_slow lower_all_slow lower_all_spread raise_all reset_all min_ping
  adjusted_links low_level send_data_avail max_spread coming ls =
      let slow = all_links_slow ls in
      let ls' = lower_all_slow slow coming ls in
      let spread = ping_spread_of (min_ping ls') max_spread in
      reset_all low_level
        (raise_all send_data_avail slow spread coming (lower_all_spread spread coming ls'))

-- Whether there is something to write, which peeks.
unfoldable pub write_avail :
    Option (PeekableReceiver SendReq) → Bool × Option (PeekableReceiver SendReq)
unfolding try_peek
write_avail none = (false, none)
write_avail (some rx) = (elim (try_peek rx).0 [ ok m ↦ true | err e ↦ false ], some (try_peek rx).1)

abbrev pub is_empty : List PacketRef → Bool
is_empty [] = true
is_empty (r ∷ rs) = false

module _ {TX : Type 0} where
  unfoldable pub adjust_after_overrun : Bool → Seq → Task TX → Task TX
  unfolding adjusted_links write_avail
  adjust_after_overrun low_level coming t =
      let (avail, rx) = write_avail t.write_rx in
      record t {
        links =
            adjusted_links low_level (avail || not (is_empty t.resend_queue))
              t.cfg.link_max_ping_spread coming t.links;
        write_rx = rx;
      }

  unfoldable pub adjust_with : ℕ → ℕ → Task TX → Run (Task TX)
  unfolding handle_overrun rearm_after_second adjust_after_overrun
  adjust_with now unconsumable_limit t =
      let coming = coming_seq t.tx_seq t.resend_queue in
      let low_level = ltb t.txed_unconsumable (unconsumable_limit / 4) in
      let soft_overrun = ltb (unconsumable_limit / 3) t.txed_unconsumable in
      let hard_overrun = ltb (unconsumable_limit * 3 / 4) t.txed_unconsumable in
      handle_overrun now coming soft_overrun hard_overrun t >>= λ t1.
      ok (adjust_after_overrun low_level coming (rearm_after_second now t1.tx_overrun_since t1))

  unfoldable pub adjust_for : ℕ → Task TX → Option ℕ → Run (Task TX)
  unfolding adjust_with
  adjust_for now t none = ok t
  adjust_for now t (some remote) = adjust_with now (min t.cfg.send_buffer remote) t

  unfoldable pub adjust_link_tx_limits : ℕ → Task TX → Run (Task TX)
  unfolding adjust_for
  adjust_link_tx_limits now t = adjust_for now t (remote_recv_buffer t)
