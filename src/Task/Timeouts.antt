-- ===== src/Task/Timeouts.antt =====
-- aggligator/src/agg/task.rs: when the main loop wakes up by itself. Waiting until an instant is the executor's;
-- here are the instants and the links they belong to.
pub mod Earliest
pub mod Confirm
use aggligator.Base.{
  ℕ, suc, ◌+◌, ◌*◌, ◌^◌, min, max, Bool, true, false, not, ◌&&◌, ◌||◌, Option, none, some, List, [],
  ◌∷◌, ltb, leb, if◌then◌else◌, is_some, is_none,
}
use aggligator.Base.Result.{ok, err, guard, ◌>>=◌, ◌>>◌}
use aggligator.Fault.{Run, panic}
use aggligator.Cfg.{LinkCfg, LinkPing}
use aggligator.Packets.{Packets, SentInfo, SentReliable, SentReliableStatus}
use aggligator.Link.{LinkInt, NotWorkingReason, link_cfg}
use aggligator.Task.Defs.{Task, link_at}
use aggligator.Task.Testing.{reliable_roundtrip_estimates}

-- `min_by_key(|(_id, t)| *t)`: the first of the least
unfoldable pub sooner : ℕ × ℕ → Option (ℕ × ℕ) → ℕ × ℕ
sooner x none = x
sooner x (some y) = if leb x.1 y.1 then x else y

unfoldable pub min_by_time : List (ℕ × ℕ) → Option (ℕ × ℕ)
unfolding sooner
min_by_time [] = none
min_by_time (x ∷ xs) = some (sooner x (min_by_time xs))

-- `unwrap_or`
abbrev pub unwrap_or : Option ℕ → ℕ → ℕ
unwrap_or none d = d
unwrap_or (some n) d = n

-- `last.map(|last| last + interval).unwrap_or_else(Instant::now)`
abbrev pub after_or : Option ℕ → ℕ → ℕ → ℕ
after_or none interval now = now
after_or (some last) interval now = last + interval

abbrev pub ping_due : LinkPing → Option ℕ → Option ℕ → ℕ → Option ℕ
ping_due (LinkPing.periodic interval) last_msg last_ping now =
    some (after_or last_ping interval now)
ping_due (LinkPing.when_idle timeout) last_msg last_ping now =
    some (max (after_or last_msg timeout now) (after_or last_ping timeout now))
ping_due LinkPing.when_timed_out last_msg last_ping now = none

-- `Duration::clamp`, which asserts that `lower <= upper`
unfoldable pub clamp : ℕ → ℕ → ℕ → Run ℕ
clamp d lower upper = do guard (leb lower upper) panic; ok (min (max d lower) upper)

-- Where a `u32`, a `Duration` and an `Instant`, in nanoseconds, overflow: the seconds of a duration have 64 bits, and
-- those of an instant 63.
abbrev pub u32_end : ℕ
u32_end = 2 ^ 32

abbrev pub duration_end : ℕ
duration_end = 2 ^ 64 * 1000000000

abbrev pub instant_end : ℕ
instant_end = 2 ^ 63 * 1000000000

-- A sum or a product, which panics on overflow
unfoldable pub below : ℕ → ℕ → Run ℕ
below end n = if ltb n end then ok n else err panic

-- A link that is too slow is not removed.
abbrev pub unconfirmed_since : Option (ℕ × NotWorkingReason) → Option ℕ
unconfirmed_since none = none
unconfirmed_since (some (since, NotWorkingReason.max_ping_exceeded)) = none
unconfirmed_since (some (since, NotWorkingReason.new)) = some since
unconfirmed_since (some (since, NotWorkingReason.disconnecting)) = some since
unconfirmed_since (some (since, NotWorkingReason.ack_timeout)) = some since

-- The oldest packet that is sent and not sure to be lost or received.
unfoldable pub oldest_sent : Packets → Option SentInfo
oldest_sent [] = none
oldest_sent (p ∷ ps) = elim p.status [
  | SentReliableStatus.sent i ↦ some i
  | SentReliableStatus.received size ↦ oldest_sent ps
  | SentReliableStatus.resend_queued msg l ↦ oldest_sent ps
]

module _ {TX : Type 0} where
  -- `enumerate().filter_map(..)` over the links there are, from index `i` on
  unfoldable pub due_from : (LinkInt TX → Option ℕ) → ℕ → List (Option (LinkInt TX)) → List (ℕ × ℕ)
  due_from f i [] = []
  due_from f i (none ∷ ls) = due_from f (suc i) ls
  due_from f i (some l ∷ ls) = elim (f l) [
    | none ↦ due_from f (suc i) ls
    | some at ↦ (i, at) ∷ due_from f (suc i) ls
  ]

  abbrev pub specific_timeout : (LinkCfg → ℕ) → (LinkInt TX → Option ℕ) → LinkInt TX → Option ℕ
  specific_timeout timeout_fn since_fn l = elim (since_fn l) [
    | none ↦ none
    | some since ↦ some (since + timeout_fn (link_cfg l))
  ]

  unfoldable pub earliest_link_specific_timeout :
      (LinkCfg → ℕ) → (LinkInt TX → Option ℕ) → Task TX → Option (ℕ × ℕ)
  unfolding min_by_time due_from
  earliest_link_specific_timeout timeout_fn since_fn t =
      min_by_time (due_from (specific_timeout timeout_fn since_fn) 0 t.links)

  -- The timeouts of the main loop that belong to one link.
  unfoldable pub next_pong_timeout : Task TX → Option (ℕ × ℕ)
  unfolding earliest_link_specific_timeout
  next_pong_timeout t =
      earliest_link_specific_timeout (λ c. c.ping_timeout) (λ l. l.current_ping_sent) t

  unfoldable pub next_unconfirmed_timeout : Task TX → Option (ℕ × ℕ)
  unfolding earliest_link_specific_timeout
  next_unconfirmed_timeout t =
      earliest_link_specific_timeout (λ c. c.non_working_timeout)
        (λ l. unconfirmed_since l.unconfirmed) t

  unfoldable pub next_send_timeout : Task TX → Option (ℕ × ℕ)
  unfolding earliest_link_specific_timeout
  next_send_timeout t = earliest_link_specific_timeout (λ c. c.ping_timeout) (λ l. l.tx_polling) t

  abbrev pub next_ping : ℕ → LinkInt TX → Option ℕ
  next_ping now l =
      if is_none l.current_ping_sent && not l.send_ping && is_none l.unconfirmed
      then ping_due (link_cfg l).ping l.tx_last_msg l.last_ping now
      else none

  unfoldable pub next_link_ping : ℕ → Task TX → Option (ℕ × ℕ)
  unfolding min_by_time due_from
  next_link_ping now t = min_by_time (due_from (next_ping now) 0 t.links)

  abbrev pub resent_factor : SentInfo → LinkInt TX → ℕ
  resent_factor i l = if i.resent then (link_cfg l).ack_timeout_resent_factor else 1

  abbrev pub unreliable_factor : LinkInt TX → ℕ
  unreliable_factor l =
      if ltb (unwrap_or l.roundtrip_estimates 0) reliable_roundtrip_estimates
      then (link_cfg l).ack_timeout_unreliable_factor
      else 1

  -- `fac`, where a factor that does not apply is 1
  unfoldable pub ack_factor : SentInfo → LinkInt TX → Run ℕ
  unfolding below
  ack_factor i l = below u32_end (resent_factor i l * unreliable_factor l)

  unfoldable pub confirm_timeout : SentInfo → LinkInt TX → Run (ℕ × ℕ × Bool)
  unfolding clamp ack_factor below
  confirm_timeout i l = do
    fac ← ack_factor i l
    once ← below duration_end (l.roundtrip * (link_cfg l).ack_timeout_roundtrip_factor)
    all ← below duration_end (once * fac)
    dur ← clamp all (link_cfg l).ack_timeout_min (link_cfg l).ack_timeout_max
    at ← below instant_end (unwrap_or i.flushed i.sent + dur)
    ok (i.link_id, at, is_some i.flushed)

  unfoldable pub sent_timeout :
      List (Option (LinkInt TX)) → Option SentInfo → Run (Option (ℕ × ℕ × Bool))
  unfolding confirm_timeout
  sent_timeout ls none = ok none
  sent_timeout ls (some i) = do
    l ← link_at ls i.link_id
    found ← confirm_timeout i l
    ok (some found)

  unfoldable pub earliest_confirm_timeout : Task TX → Run (Option (ℕ × ℕ × Bool))
  unfolding oldest_sent sent_timeout
  earliest_confirm_timeout t = sent_timeout t.links (oldest_sent t.txed_packets)
