-- ===== src/Task/Links.antt =====
-- Links come and go: `unconfirm_link`, `remove_link`, `add_link`.
pub mod Unconfirm
pub mod Removal
use aggligator.Base.{
  ℕ, zero, suc, ◌+◌, Bool, true, false, Option, none, some, List, [], ◌∷◌, ◌++◌, map, ltb, set,
  if◌then◌else◌,
}
use aggligator.Base.Result.{Result, ok, err, ◌>>=◌, ◌>>◌, guard}
use aggligator.Fault.{Fault, Run, panic, minus}
use aggligator.Packets.{Packets, requeue, pushed, sent_size, sort_by_seq, is_total}
use aggligator.Link.{
  LinkInt, LinkTest, NotWorkingReason, link_cfg, report_ready, set_unconfirmed, reset,
  clean_txed_packets,
}
use aggligator.Task.Defs.{Task, TxState, link_at, put_link, without}
use aggligator.Task.Send.{flush_link}

-- The packets sent over the link are queued for resending.
unfoldable pub requeue_packets : ℕ → TxState → TxState
requeue_packets id s = record s {
  txed_packets = requeue id s.txed_packets;
  resend_queue = sort_by_seq (s.resend_queue ++ pushed id s.txed_packets);
}

module _ {TX : Type 0} where
  -- Links that failed the test are tested again.
  unfoldable pub retest : Option (LinkInt TX) → Option (LinkInt TX)
  retest none = none
  retest (some l) = some (elim l.test [
    | LinkTest.failed when ↦ record l { test = LinkTest.inactive }
    | LinkTest.inactive ↦ l
    | LinkTest.in_progress ↦ l
  ])

  unfoldable pub unconfirm_link : ℕ → ℕ → NotWorkingReason → Task TX → Run (Task TX)
  unfolding flush_link retest requeue_packets
  unconfirm_link now id reason t = do
    t1 ← flush_link now id t
    l ← link_at t1.links id
    let l1 = reset (set_unconfirmed (some (now, reason)) l)
    unacked ← minus l1.txed_unacked_data (sent_size id t1.txed_packets)
    guard (is_total (t1.resend_queue ++ pushed id t1.txed_packets)) panic
    let s = requeue_packets id t1.tx_state
    let l2 = clean_txed_packets s.txed_packets (record l1 { txed_unacked_data = unacked })
    ok (record t1 {
      links = map retest (set t1.links id (some l2));
      idle_links = without id t1.idle_links;
      unflushed_links = without id t1.unflushed_links;
      tx_state = s;
    })

  -- `while let Some(None) = self.links.last()`
  unfoldable pub trim : List (Option (LinkInt TX)) → List (Option (LinkInt TX))
  trim [] = []
  trim (some l ∷ ls) = some l ∷ trim ls
  trim (none ∷ ls) = let rest = trim ls in elim rest [ [] ↦ [] | x ∷ xs ↦ none ∷ x ∷ xs ]

  -- `self.links[id] = None` once the link is unconfirmed, and the end of the list trimmed
  unfoldable pub clear_link : ℕ → Run (Task TX) → Run (Task TX)
  unfolding trim
  clear_link id (ok t) = ok (record t { links = trim (set t.links id none) })
  clear_link id (err f) = err f

  unfoldable pub remove_link : ℕ → ℕ → Task TX → Run (Task TX)
  unfolding unconfirm_link clear_link
  remove_link now id t = do
    l ← link_at t.links id
    clear_link id (unconfirm_link now id NotWorkingReason.disconnecting t)

  -- The first free slot, or a new one at the end.
  unfoldable pub place : LinkInt TX → List (Option (LinkInt TX)) → ℕ × List (Option (LinkInt TX))
  place l [] = (0, some l ∷ [])
  place l (none ∷ ls) = (0, some l ∷ ls)
  place l (some k ∷ ls) = let rest = place l ls in (suc rest.0, some k ∷ rest.1)

  unfoldable pub add_link : ℕ → LinkInt TX → Task TX → ℕ × Task TX
  unfolding place
  add_link now l t =
      let l1 = report_ready now l in
      let l2 =
        if ltb 0 (link_cfg l).test_data_limit
        then set_unconfirmed (some (now, NotWorkingReason.new)) l1
        else record l1 { last_ping = some now } in
      let p = place l2 t.links in (p.0, record t { links = p.1 })
