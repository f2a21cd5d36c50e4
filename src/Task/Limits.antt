-- ===== src/Task/Limits.antt =====
-- aggligator/src/agg/task.rs: `check_link_limits`, which unconfirms links that are too slow.
pub mod Adjust
pub mod Checked
use aggligator.Base.{
  ℕ, zero, suc, ◌*◌, Bool, true, false, not, ◌&&◌, ◌||◌, Option, none, some, List, [], ◌∷◌, ◌++◌,
  ltb, leb, if◌then◌else◌, is_none, is_some,
}
use aggligator.Base.Result.{ok, err, ◌>>=◌}
use aggligator.Fault.{Run}
use aggligator.Link.{LinkInt, NotWorkingReason, link_cfg, is_blocked}
use aggligator.Task.Defs.{Task}
use aggligator.Task.Testing.{ping_spread_limits, reliable_roundtrip_estimates}
use aggligator.Task.Links.{unconfirm_link}

-- `is_some_and(|max_ping| limit > max_ping)` and `is_none_or` of the same
abbrev pub exceeds : Option ℕ → ℕ → Bool
exceeds none roundtrip = false
exceeds (some max_ping) roundtrip = ltb max_ping roundtrip

abbrev pub exceeds_or_none : Option ℕ → ℕ → Bool
exceeds_or_none none roundtrip = true
exceeds_or_none (some max_ping) roundtrip = ltb max_ping roundtrip

-- `is_some_and(|n| n >= RELIABLE_ROUNDTRIP_ESTIMATES)`
abbrev pub is_reliable : Option ℕ → Bool
is_reliable none = false
is_reliable (some n) = leb reliable_roundtrip_estimates n

-- `unconfirm_link` for each link that was found, in order
unfoldable pub unconfirm_links : {TX : Type 0} → ℕ → List ℕ → Task TX → Run (Task TX)
unfolding unconfirm_link
unconfirm_links now [] t = ok t
unconfirm_links now (id ∷ ids) t =
    unconfirm_link now id NotWorkingReason.max_ping_exceeded t >>= λ t'. unconfirm_links now ids t'

module _ {TX : Type 0} where
  abbrev pub exceeds_max_ping : LinkInt TX → Bool
  exceeds_max_ping l = exceeds (link_cfg l).max_ping l.roundtrip

  -- More than twice above the limit of the ping spread, with a roundtrip time that is well known.
  abbrev pub exceeds_spread : ℕ → LinkInt TX → Bool
  exceeds_spread limit_ping l =
      ltb (2 * limit_ping) l.roundtrip && is_reliable l.roundtrip_estimates

  -- The confirmed links that pass a test, from index `i` on.
  unfoldable pub confirmed_ids : (LinkInt TX → Bool) → ℕ → List (Option (LinkInt TX)) → List ℕ
  confirmed_ids test i [] = []
  confirmed_ids test i (none ∷ ls) = confirmed_ids test (suc i) ls
  confirmed_ids test i (some l ∷ ls) =
      let rest = confirmed_ids test (suc i) ls in
      if is_none l.unconfirmed && test l then i ∷ rest else rest

  unfoldable pub all_too_slow : List (Option (LinkInt TX)) → Bool
  all_too_slow [] = true
  all_too_slow (none ∷ ls) = all_too_slow ls
  all_too_slow (some l ∷ ls) =
      (is_some l.unconfirmed || is_blocked l || exceeds_or_none (link_cfg l).max_ping l.roundtrip)
      && all_too_slow ls

  -- The links that `check_link_limits` finds.
  unfoldable pub over_max_ping : Task TX → List ℕ
  unfolding confirmed_ids all_too_slow
  over_max_ping t = if all_too_slow t.links then [] else confirmed_ids exceeds_max_ping 0 t.links

  unfoldable pub over_spread : Option (ℕ × ℕ) → List (Option (LinkInt TX)) → List ℕ
  unfolding confirmed_ids
  over_spread none ls = []
  over_spread (some (limit_ping, good_ping)) ls = confirmed_ids (exceeds_spread limit_ping) 0 ls

  unfoldable pub check_link_limits : ℕ → Task TX → Run (Task TX)
  unfolding over_max_ping over_spread unconfirm_links
  check_link_limits now t =
      unconfirm_links now (over_max_ping t ++ over_spread (ping_spread_limits t) t.links) t
