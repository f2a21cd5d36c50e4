-- ===== src/Task/Limits/Checked.antt =====
-- Checking the links' limits unconfirms links one after another and never panics.
use aggligator.Base.{
  All-append, ℕ, suc, ◌+◌, ◌≤◌, ◌≡◌, refl, subst, ◌∙◌, Bool, true, false, ◌&&◌, Option, none, some,
  List, [], ◌∷◌, ◌++◌, All, length, if◌then◌else◌, is_none, Bool-cases, inl, inr, arith,
}
use aggligator.Base.Result.{ok}
use aggligator.Seq.{one_quarter}
use aggligator.Link.{LinkInt, NotWorkingReason}
use aggligator.Task.Defs.{Task}
use aggligator.Task.Ack.Acknowledge.{Accounted}
use aggligator.Task.Testing.{ping_spread_limits}
use aggligator.Task.Links.Unconfirm.{Exists}
use aggligator.Task.Ack.Queue.{Resendable}
use aggligator.Task.Resend.Kept.{unconfirm_link-Resendable}
use aggligator.Task.Limits.{
  exceeds_max_ping, exceeds_spread, confirmed_ids, all_too_slow, over_max_ping, over_spread,
  unconfirm_links, check_link_limits,
}

All-map : (P Q : ℕ → Type 0) → ((j : ℕ) → P j → Q j) → (xs : List ℕ) → All P xs → All Q xs
All-map P Q f [] h = tt
All-map P Q f (x ∷ xs) h = (f x h.0, All-map P Q f xs h.1)

module _ {TX : Type 0} where
  -- A link of this index, where the list starts at index `i`.
  From : ℕ → List (Option (LinkInt TX)) → ℕ → Type 0
  From i ls j = (k : ℕ) × (j ≡ i + k) × Exists ls k

  From-further :
      (i : ℕ) (x : Option (LinkInt TX)) (ls : List (Option (LinkInt TX))) (j : ℕ)
      → From (suc i) ls j
      → From i (x ∷ ls) j
  unfolding From
  From-further i x ls j (k, e, h) = (suc k, omega (arith, e), h)

  confirmed_ids-From :
      (test : LinkInt TX → Bool) (i : ℕ) (ls : List (Option (LinkInt TX)))
      → All (From i ls) (confirmed_ids test i ls)
  unfolding From confirmed_ids
  confirmed_ids-From test i [] = tt
  confirmed_ids-From test i (none ∷ ls) =
      All-map (From (suc i) ls) (From i (none ∷ ls)) (From-further i none ls) _
        (confirmed_ids-From test (suc i) ls)
  confirmed_ids-From test i (some l ∷ ls) =
      let rest =
        All-map (From (suc i) ls) (From i (some l ∷ ls)) (From-further i (some l) ls) _
          (confirmed_ids-From test (suc i) ls) in
      elim (Bool-cases (is_none l.unconfirmed && test l)) [
        | inl found ↦ rw (confirmed_ids, found) ((0, omega arith, (l, refl)), rest)
        | inr other ↦ rw (confirmed_ids, other) rest
      ]

  confirmed_ids-Exists :
      (test : LinkInt TX → Bool) (ls : List (Option (LinkInt TX)))
      → All (Exists ls) (confirmed_ids test 0 ls)
  unfolding From
  confirmed_ids-Exists test ls =
      All-map (From 0 ls) (Exists ls)
        (λ j h. subst (Exists ls) (let e : h.0 ≡ j = omega (arith, h.1) in e) h.2) _
        (confirmed_ids-From test 0 ls)

  over_max_ping-Exists : (t : Task TX) → All (Exists t.links) (over_max_ping t)
  unfolding over_max_ping
  over_max_ping-Exists t = go (all_too_slow t.links)
    where
      go :
          (b : Bool)
          → All (Exists t.links) (if b then [] else confirmed_ids exceeds_max_ping 0 t.links)
      go true = tt
      go false = confirmed_ids-Exists exceeds_max_ping t.links

  over_spread-Exists :
      (limits : Option (ℕ × ℕ)) (ls : List (Option (LinkInt TX)))
      → All (Exists ls) (over_spread limits ls)
  unfolding over_spread
  over_spread-Exists none ls = tt
  over_spread-Exists (some (limit_ping, good_ping)) ls =
      confirmed_ids-Exists (exceeds_spread limit_ping) ls

  record UnconfirmsAll (n a now : ℕ) (ids : List ℕ) (t : Task TX) : Type 0 where
    after : Task TX
    runs : unconfirm_links now ids t ≡ ok after
    accounted : Accounted n after
    resendable : Resendable a after.tx_state
    kept : length after.txed_packets ≡ length t.txed_packets
    there : (j : ℕ) → Exists t.links j → Exists after.links j

  unconfirm_links-Resendable :
      (n a now : ℕ) (ids : List ℕ) (t : Task TX)
      → Accounted n t
      → Resendable a t.tx_state
      → length t.txed_packets ≤ one_quarter
      → All (Exists t.links) ids
      → UnconfirmsAll n a now ids t
  unfolding unconfirm_links
  unconfirm_links-Resendable n a now [] t acc h le es = record {
    after = t;
    runs = refl;
    accounted = acc;
    resendable = h;
    kept = refl;
    there = λ j e. e;
  }
  unconfirm_links-Resendable n a now (id ∷ ids) t acc h le es =
      let u =
        unconfirm_link-Resendable n a now id NotWorkingReason.max_ping_exceeded es.0.0 t acc h le
          es.0.1 in
      let x =
        unconfirm_links-Resendable n a now ids u.after u.accounted u.resendable
          (omega (arith, u.kept, le))
          (All-map (Exists t.links) (Exists u.after.links) u.there ids es.1) in
      record {
        after = x.after;
        runs = rw u.runs x.runs;
        accounted = x.accounted;
        resendable = x.resendable;
        kept = x.kept ∙ u.kept;
        there = λ j e. x.there j (u.there j e);
      }

  pub record Checks (n a now : ℕ) (t : Task TX) : Type 0 where
    pub after : Task TX
    pub runs : check_link_limits now t ≡ ok after
    pub accounted : Accounted n after
    pub resendable : Resendable a after.tx_state
    pub kept : length after.txed_packets ≡ length t.txed_packets
    pub there : (j : ℕ) → Exists t.links j → Exists after.links j

  -- Checking the limits of the links ends without a panic, also when a link is found twice; no packet is lost and
  -- no link goes, the numbers and the sums stay right, and the resend queue stays the packets that wait,
  -- oldest first, while at most a quarter of the sequence numbers are in use.
  pub check_link_limits-Resendable :
      (n a now : ℕ) (t : Task TX)
      → Accounted n t
      → Resendable a t.tx_state
      → length t.txed_packets ≤ one_quarter
      → Checks n a now t
  unfolding check_link_limits
  check_link_limits-Resendable n a now t acc h le =
      let x =
        unconfirm_links-Resendable n a now
          (over_max_ping t ++ over_spread (ping_spread_limits t) t.links) t acc h le
          (All-append (Exists t.links) (over_max_ping t) _ (over_max_ping-Exists t)
            (over_spread-Exists (ping_spread_limits t) t.links)) in
      record {
        after = x.after;
        runs = x.runs;
        accounted = x.accounted;
        resendable = x.resendable;
        kept = x.kept;
        there = x.there;
      }
