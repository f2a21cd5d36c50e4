-- ===== src/Task/Limits/Adjust/Change.antt =====
-- What an adjustment may do to one link: it counts the same data, and its limit stays within the configured one.
use aggligator.Base.{
  ℕ, ◌*◌, ◌/◌, ◌≤◌, ◌<◌, ◌≡◌, refl, ap, ◌∙◌, min, max, Bool, true, false, Option, none, some, List,
  [], ◌∷◌, leb, ◌==◌, if◌then◌else◌, Bool-cases, inl, inr, arith,
}
use native.Mathlib.Nat.{mul-le-mul}
use aggligator.Seq.{Seq}
use aggligator.Cfg.{LinkCfg, UnackedIncrease}
use aggligator.Link.{LinkInt, link_cfg}
use aggligator.Task.Limits.Adjust.{
  later, best_step, lower_limit, reduced, lower_slow, lower_spread, increase_percent, raise_limit,
  may_raise, raise_blocked, reset_count,
}

abbrev pub greatest_percent : List UnackedIncrease → ℕ
greatest_percent [] = 0
greatest_percent (x ∷ xs) = max x.percent (greatest_percent xs)

-- The most that a configured link is allowed after its limit was raised.
abbrev pub raised_most : LinkCfg → ℕ
raised_most c =
    max
      (c.unacked_limit
        * max c.unacked_increase_single_link (greatest_percent c.unacked_increase)
        / 100)
      100

abbrev pub percent_of : Option UnackedIncrease → ℕ
percent_of none = 0
percent_of (some x) = x.percent

pub later-percent :
    (x : UnackedIncrease) (o : Option UnackedIncrease) (m : ℕ)
    → percent_of o ≤ m
    → (later x o).percent ≤ max x.percent m
later-percent x none m h = omega arith
later-percent x (some y) m h = elim (Bool-cases (leb x.consecutive y.consecutive)) [
  | inl after ↦ rw after (omega (arith, h))
  | inr before ↦ rw before (omega arith)
]

pub best_step-percent :
    (n : ℕ) (xs : List UnackedIncrease) → percent_of (best_step n xs) ≤ greatest_percent xs
unfolding best_step
best_step-percent n [] = omega arith
best_step-percent n (x ∷ xs) = elim (Bool-cases (leb x.consecutive n)) [
  | inl reached ↦
      rw (best_step, reached)
        (later-percent x (best_step n xs) (greatest_percent xs) (best_step-percent n xs))
  | inr not_yet ↦ rw (best_step, not_yet) (omega (arith, best_step-percent n xs))
]

module _ {TX : Type 0} where
  pub record Within (l l' : LinkInt TX) : Type 0 where
    pub unacked : l'.txed_unacked_data ≡ l.txed_unacked_data
    pub id : l'.link_id ≡ l.link_id
    pub polling : l'.tx_polling ≡ l.tx_polling
    pub waiting : l'.tx_data ≡ l.tx_data
    pub cfg : link_cfg l' ≡ link_cfg l
    pub limit :
        l'.txed_unacked_data_limit ≤ max l.txed_unacked_data_limit (raised_most (link_cfg l))

  pub unchanged-Within : (l : LinkInt TX) → Within l l
  unchanged-Within l = record {
    unacked = refl;
    id = refl;
    polling = refl;
    waiting = refl;
    cfg = refl;
    limit = omega arith;
  }

  pub trans-Within : {a b c : LinkInt TX} → Within a b → Within b c → Within a c
  trans-Within {a} {b} {c} x y = record {
    unacked = y.unacked ∙ x.unacked;
    id = y.id ∙ x.id;
    polling = y.polling ∙ x.polling;
    waiting = y.waiting ∙ x.waiting;
    cfg = y.cfg ∙ x.cfg;
    limit = omega (arith, x.limit, y.limit, ap raised_most x.cfg);
  }

  pub lower_limit-Within :
      (share : ℕ → ℕ) (coming : Seq) (l : LinkInt TX)
      → ((n : ℕ) → share n ≤ n)
      → Within l (lower_limit share coming l)
  unfolding lower_limit
  lower_limit-Within share coming l h = record {
    unacked = refl;
    id = refl;
    polling = refl;
    waiting = refl;
    cfg = refl;
    limit = omega (arith, h (min l.txed_unacked_data l.txed_unacked_data_limit));
  }

  pub if-Within : (b : Bool) (l x : LinkInt TX) → Within l x → Within l (if b then x else l)
  if-Within true l x h = h
  if-Within false l x h = unchanged-Within l

  pub lower_slow-Within : (coming : Seq) (l : LinkInt TX) → Within l (lower_slow coming l)
  unfolding lower_slow
  lower_slow-Within coming l =
      if-Within _ l (lower_limit reduced coming l)
        (lower_limit-Within reduced coming l (λ n. omega arith))

  pub forget_estimates :
      (l k : LinkInt TX) → Within l k → Within l (record k { roundtrip_estimates = none })
  forget_estimates l k h = record {
    unacked = h.unacked;
    id = h.id;
    polling = h.polling;
    waiting = h.waiting;
    cfg = h.cfg;
    limit = h.limit;
  }

  pub lower_spread-Within :
      (limit_ping : ℕ) (coming : Seq) (l : LinkInt TX) → Within l (lower_spread limit_ping coming l)
  unfolding lower_spread
  lower_spread-Within limit_ping coming l =
      if-Within _ l (record (lower_limit reduced coming l) { roundtrip_estimates = none })
        (forget_estimates l (lower_limit reduced coming l)
          (lower_limit-Within reduced coming l (λ n. omega arith)))

  pub reset_count-Within : (l : LinkInt TX) → Within l (reset_count l)
  reset_count-Within l = record {
    unacked = refl;
    id = refl;
    polling = refl;
    waiting = refl;
    cfg = refl;
    limit = omega arith;
  }

  pub increase_percent-most :
      (working : ℕ) (l : LinkInt TX) (p : ℕ)
      → increase_percent working l ≡ some p
      → p
        ≤ max
            (link_cfg l).unacked_increase_single_link
            (greatest_percent (link_cfg l).unacked_increase)
  unfolding increase_percent
  increase_percent-most working l p e =
      go (working == 1)
        (best_step l.txed_unacked_data_limit_increased_consecutively (link_cfg l).unacked_increase)
        e
        (best_step-percent l.txed_unacked_data_limit_increased_consecutively
          (link_cfg l).unacked_increase)
    where
      go :
          (b : Bool) (o : Option UnackedIncrease)
          → (if b
              then some (link_cfg l).unacked_increase_single_link
              else (elim o as (λ _. Option ℕ) [ none ↦ none | some x ↦ some x.percent ]))
            ≡ some p
          → percent_of o ≤ greatest_percent (link_cfg l).unacked_increase
          → p
            ≤ max
                (link_cfg l).unacked_increase_single_link
                (greatest_percent (link_cfg l).unacked_increase)
      go true o e h = let k : (link_cfg l).unacked_increase_single_link ≡ p = cc in omega (arith, k)
      go false none e h = cc
      go false (some x) e h = let k : x.percent ≡ p = cc in omega (arith, k, h)

  pub raise_limit-Within :
      (coming : Seq) (l : LinkInt TX) (o : Option ℕ)
      → l.txed_unacked_data_limit < (link_cfg l).unacked_limit
      → ((p : ℕ)
          → o ≡ some p
          → p
            ≤ max
                (link_cfg l).unacked_increase_single_link
                (greatest_percent (link_cfg l).unacked_increase))
      → Within l (raise_limit coming l o)
  unfolding raise_limit
  raise_limit-Within coming l none lt h = unchanged-Within l
  raise_limit-Within coming l (some p) lt h =
      let prod =
        mul-le-mul {n₁ = l.txed_unacked_data_limit} {m₁ = p} {n₂ = (link_cfg l).unacked_limit}
          {m₂ = max (link_cfg l).unacked_increase_single_link
            (greatest_percent (link_cfg l).unacked_increase)}
          (omega (arith, lt)) (h p refl) in
      record {
        unacked = refl;
        id = refl;
        polling = refl;
        waiting = refl;
        cfg = refl;
        limit = omega (arith, prod);
      }

  pub below_configured :
      (slow : Bool) (good_ping : Option ℕ) (l : LinkInt TX)
      → may_raise slow good_ping l ≡ true
      → l.txed_unacked_data_limit < (link_cfg l).unacked_limit
  unfolding may_raise
  below_configured slow good_ping l e = ground arith

  pub raise_blocked-Within :
      (working : ℕ) (slow : Bool) (good_ping : Option ℕ) (coming : Seq) (l : LinkInt TX)
      → Within l (raise_blocked working slow good_ping coming l)
  unfolding raise_blocked
  raise_blocked-Within working slow good_ping coming l =
      elim (Bool-cases (may_raise slow good_ping l)) [
        | inl may ↦
            rw (raise_blocked, may)
              (raise_limit-Within coming l (increase_percent working l)
                (below_configured slow good_ping l may)
                (λ p e. increase_percent-most working l p e))
        | inr may_not ↦ rw (raise_blocked, may_not) (unchanged-Within l)
      ]
