-- ===== src/Task/Links/Removal.antt =====
-- Removing a link: the other links keep their indices, and nothing of the removed one is counted.
use aggligator.Base.{
  ℕ, zero, suc, ◌≤◌, ◌≡◌, ◌≢◌, refl, ap, ◌∙◌, Option, none, some, List, [], ◌∷◌, set, length, arith,
}
use aggligator.Base.Result.{ok}
use aggligator.Seq.{one_quarter}
use aggligator.Link.{LinkInt, NotWorkingReason}
use aggligator.Task.Defs.{Task, link_at}
use aggligator.Task.Ack.Acknowledge.{Accounted}
use aggligator.Task.Links.{trim, clear_link, remove_link}
use aggligator.Task.Links.Unconfirm.{Exists}
use aggligator.Task.Ack.Queue.{Resendable}
use aggligator.Task.Resend.Kept.{unconfirm_link-Resendable}

module _ {TX : Type 0} where
  abbrev trimmed : Option (LinkInt TX) → List (Option (LinkInt TX)) → List (Option (LinkInt TX))
  trimmed x [] = []
  trimmed x (y ∷ ys) = x ∷ y ∷ ys

  -- Trimming changes no index that there was a link at.
  trim-link_at :
      (ls : List (Option (LinkInt TX))) (j : ℕ) (l : LinkInt TX)
      → link_at (trim ls) j ≡ ok l
      → link_at ls j ≡ ok l
  unfolding trim
  trim-link_at [] j l e = e
  trim-link_at (some k ∷ ls) zero l e = e
  trim-link_at (some k ∷ ls) (suc j) l e = trim-link_at ls j l e
  trim-link_at (none ∷ ls) j l e = go (trim ls) (trim-link_at ls) j e
    where
      go :
          (rest : List (Option (LinkInt TX)))
          → ((i : ℕ) (k : LinkInt TX) → link_at rest i ≡ ok k → link_at ls i ≡ ok k)
          → (i : ℕ)
          → link_at
              (elim rest as (λ _. List (Option (LinkInt TX))) [ [] ↦ [] | x ∷ xs ↦ none ∷ x ∷ xs ])
              i
            ≡ ok l
          → link_at (none ∷ ls) i ≡ ok l
      go [] h i e' = cc
      go (x ∷ xs) h zero e' = cc
      go (x ∷ xs) h (suc i) e' = h i l e'

  trim-Exists : (ls : List (Option (LinkInt TX))) (j : ℕ) → Exists ls j → Exists (trim ls) j
  unfolding trim
  trim-Exists [] j e = e
  trim-Exists (some k ∷ ls) zero e = e
  trim-Exists (some k ∷ ls) (suc j) e = trim-Exists ls j e
  trim-Exists (none ∷ ls) zero (k, e) = cc
  trim-Exists (none ∷ ls) (suc j) e = go (trim ls) (trim-Exists ls j e)
    where
      go :
          (rest : List (Option (LinkInt TX)))
          → Exists rest j
          → Exists
              (elim rest as (λ _. List (Option (LinkInt TX))) [ [] ↦ [] | x ∷ xs ↦ none ∷ x ∷ xs ])
              (suc j)
      go [] (k, h) = cc
      go (x ∷ xs) h = h

  cleared-link_at :
      (ls : List (Option (LinkInt TX))) (id j : ℕ) (l : LinkInt TX)
      → link_at (set ls id none) j ≡ ok l
      → (j ≢ id) × (link_at ls j ≡ ok l)
  cleared-link_at [] id j l e = cc
  cleared-link_at (x ∷ ls) zero zero l e = cc
  cleared-link_at (x ∷ ls) zero (suc j) l e = (λ k. omega (arith, k), e)
  cleared-link_at (x ∷ ls) (suc id) zero l e = (λ k. omega (arith, k), e)
  cleared-link_at (x ∷ ls) (suc id) (suc j) l e =
      let h = cleared-link_at ls id j l e in (λ k. h.0 (omega (arith, k)), h.1)

  cleared-Exists :
      (ls : List (Option (LinkInt TX))) (id j : ℕ)
      → j ≢ id
      → Exists ls j
      → Exists (set ls id none) j
  cleared-Exists [] id j ne e = e
  cleared-Exists (x ∷ ls) zero zero ne e = absurd (ne refl)
  cleared-Exists (x ∷ ls) zero (suc j) ne e = e
  cleared-Exists (x ∷ ls) (suc id) zero ne e = e
  cleared-Exists (x ∷ ls) (suc id) (suc j) ne e = cleared-Exists ls id j (λ k. ne (ap suc k)) e

  pub record Removed (n a now id : ℕ) (t : Task TX) : Type 0 where
    pub after : Task TX
    pub runs : remove_link now id t ≡ ok after
    pub accounted : Accounted n after
    pub resendable : Resendable a after.tx_state
    pub kept : length after.txed_packets ≡ length t.txed_packets
    pub gone : (l : LinkInt TX) → link_at after.links id ≢ ok l
    pub others : (j : ℕ) → j ≢ id → Exists t.links j → Exists after.links j

  -- A link that exists is removed without a panic: it is gone, every other link is still found at its index, no
  -- packet is lost, the numbers and the sums stay right, and the resend queue stays the packets that
  -- wait, oldest first, while at most a quarter of the sequence numbers are in use.
  pub remove_link-Resendable :
      (n a now id : ℕ) (l : LinkInt TX) (t : Task TX)
      → Accounted n t
      → Resendable a t.tx_state
      → length t.txed_packets ≤ one_quarter
      → link_at t.links id ≡ ok l
      → Removed n a now id t
  unfolding remove_link clear_link
  remove_link-Resendable n a now id l t acc h le here =
      let u =
        unconfirm_link-Resendable n a now id NotWorkingReason.disconnecting l t acc h le here in
      let ls : List (Option (LinkInt TX)) = set u.after.links id none in
      record {
        after = record u.after { links = trim ls };
        runs = (rw here refl) ∙ ap (clear_link id) u.runs;
        accounted = record {
          counted = u.accounted.counted;
          links = λ j k at.
              u.accounted.links j k
                (cleared-link_at u.after.links id j k (trim-link_at ls j k at)).1;
        };
        resendable = u.resendable;
        kept = u.kept;
        gone = λ k at. (cleared-link_at u.after.links id id k (trim-link_at ls id k at)).0 refl;
        others = λ j ne e. trim-Exists ls j (cleared-Exists u.after.links id j ne (u.there j e));
      }
