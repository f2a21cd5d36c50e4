-- ===== src/Task/Timeouts/Earliest.antt =====
-- The timeout found is the earliest of the links', and the first such link's.
use aggligator.Base.{
  ℕ, zero, suc, ◌+◌, ◌≤◌, ◌<◌, ◌≡◌, true, false, refl, sym, ap, ◌∙◌, Option, none, some, List, [],
  ◌∷◌, arith, leb, Bool-cases, inl, inr,
}
use aggligator.Base.Result.{ok}
use aggligator.Cfg.{LinkCfg}
use aggligator.Link.{LinkInt}
use aggligator.Task.Defs.{Task, link_at}
use aggligator.Task.Timeouts.{
  sooner, min_by_time, due_from, specific_timeout, earliest_link_specific_timeout,
}

module _ {TX : Type 0} where
  -- Which of the links, numbered from `i` on, is due first: none is due, or the link's time is not after that of any
  -- other, and before that of the links in front of it.
  abbrev pub IsFirstDue :
      (LinkInt TX → Option ℕ) → ℕ → List (Option (LinkInt TX)) → Option (ℕ × ℕ) → Type 0
  IsFirstDue f i ls none = (j : ℕ) (l : LinkInt TX) → link_at ls j ≡ ok l → f l ≡ none
  IsFirstDue f i ls (some x) =
      ((j : ℕ) × (l : LinkInt TX) × (x.0 ≡ i + j) × (link_at ls j ≡ ok l) × (f l ≡ some x.1))
      × ((j : ℕ) (l : LinkInt TX) (at : ℕ)
          → link_at ls j ≡ ok l
          → f l ≡ some at
          → (x.1 ≤ at) × (i + j < x.0 → x.1 < at))

  First : (LinkInt TX → Option ℕ) → ℕ → List (Option (LinkInt TX)) → Type 0
  unfolding min_by_time
  First f i ls = IsFirstDue f i ls (min_by_time (due_from f i ls))

  -- A link in front that is not there, or not due, changes nothing.
  skipped :
      (f : LinkInt TX → Option ℕ) (i : ℕ) (x : Option (LinkInt TX))
      (ls : List (Option (LinkInt TX))) (r : Option (ℕ × ℕ))
      → ((l : LinkInt TX) → link_at (x ∷ ls) 0 ≡ ok l → f l ≡ none)
      → IsFirstDue f (suc i) ls r
      → IsFirstDue f i (x ∷ ls) r
  skipped f i x ls none off h = go
    where
      go : (j : ℕ) (l : LinkInt TX) → link_at (x ∷ ls) j ≡ ok l → f l ≡ none
      go zero l e = off l e
      go (suc j) l e = h j l e
  skipped f i x ls (some y) off h = ((suc h.0.0, h.0.1, omega (arith, h.0.2), h.0.3, h.0.4), go)
    where
      go :
          (j : ℕ) (l : LinkInt TX) (at : ℕ)
          → link_at (x ∷ ls) j ≡ ok l
          → f l ≡ some at
          → (y.1 ≤ at) × (i + j < y.0 → y.1 < at)
      go zero l at e k = absurd (let z : none ≡ some at = sym (off l e) ∙ k in cc)
      go (suc j) l at e k = ((h.1 j l at e k).0, λ lt. (h.1 j l at e k).1 (omega arith))

  -- A link in front that is due.
  due_first :
      (f : LinkInt TX → Option ℕ) (i at : ℕ) (k : LinkInt TX) (ls : List (Option (LinkInt TX)))
      (r : Option (ℕ × ℕ))
      → f k ≡ some at
      → IsFirstDue f (suc i) ls r
      → IsFirstDue f i (some k ∷ ls) (some (sooner (i, at) r))
  unfolding sooner
  due_first f i at k ls none due h = ((0, k, omega arith, refl, due), go)
    where
      go :
          (j : ℕ) (l : LinkInt TX) (at' : ℕ)
          → link_at (some k ∷ ls) j ≡ ok l
          → f l ≡ some at'
          → (at ≤ at') × (i + j < i → at < at')
      go zero l at' e q =
          let z : some at ≡ some at' = sym due ∙ ap f (let w : k ≡ l = cc in w) ∙ q in
          (let w : at ≡ at' = cc in omega arith, λ lt. absurd (omega arith))
      go (suc j) l at' e q = absurd (let z : none ≡ some at' = sym (h j l e) ∙ q in cc)
  due_first f i at k ls (some y) due h = elim (Bool-cases (leb at y.1)) [
    | inl early ↦ rw early ((0, k, omega arith, refl, due), here early)
    | inr late ↦ rw late ((suc h.0.0, h.0.1, omega (arith, h.0.2), h.0.3, h.0.4), there late)
  ]
    where
      same : (l : LinkInt TX) (at' : ℕ) → link_at (some k ∷ ls) 0 ≡ ok l → f l ≡ some at' → at ≡ at'
      same l at' e q =
          let z : some at ≡ some at' = sym due ∙ ap f (let w : k ≡ l = cc in w) ∙ q in cc

      here :
          leb at y.1 ≡ true
          → (j : ℕ) (l : LinkInt TX) (at' : ℕ) → link_at (some k ∷ ls) j ≡ ok l
          → f l ≡ some at'
          → (at ≤ at') × (i + j < i → at < at')
      here early zero l at' e q = (omega (arith, same l at' e q), λ lt. absurd (omega arith))
      here early (suc j) l at' e q =
          (ground (arith, (h.1 j l at' e q).0), λ lt. absurd (omega arith))

      there :
          leb at y.1 ≡ false
          → (j : ℕ) (l : LinkInt TX) (at' : ℕ) → link_at (some k ∷ ls) j ≡ ok l
          → f l ≡ some at'
          → (y.1 ≤ at') × (i + j < y.0 → y.1 < at')
      there late zero l at' e q =
          let less : y.1 < at = ground arith in
          (omega (arith, same l at' e q), λ lt. omega (arith, same l at' e q))
      there late (suc j) l at' e q = ((h.1 j l at' e q).0, λ lt. (h.1 j l at' e q).1 (omega arith))

  WithSlot :
      (LinkInt TX → Option ℕ) → ℕ → LinkInt TX → List (Option (LinkInt TX)) → Option ℕ → Type 0
  unfolding min_by_time
  WithSlot f i k ls due = IsFirstDue f i (some k ∷ ls) (
      min_by_time
        (elim due [ none ↦ due_from f (suc i) ls | some at ↦ (i, at) ∷ due_from f (suc i) ls ]))

  slot :
      (f : LinkInt TX → Option ℕ) (i : ℕ) (k : LinkInt TX) (ls : List (Option (LinkInt TX)))
      (due : Option ℕ)
      → f k ≡ due
      → First f (suc i) ls
      → WithSlot f i k ls due
  unfolding First WithSlot min_by_time
  slot f i k ls none e h = skipped f i (some k) ls _ (λ l w. ap f (let z : l ≡ k = cc in z) ∙ e) h
  slot f i k ls (some at) e h = due_first f i at k ls _ e h

  due_from-First :
      (f : LinkInt TX → Option ℕ) (i : ℕ) (ls : List (Option (LinkInt TX))) → First f i ls
  unfolding First WithSlot min_by_time due_from
  due_from-First f i [] = λ j l e. cc
  due_from-First f i (none ∷ ls) = skipped f i none ls _ (λ l e. cc) (due_from-First f (suc i) ls)
  due_from-First f i (some k ∷ ls) = slot f i k ls (f k) refl (due_from-First f (suc i) ls)

  -- The earliest link-specific timeout, of any configured duration and any start, is none when no link has such
  -- a start, and else the first of the earliest: a link that exists has it, none of the links is due
  -- before, and those in front of it are due later.
  pub earliest_link_specific_timeout-IsFirstDue :
      (timeout_fn : LinkCfg → ℕ) (since_fn : LinkInt TX → Option ℕ) (t : Task TX)
      → IsFirstDue
          (specific_timeout timeout_fn since_fn)
          0
          t.links
          (earliest_link_specific_timeout timeout_fn since_fn t)
  unfolding earliest_link_specific_timeout First
  earliest_link_specific_timeout-IsFirstDue timeout_fn since_fn t =
      due_from-First (specific_timeout timeout_fn since_fn) 0 t.links
