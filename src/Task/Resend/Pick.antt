-- ===== src/Task/Resend/Pick.antt =====
-- What one idle link does to the choice of links.
use mathlib.Core.List.{reverse_aux}
use aggligator.Base.{
  ℕ, ◌≡◌, refl, sym, ap, ◌∙◌, Bool, true, false, ◌&&◌, Option, none, some, List, [], ◌∷◌, All,
  arith, Bool-cases, inl, inr, ◌⊎◌, is_some, if◌then◌else◌,
}
use aggligator.Base.Result.{ok}
use aggligator.Link.{LinkInt, is_sendable}
use aggligator.Task.Defs.{link_at}
use aggligator.Task.Resend.{Choice, may_resend, is_complete, choose_link}

abbrev pub Alike : Option ℕ → Choice → Type 0
Alike none c = is_some c.sendable_idle_link_id ≡ is_some c.resendable_idle_link_id
Alike (some nr) c = Unit {0}

pub complete-both :
    (nr : Option ℕ) (c : Choice)
    → Alike nr c
    → is_complete nr c ≡ true
    → (is_some c.sendable_idle_link_id ≡ true) × (is_some c.resendable_idle_link_id ≡ true)
complete-both none c h e = ground arith
complete-both (some nr) c h e = ground arith

pub begun-Alike :
    (nr : Option ℕ)
    → Alike nr (record { sendable_idle_link_id = none; resendable_idle_link_id = none })
begun-Alike none = refl
begun-Alike (some nr) = tt

pub All-reverse_aux :
    (P : ℕ → Type 0) (xs ys : List ℕ) → All P xs → All P ys → All P (reverse_aux xs ys)
All-reverse_aux P [] ys h k = k
All-reverse_aux P (x ∷ xs) ys h k = All-reverse_aux P xs (x ∷ ys) h.1 (h.0, k)

module _ {TX : Type 0} where
  -- A link that exists, is ready to send, and passes a test.
  pub record Usable (fits : LinkInt TX → Bool) (ls : List (Option (LinkInt TX))) (id : ℕ)
      : Type 0 where
    pub link : LinkInt TX
    pub here : link_at ls id ≡ ok link
    pub idle : link.tx_polling ≡ none
    pub empty : link.tx_data ≡ none
    pub fit : fits link ≡ true

  abbrev pub any_link : LinkInt TX → Bool
  any_link l = true

  abbrev pub resendable_link : Option ℕ → LinkInt TX → Bool
  resendable_link nr l = is_sendable l && may_resend nr l.link_id

  -- The first of the links `ids` that passes
  abbrev pub IsFirst : (LinkInt TX → Bool) → List (Option (LinkInt TX)) → List ℕ → ℕ → Type 0
  IsFirst fits ls [] id = ⊥
  IsFirst fits ls (x ∷ xs) id =
      (x ≡ id) ⊎ (((l : LinkInt TX) → link_at ls x ≡ ok l → fits l ≡ false) × IsFirst fits ls xs id)

  -- A choice out of the links `ids`: the first of them that passes, or none when none passes.
  abbrev pub IsChoice :
      (LinkInt TX → Bool) → List (Option (LinkInt TX)) → List ℕ → Option ℕ → Type 0
  IsChoice fits ls ids (some id) = Usable fits ls id × IsFirst fits ls ids id
  IsChoice fits ls ids none =
      All (λ (id : ℕ). (l : LinkInt TX) → link_at ls id ≡ ok l → fits l ≡ false) ids

  -- The choice goes on from one that was made before.
  abbrev pub Continues :
      (LinkInt TX → Bool) → List (Option (LinkInt TX)) → List ℕ → Option ℕ → Option ℕ → Type 0
  Continues fits ls ids before (some id) =
      Usable fits ls id × ((before ≡ some id) ⊎ ((before ≡ none) × IsFirst fits ls ids id))
  Continues fits ls ids before none =
      (before ≡ none)
      × All (λ (id : ℕ). (l : LinkInt TX) → link_at ls id ≡ ok l → fits l ≡ false) ids

  -- What one link does to a choice.
  abbrev pub pick : (LinkInt TX → Bool) → ℕ → LinkInt TX → Option ℕ → Option ℕ
  pick fits id l (some k) = some k
  pick fits id l none = if fits l then some id else none

  pub choose_link-pick :
      (nr : Option ℕ) (id : ℕ) (l : LinkInt TX) (x y : Option ℕ)
      → choose_link nr id l (record { sendable_idle_link_id = x; resendable_idle_link_id = y })
        ≡ record {
          sendable_idle_link_id = pick is_sendable id l x;
          resendable_idle_link_id = pick (resendable_link nr) id l y;
        }
  unfolding choose_link
  choose_link-pick nr id l x y = elim (Bool-cases (is_sendable l)) [
    | inl can ↦ elim (Bool-cases (may_resend nr l.link_id)) [
      | inl may ↦ chosen x y can may
      | inr not_may ↦ barred x y can not_may
    ]
    | inr full ↦ unchanged x y full
  ]
    where
      T : Option ℕ → Option ℕ → Type 0
      T x y =
          choose_link nr id l (record { sendable_idle_link_id = x; resendable_idle_link_id = y })
          ≡ record {
            sendable_idle_link_id = pick is_sendable id l x;
            resendable_idle_link_id = pick (resendable_link nr) id l y;
          }

      chosen : (x y : Option ℕ) → is_sendable l ≡ true → may_resend nr l.link_id ≡ true → T x y
      chosen none none a b = rw (pick, a, b) refl
      chosen none (some j) a b = rw (pick, a) refl
      chosen (some i) none a b = rw (pick, a, b) refl
      chosen (some i) (some j) a b = rw (pick, a) refl

      barred : (x y : Option ℕ) → is_sendable l ≡ true → may_resend nr l.link_id ≡ false → T x y
      barred none none a b = rw (pick, a, b) refl
      barred none (some j) a b = rw (pick, a) refl
      barred (some i) none a b = rw (pick, a, b) refl
      barred (some i) (some j) a b = rw (pick, a) refl

      unchanged : (x y : Option ℕ) → is_sendable l ≡ false → T x y
      unchanged none none a = rw (pick, a) refl
      unchanged none (some j) a = rw (pick, a) refl
      unchanged (some i) none a = rw (pick, a) refl
      unchanged (some i) (some j) a = rw (pick, a) refl

  abbrev pub Valid : (LinkInt TX → Bool) → List (Option (LinkInt TX)) → Option ℕ → Type 0
  Valid fits ls none = Unit {0}
  Valid fits ls (some id) = Usable fits ls id

  pub pick-Valid :
      (fits : LinkInt TX → Bool) (ls : List (Option (LinkInt TX))) (id : ℕ)
      (u : Usable any_link ls id) (o : Option ℕ)
      → Valid fits ls o
      → Valid fits ls (pick fits id u.link o)
  pick-Valid fits ls id u (some k) v = v
  pick-Valid fits ls id u none v = elim (Bool-cases (fits u.link)) [
    | inl fine ↦
        rw (pick, fine, Valid)
          (record { link = u.link; here = u.here; idle = u.idle; empty = u.empty; fit = fine })
    | inr bad ↦ rw (pick, bad, Valid) tt
  ]

  pub stop :
      (fits : LinkInt TX → Bool) (ls : List (Option (LinkInt TX))) (ids : List ℕ) (o : Option ℕ)
      → is_some o ≡ true
      → Valid fits ls o
      → Continues fits ls ids o o
  stop fits ls ids none e v = cc
  stop fits ls ids (some id) e v = (v, inl refl)

  pub last :
      (fits : LinkInt TX → Bool) (ls : List (Option (LinkInt TX))) (o : Option ℕ)
      → Valid fits ls o
      → Continues fits ls [] o o
  last fits ls none v = (refl, tt)
  last fits ls (some id) v = (v, inl refl)

  pub unpicked :
      (fits : LinkInt TX → Bool) (id : ℕ) (l : LinkInt TX) (o : Option ℕ)
      → pick fits id l o ≡ none
      → (o ≡ none) × (fits l ≡ false)
  unpicked fits id l (some k) e = cc
  unpicked fits id l none e = elim (Bool-cases (fits l)) [
    | inl fine ↦ absurd (let k = rw (pick, fine) at e in cc)
    | inr bad ↦ (refl, bad)
  ]

  found_IsFirst :
      (fits : LinkInt TX → Bool) (ls : List (Option (LinkInt TX))) (id : ℕ) (ids : List ℕ)
      (u : Usable any_link ls id) (o : Option ℕ) (k : ℕ)
      → (pick fits id u.link o ≡ some k) ⊎ ((pick fits id u.link o ≡ none) × IsFirst fits ls ids k)
      → (o ≡ some k) ⊎ ((o ≡ none) × IsFirst fits ls (id ∷ ids) k)
  found_IsFirst fits ls id ids u (some j) k (inl e) = inl e
  found_IsFirst fits ls id ids u (some j) k (inr (e, f)) = cc
  found_IsFirst fits ls id ids u none k h = elim (Bool-cases (fits u.link)) [
    | inl fine ↦ inr (refl, inl (here fine h))
    | inr bad ↦ inr (refl, inr (bars bad, there bad h))
  ]
    where
      H : Type 0
      H =
          (pick fits id u.link none ≡ some k)
          ⊎ ((pick fits id u.link none ≡ none) × IsFirst fits ls ids k)

      here : fits u.link ≡ true → H → id ≡ k
      here fine (inl e) = (let z = rw (pick, fine) at e in cc)
      here fine (inr (e, f)) = absurd (let z = rw (pick, fine) at e in cc)

      bars : fits u.link ≡ false → (l : LinkInt TX) → link_at ls id ≡ ok l → fits l ≡ false
      bars bad l e =
          let z : ok u.link ≡ ok l = sym u.here ∙ e in
          let w : u.link ≡ l = cc in ap fits (sym w) ∙ bad

      there : fits u.link ≡ false → H → IsFirst fits ls ids k
      there bad (inl e) = absurd (let z = rw (pick, bad) at e in cc)
      there bad (inr (e, f)) = f

  pub picked_on :
      (fits : LinkInt TX → Bool) (ls : List (Option (LinkInt TX))) (id : ℕ) (ids : List ℕ)
      (u : Usable any_link ls id) (o r : Option ℕ)
      → Continues fits ls ids (pick fits id u.link o) r
      → Continues fits ls (id ∷ ids) o r
  picked_on fits ls id ids u o (some k) c = (c.0, found_IsFirst fits ls id ids u o k c.1)
  picked_on fits ls id ids u o none c =
      let x = unpicked fits id u.link o c.0 in
      (
        x.0,
        (
          (λ l e.
              let z : ok u.link ≡ ok l = sym u.here ∙ e in
              let w : u.link ≡ l = cc in ap fits (sym w) ∙ x.1),
          c.1,
        ),
      )

  pub choose_link-Alike :
      (nr : Option ℕ) (id : ℕ) (l : LinkInt TX) (c : Choice)
      → Alike nr c
      → Alike nr (choose_link nr id l c)
  unfolding choose_link
  choose_link-Alike none id l c h = ground arith
  choose_link-Alike (some nr) id l c h = tt
