-- ===== src/Task/Resend/Select.antt =====
-- The idle link that is chosen for sending or for resending fits.
use mathlib.Core.List.{reverse}
use aggligator.Base.{
  ℕ, ◌≡◌, refl, subst, Bool, Option, none, some, List, [], ◌∷◌, All, Bool-cases, inl, inr,
}
use aggligator.Base.Result.{ok}
use aggligator.Link.{LinkInt, is_sendable}
use aggligator.Task.Defs.{Task}
use aggligator.Task.Resend.{
  Choice, is_complete, choose_link, choose_from, choose_links, non_resendable_link,
}
use aggligator.Task.Resend.Pick.{
  Alike, complete-both, begun-Alike, All-reverse_aux, Usable, any_link, resendable_link, IsChoice,
  Continues, pick, choose_link-pick, Valid, pick-Valid, stop, last, picked_on, choose_link-Alike,
}

module _ {TX : Type 0} where
  record Choosing (nr : Option ℕ) (ls : List (Option (LinkInt TX))) (ids : List ℕ) (c : Choice)
      : Type 0 where
    choice : Choice
    runs : choose_from nr ls ids c ≡ ok choice
    sending : Continues is_sendable ls ids c.sendable_idle_link_id choice.sendable_idle_link_id
    resending :
        Continues
          (resendable_link nr)
          ls
          ids
          c.resendable_idle_link_id
          choice.resendable_idle_link_id

  choosing :
      (nr : Option ℕ) (ls : List (Option (LinkInt TX))) (ids : List ℕ) (c : Choice)
      → All (Usable any_link ls) ids
      → Alike nr c
      → Valid is_sendable ls c.sendable_idle_link_id
      → Valid (resendable_link nr) ls c.resendable_idle_link_id
      → Choosing nr ls ids c
  unfolding choose_from
  choosing nr ls [] c us h v w = record {
    choice = c;
    runs = refl;
    sending = last is_sendable ls c.sendable_idle_link_id v;
    resending = last (resendable_link nr) ls c.resendable_idle_link_id w;
  }
  choosing nr ls (id ∷ ids) c us h v w = elim (Bool-cases (is_complete nr c)) [
    | inl full ↦
        let b = complete-both nr c h full in
        record {
          choice = c;
          runs = rw (choose_from, full) refl;
          sending = stop is_sendable ls (id ∷ ids) c.sendable_idle_link_id b.0 v;
          resending = stop (resendable_link nr) ls (id ∷ ids) c.resendable_idle_link_id b.1 w;
        }
    | inr open_yet ↦
        let u = us.0 in
        let c1 : Choice = record {
          sendable_idle_link_id = pick is_sendable id u.link c.sendable_idle_link_id;
          resendable_idle_link_id = pick (resendable_link nr) id u.link c.resendable_idle_link_id;
        } in
        let is : choose_link nr id u.link c ≡ c1 =
          choose_link-pick nr id u.link c.sendable_idle_link_id c.resendable_idle_link_id in
        let rest =
          choosing nr ls ids c1 us.1 (subst (Alike nr) is (choose_link-Alike nr id u.link c h))
            (pick-Valid is_sendable ls id u c.sendable_idle_link_id v)
            (pick-Valid (resendable_link nr) ls id u c.resendable_idle_link_id w) in
        record {
          choice = rest.choice;
          runs = rw (choose_from, open_yet, u.here, is) rest.runs;
          sending =
              picked_on is_sendable ls id ids u c.sendable_idle_link_id
                rest.choice.sendable_idle_link_id rest.sending;
          resending =
              picked_on (resendable_link nr) ls id ids u c.resendable_idle_link_id
                rest.choice.resendable_idle_link_id rest.resending;
        }
  ]

  from_none-IsChoice :
      (fits : LinkInt TX → Bool) (ls : List (Option (LinkInt TX))) (ids : List ℕ) (r : Option ℕ)
      → Continues fits ls ids none r
      → IsChoice fits ls ids r
  from_none-IsChoice fits ls ids none c = c.1
  from_none-IsChoice fits ls ids (some id) (u, inl e) = cc
  from_none-IsChoice fits ls ids (some id) (u, inr (e, f)) = (u, f)

  -- The links that the main loop chooses among the idle ones, the last first.
  pub record Chooses (nr : Option ℕ) (t : Task TX) : Type 0 where
    pub choice : Choice
    pub runs : choose_links t ≡ ok choice
    pub sending : IsChoice is_sendable t.links (reverse t.idle_links) choice.sendable_idle_link_id
    pub resending :
        IsChoice (resendable_link nr) t.links (reverse t.idle_links) choice.resendable_idle_link_id

  -- When every idle link exists and is ready, and the first packet of the resend queue, if there is one, waits to be sent
  -- again and was sent over the link `nr`, the choice is made without a panic. The link for sending is the
  -- idle link that became idle last of those below their limit of unacknowledged data; the link for resending
  -- is the last of those that besides are not `nr`. Where no link is chosen no idle link is like that.
  pub choose_links-IsChoice :
      (nr : Option ℕ) (t : Task TX)
      → non_resendable_link t ≡ ok nr
      → All (Usable any_link t.links) t.idle_links
      → Chooses nr t
  unfolding choose_links
  choose_links-IsChoice nr t is us =
      let x =
        choosing nr t.links (reverse t.idle_links)
          (record { sendable_idle_link_id = none; resendable_idle_link_id = none })
          (All-reverse_aux (Usable any_link t.links) t.idle_links [] us tt) (begun-Alike nr) tt
          tt in
      record {
        choice = x.choice;
        runs = rw is x.runs;
        sending =
            from_none-IsChoice is_sendable t.links (reverse t.idle_links)
              x.choice.sendable_idle_link_id x.sending;
        resending =
            from_none-IsChoice (resendable_link nr) t.links (reverse t.idle_links)
              x.choice.resendable_idle_link_id x.resending;
      }
