-- ===== src/Task/Limits/Adjust/Kept.antt =====
-- Adjusting the limits touches no packet and no sum, and keeps each limit within the configured ones.
use aggligator.Base.{ℕ, ◌≡◌, Option, none, some, List}
use aggligator.Base.Result.{ok}
use aggligator.Fault.{Run}
use aggligator.Seq.{Seq}
use aggligator.Packets.{SentInfo}
use aggligator.Link.{LinkInt}
use aggligator.Task.Defs.{Task, link_at}
use aggligator.Task.Ack.Acknowledge.{Accounted}
use aggligator.Task.Limits.Adjust.{adjust_link_tx_limits}
use aggligator.Task.Limits.Adjust.Within.{AllWithin}

module _ {TX : Type 0} where
  -- The packets are the same, and the links are within what an adjustment may do to them.
  record Same (t t' : Task TX) : Type 0 where
    packets : t'.tx_state ≡ t.tx_state
    links : AllWithin t.links t'.links

  abbrev RunsSame : Task TX → Run (Task TX) → Type 0
  RunsSame t r = (t' : Task TX) × (r ≡ ok t') × Same t t'

  -- The link of the oldest packet that is sent and not received, if there is such a packet, exists.
  abbrev pub HasLink : List (Option (LinkInt TX)) → Option SentInfo → Type 0
  HasLink ls none = Unit {0}
  HasLink ls (some i) = (l : LinkInt TX) × (link_at ls i.link_id ≡ ok l)

  pub record Adjusts (n now : ℕ) (t : Task TX) : Type 0 where
    pub after : Task TX
    pub runs : adjust_link_tx_limits now t ≡ ok after
    pub packets : after.tx_state ≡ t.tx_state
    pub links : AllWithin t.links after.links
    pub accounted : Accounted n after
