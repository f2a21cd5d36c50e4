-- ===== src/Task/Resend.antt =====
-- aggligator/src/agg/task.rs: the choice of an idle link in the main loop, and the event `Resend`.
pub mod Pick
pub mod Select
pub mod Kept
pub mod Again
pub mod Handler
use mathlib.Core.List.{reverse}
use aggligator.Base.{
  ℕ, Bool, true, false, not, ◌&&◌, ◌||◌, Option, none, some, List, [], ◌∷◌, ◌==◌, if◌then◌else◌,
  is_some, is_none,
}
use aggligator.Base.Result.{ok, err, ◌>>=◌}
use aggligator.Fault.{Run, panic, unwrap}
use aggligator.Bytes.{ByteOrder}
use aggligator.Packets.{Packets, PacketRef, SentReliable, find}
use aggligator.Link.{Sink, LinkInt, is_sendable}
use aggligator.Link.Send.{get_or_insert}
use aggligator.Task.Defs.{Task, TxState, link_at, without}
use aggligator.Task.Send.{queued_msg, resend_reliable_over_link}

-- The link over which the first packet of the resend queue was sent; a packet there in another state
-- is `unreachable!`.
unfoldable pub sent_link_of : Packets → List PacketRef → Run (Option ℕ)
unfolding queued_msg
sent_link_of ps [] = ok none
sent_link_of ps (r ∷ rs) = do
  p ← unwrap (find r.ptr ps)
  (msg, sent_link) ← queued_msg p.status
  ok (some sent_link)

-- `non_resendable_link != Some(link.link_id())`
abbrev pub may_resend : Option ℕ → ℕ → Bool
may_resend none link_id = true
may_resend (some sent_link) link_id = not (sent_link == link_id)

-- The links for sending and for resending.
pub record Choice : Type 0 where
  pub sendable_idle_link_id : Option ℕ
  pub resendable_idle_link_id : Option ℕ

abbrev pub is_complete : Option ℕ → Choice → Bool
is_complete non_resendable c =
    is_some c.sendable_idle_link_id && (is_some c.resendable_idle_link_id || is_none non_resendable)

module _ {TX : Type 0} where
  unfoldable pub non_resendable_link : Task TX → Run (Option ℕ)
  unfolding sent_link_of
  non_resendable_link t = sent_link_of t.txed_packets t.resend_queue

  unfoldable pub choose_link : Option ℕ → ℕ → LinkInt TX → Choice → Choice
  choose_link non_resendable id l c =
      if is_sendable l
      then record {
        sendable_idle_link_id = get_or_insert c.sendable_idle_link_id id;
        resendable_idle_link_id =
            if is_none c.resendable_idle_link_id && may_resend non_resendable l.link_id
            then some id
            else c.resendable_idle_link_id;
      }
      else c

  -- The loop over the idle links, the last first.
  unfoldable pub choose_from : Option ℕ → List (Option (LinkInt TX)) → List ℕ → Choice → Run Choice
  unfolding choose_link
  choose_from non_resendable ls [] c = ok c
  choose_from non_resendable ls (id ∷ ids) c = elim (is_complete non_resendable c) [
    | true ↦ ok c
    | false ↦
        link_at ls id >>= λ l. choose_from non_resendable ls ids (choose_link non_resendable id l c)
  ]

  unfoldable pub choose_links : Task TX → Run Choice
  unfolding choose_from non_resendable_link
  choose_links t = do
    non_resendable ← non_resendable_link t
    choose_from non_resendable t.links (reverse t.idle_links)
        (record { sendable_idle_link_id = none; resendable_idle_link_id = none })

module _ {TX : Type 0} ⦃s : Sink TX⦄ ⦃o : ByteOrder⦄ where
  -- `TaskEvent::Resend`, with the packet that `resend_task` takes from the front of the queue
  unfoldable pub resend_popped : ℕ → ℕ → Task TX → List PacketRef → Run (Task TX)
  resend_popped now id t [] = err panic
  resend_popped now id t (packet ∷ rest) = resend_reliable_over_link now id packet (record t {
    tx_state = record t.tx_state { resend_queue = rest };
    idle_links = without id t.idle_links;
  })

  unfoldable pub resend_packet : ℕ → ℕ → Task TX → Run (Task TX)
  unfolding resend_popped
  resend_packet now id t = resend_popped now id t t.resend_queue

  -- `resend_task` with its event: a packet is taken when one waits and a link is chosen for it.
  unfoldable pub resend_chosen : ℕ → Task TX → List PacketRef → Option ℕ → Run (Task TX)
  unfolding resend_packet
  resend_chosen now t [] id = ok t
  resend_chosen now t (r ∷ rs) none = ok t
  resend_chosen now t (r ∷ rs) (some id) = resend_packet now id t

  unfoldable pub resend_idle : ℕ → Task TX → Run (Task TX)
  unfolding choose_links resend_chosen
  resend_idle now t =
      choose_links t >>= λ c. resend_chosen now t t.resend_queue c.resendable_idle_link_id
