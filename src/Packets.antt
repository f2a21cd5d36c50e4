-- ===== src/Packets.antt =====
-- aggligator/src/agg/task.rs: the reliable packets that were sent and that the task keeps until they are
-- received. `Arc<SentReliable>` is shared by the task's queue, the resend queue and the links: the queue
-- `txed_packets` holds the packets, the others hold references, by the address `ptr` that a packet gets
-- when it is made and by its sequence number, which never changes. `upgrade` of a weak reference is
-- a look-up in `txed_packets`, which holds every packet that the resend queue refers to.
pub mod Queue
pub mod Requeue
pub mod Update
use aggligator.Base.{
  ℕ, ◌+◌, Bool, false, Option, none, some, List, [], ◌∷◌, length, ◌==◌, if◌then◌else◌, true, ◌&&◌,
  ◌||◌, not,
}
use aggligator.Seq
use aggligator.Seq.{Seq}
use aggligator.Msg.{ReliableMsg}

-- `SentReliableStatus::Sent`
pub record SentInfo : Type 0 where
  pub sent : ℕ
  pub flushed : Option ℕ
  pub link_id : ℕ
  pub link : ℕ
  pub msg : ReliableMsg
  pub resent : Bool

pub data SentReliableStatus : Type 0 where
  sent : SentInfo → SentReliableStatus
  received : (size : ℕ) → SentReliableStatus
  resend_queued : (msg : ReliableMsg) (sent_link : ℕ) → SentReliableStatus

pub record SentReliable : Type 0 where
  pub ptr : ℕ
  pub seq : Seq
  pub status : SentReliableStatus

pub record PacketRef : Type 0 where
  pub ptr : ℕ
  pub seq : Seq

abbrev pub ref : SentReliable → PacketRef
ref p = record { ptr = p.ptr; seq = p.seq }

abbrev pub Packets : Type 0
Packets = List SentReliable

-- The size of a message's data: 0 but for `Data`.
abbrev pub data_size : ReliableMsg → ℕ
data_size (ReliableMsg.data_msg bytes) = length bytes
data_size (ReliableMsg.consumed n) = 0
data_size ReliableMsg.send_finish = 0
data_size ReliableMsg.receive_close = 0
data_size ReliableMsg.receive_finish = 0

unfoldable pub find : ℕ → Packets → Option SentReliable
find a [] = none
find a (p ∷ ps) = if p.ptr == a then some p else find a ps

-- `*status = ..` through a reference
unfoldable pub set_status : ℕ → SentReliableStatus → Packets → Packets
set_status a st [] = []
set_status a st (p ∷ ps) =
    let rest = set_status a st ps in if p.ptr == a then record p { status = st } ∷ ps else p ∷ rest

-- `sort_by_key(|packet| packet.seq)`, a stable sort
unfoldable pub insert : PacketRef → List PacketRef → List PacketRef
insert r [] = r ∷ []
insert r (x ∷ xs) = if Seq.le r.seq x.seq then r ∷ x ∷ xs else x ∷ insert r xs

unfoldable pub sort_by_seq : List PacketRef → List PacketRef
unfolding insert
sort_by_seq [] = []
sort_by_seq (r ∷ rs) = insert r (sort_by_seq rs)

unfoldable pub all_refs : (PacketRef → Bool) → List PacketRef → Bool
all_refs f [] = true
all_refs f (r ∷ rs) = f r && all_refs f rs

-- `sort_by_key` may panic when the order of the keys is not total, and that of sequence numbers is
-- total only among numbers that are near each other.
unfoldable pub is_total : List PacketRef → Bool
unfolding all_refs
is_total rs =
    all_refs
      (λ x.
        all_refs
          (λ y.
            (Seq.le x.seq y.seq || Seq.le y.seq x.seq)
            && (not (Seq.le x.seq y.seq && Seq.le y.seq x.seq) || x.seq == y.seq)
            && all_refs (λ z. not (Seq.le x.seq y.seq && Seq.le y.seq z.seq) || Seq.le x.seq z.seq)
                rs)
          rs)
      rs

-- The loop of `unconfirm_link` over the packets: each one that was sent over the link `id` is queued
-- for resending. The packets after it, the references pushed to the resend queue, and the
-- data sizes taken off the link's `txed_unacked_data`.
unfoldable pub requeue_status : ℕ → SentReliableStatus → SentReliableStatus
requeue_status id (sent i) = if i.link_id == id then resend_queued i.msg i.link else sent i
requeue_status id (received size) = received size
requeue_status id (resend_queued msg l) = resend_queued msg l

unfoldable pub sent_on : ℕ → SentReliableStatus → Bool
sent_on id (sent i) = i.link_id == id
sent_on id (received size) = false
sent_on id (resend_queued msg l) = false

unfoldable pub requeue : ℕ → Packets → Packets
unfolding requeue_status
requeue id [] = []
requeue id (p ∷ ps) = record p { status = requeue_status id p.status } ∷ requeue id ps

unfoldable pub pushed : ℕ → Packets → List PacketRef
unfolding sent_on
pushed id [] = []
pushed id (p ∷ ps) = if sent_on id p.status then ref p ∷ pushed id ps else pushed id ps

unfoldable pub status_size : ℕ → SentReliableStatus → ℕ
status_size id (sent i) = if i.link_id == id then data_size i.msg else 0
status_size id (received size) = 0
status_size id (resend_queued msg l) = 0

-- The data that is sent over link `id` and not acknowledged.
unfoldable pub sent_size : ℕ → Packets → ℕ
unfolding status_size
sent_size id [] = 0
sent_size id (p ∷ ps) = status_size id p.status + sent_size id ps

-- `mark_txed_packets_flushed`: the link's references, newest first, up to the first packet
-- that is marked as flushed already.
unfoldable pub flush_step : ℕ → ℕ → ℕ → Option SentReliable → Packets → Option Packets
flush_step now lid a none ps = some ps
flush_step now lid a (some p) ps = elim p.status [
  | sent i ↦
      if i.link == lid
      then elim i.flushed [
        | none ↦ some (set_status a (sent (record i { flushed = some now })) ps)
        | some t ↦ none
      ]
      else some ps
  | received size ↦ some ps
  | resend_queued msg l ↦ some ps
]

unfoldable pub mark_flushed : ℕ → ℕ → List ℕ → Packets → Packets
mark_flushed now lid [] ps = ps
mark_flushed now lid (a ∷ as') ps = elim (flush_step now lid a (find a ps) ps) [
  | none ↦ ps
  | some ps' ↦ mark_flushed now lid as' ps'
]

-- Whether `mark_txed_packets_flushed` comes to the packet `held`, whose status is borrowed.
unfoldable pub meets : (held lid : ℕ) → List ℕ → Packets → Bool
unfolding flush_step
meets held lid [] ps = false
meets held lid (a ∷ as') ps =
    let later : Bool = elim (flush_step 0 lid a (find a ps) ps) [
      | none ↦ false
      | some ps' ↦ meets held lid as' ps'
    ] in
    if a == held then true else later

-- The same for the first packet of the resend queue.
unfoldable pub meets_first : (lid : ℕ) → List PacketRef → List ℕ → Packets → Bool
unfolding meets
meets_first lid [] as' ps = false
meets_first lid (r ∷ rest) as' ps = meets r.ptr lid as' ps
