-- ===== src/Link/Events/Received.antt =====
-- What a link receives of what the other end's link sent.
use aggligator.Base.{
  ℕ, zero, suc, ◌<◌, ◌^◌, ◌≡◌, refl, Option, none, some, List, [], ◌∷◌, ◌++◌, map, length, All,
  append_assoc, arith,
}
use mathlib.Core.List.{map-append}
use aggligator.Base.Result.{ok}
use aggligator.Bytes.{Bytes, ByteOrder}
use aggligator.Msg.{LinkMsg, IsMsg, user_data_of}
use aggligator.Msg.Write.{encode}
use aggligator.Msg.Read.{read}
use aggligator.Msg.RoundTrip.{read-encode}
use aggligator.Seq.{Seq}
use aggligator.Link.Defs.{LinkInt, LinkIntEvent}
use aggligator.Link.Events.{RxItem, packet, note_ack, rx_message, rx_packet, rx_task}

-- A message with data or one without.
abbrev pub Pairs : LinkMsg → Option Bytes → Type 0
Pairs (LinkMsg.data_msg seq) none = ⊥
Pairs (LinkMsg.data_msg seq) (some bytes) = Unit {0}
Pairs m none = Unit {0}
Pairs m (some bytes) = ⊥

-- What a link sends: a message within its widths, with data where it announces data.
abbrev pub CanSend : LinkMsg × Option Bytes → Type 0
CanSend (m, bytes) = IsMsg m × (length (user_data_of m) < 2 ^ 16) × Pairs m bytes

abbrev pub data_packets : Option Bytes → List Bytes
data_packets none = []
data_packets (some bytes) = bytes ∷ []

module _ ⦃o : ByteOrder⦄ where
  -- The packets are the encoded message and the data behind it.
  abbrev pub Carries : LinkMsg × Option Bytes → List Bytes → Type 0
  Carries (m, bytes) packets = (b : Bytes) × (encode m ≡ ok b) × (packets ≡ b ∷ data_packets bytes)

  abbrev pub CarriesAll : List (LinkMsg × Option Bytes) → List Bytes → Type 0
  CarriesAll [] packets = packets ≡ []
  CarriesAll (p ∷ ps) packets =
      (first : List Bytes) × (rest : List Bytes) × Carries p first
      × CarriesAll ps rest
      × (packets ≡ first ++ rest)

module _ {TX : Type 0} where
  -- The link after the messages: their acks are noted.
  abbrev pub noted : List (LinkMsg × Option Bytes) → LinkInt TX → LinkInt TX
  noted [] l = l
  noted ((m, bytes) ∷ ps) l = noted ps (note_ack m l)

abbrev pub event_of : LinkMsg × Option Bytes → LinkIntEvent
event_of (m, bytes) = LinkIntEvent.rx m bytes

data_msg_of :
    (m : LinkMsg) (bytes : Bytes) → Pairs m (some bytes) → (seq : Seq) × (m ≡ LinkMsg.data_msg seq)
data_msg_of (LinkMsg.data_msg seq) bytes h = (seq, refl)
data_msg_of m bytes h = elim h [ ]

module _ {TX : Type 0} where
  rx_message-plain :
      (m : LinkMsg) (l : LinkInt TX)
      → Pairs m none
      → rx_message (ok (m, [])) l ≡ (some (LinkIntEvent.rx m none), none, note_ack m l)
  unfolding rx_message
  rx_message-plain (LinkMsg.data_msg seq) l h = elim h [ ]
  rx_message-plain m l h = refl

module _ ⦃o : ByteOrder⦄ where
  read_sent :
      (m : LinkMsg) (b : Bytes)
      → IsMsg m
      → length (user_data_of m) < 2 ^ 16
      → encode m ≡ ok b
      → read b ≡ ok (m, [])
  read_sent m b h hu e = let (b', e', back) = read-encode m h hu in ground (arith, back, e', e)

module _ {TX : Type 0} ⦃o : ByteOrder⦄ where
  -- As many calls of the receive task: the events, and what the last call left.
  pub rx_tasks :
      ℕ
      → List RxItem
      → Option LinkMsg
      → LinkInt TX
      → List (Option LinkIntEvent) × (Option LinkMsg × LinkInt TX × List RxItem)
  rx_tasks zero items held l = ([], (held, l, items))
  rx_tasks (suc n) items held l =
      let (event, held', l', items') = rx_task items held l in
      let (events, last) = rx_tasks n items' held' l' in (event ∷ events, last)

  rx_task-one :
      (p : LinkMsg × Option Bytes) (packets : List Bytes) (items : List RxItem) (l : LinkInt TX)
      → CanSend p
      → Carries p packets
      → rx_task (map packet packets ++ items) none l
        ≡ (some (event_of p), none, noted (p ∷ []) l, items)
  unfolding rx_task rx_packet note_ack rx_message
  rx_task-one (m, none) packets items l (h, hu, pairs) (b, e, k) =
      rw k (ground (arith, read_sent m b h hu e, rx_message-plain m l pairs))
  rx_task-one (m, some bytes) packets items l (h, hu, pairs) (b, e, k) =
      let (seq, is_data) = data_msg_of m bytes pairs in
      rw k (ground (arith, read_sent m b h hu e, is_data))

  -- The packets of any messages, in order, are received as just these messages, each with its data and in
  -- order, by as many calls of the receive task; nothing is left of them.
  pub rx_tasks-sent :
      (ps : List (LinkMsg × Option Bytes)) (packets : List Bytes) (items : List RxItem)
      (l : LinkInt TX)
      → All CanSend ps
      → CarriesAll ps packets
      → rx_tasks (length ps) (map packet packets ++ items) none l
        ≡ (map (λ p. some (event_of p)) ps, (none, noted ps l, items))
  unfolding rx_tasks
  rx_tasks-sent [] packets items l can carries = rw carries refl
  rx_tasks-sent (p ∷ ps) packets items l (can, cans) (first, rest, one, more, e) =
      rw (e, map-append, append_assoc)
        (rw (rx_task-one p first (map packet rest ++ items) l can one)
          (rw (rx_tasks-sent ps rest items (noted (p ∷ []) l) cans more) refl))
