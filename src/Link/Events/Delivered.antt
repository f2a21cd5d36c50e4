-- ===== src/Link/Events/Delivered.antt =====
-- From one end of a link to the other: messages are sent one after another over a link whose sink is
-- ready, and the other end's link receives them.
use aggligator.Base.{
  ℕ, ◌+◌, ◌≡◌, refl, ap, ◌∙◌, sym, false, Option, none, some, List, [], ◌∷◌, ◌++◌, map, length, All,
  append-nil, append_assoc, arith,
}
use aggligator.Base.Result.{ok, ◌>>=◌}
use aggligator.Fault.{Run}
use aggligator.Bytes.{Bytes, ByteOrder}
use aggligator.Msg.{LinkMsg}
use aggligator.Msg.Write.{encode}
use aggligator.Msg.RoundTrip.{read-encode}
use aggligator.Packets.{Packets}
use aggligator.Link.Defs.{Sink, LinkInt}
use aggligator.Link.Send.{get_or_insert, data_len, handed_over, hand_over, start_send_msg}
use aggligator.Link.Events.{
  RxItem, packet, FlushSink, tx_without_data, tx_started, tx_with_data, tx_round,
}
use aggligator.Link.Events.Received.{
  Carries, CarriesAll, CanSend, data_packets, event_of, noted, rx_tasks, rx_tasks-sent,
}
use aggligator.Link.Events.Sent.{
  Holds, IsIdle, AlwaysReady, Ends, until_ready, tx_task-polls, handed_over-Holds,
  without_data_ready,
}

module _ {TX : Type 0} ⦃o : ByteOrder⦄ ⦃s : Sink TX⦄ ⦃f : FlushSink TX⦄ where
  -- A message is sent, and the link waited for.
  pub send_and_wait : ℕ → LinkMsg × Option Bytes → LinkInt TX → Packets → Run (LinkInt TX × Packets)
  send_and_wait now (m, bytes) l ps = do
    (l1, ps1) ← start_send_msg now m bytes l ps
    l2 ← until_ready 2 now l1
    ok (l2, ps1)

  -- Messages one after another
  pub send_all :
      ℕ → List (LinkMsg × Option Bytes) → LinkInt TX → Packets → Run (LinkInt TX × Packets)
  unfolding send_and_wait
  send_all now [] l ps = ok (l, ps)
  send_all now (p ∷ msgs) l ps = do (l1, ps1) ← send_and_wait now p l ps; send_all now msgs l1 ps1

  module _ (sent : TX → List Bytes) (ready : AlwaysReady sent) where
    tx_round-data :
        (now : ℕ) (l : LinkInt TX) (bytes : Bytes) (tx : TX)
        → Holds tx (some bytes) l
        → (l0 : LinkInt TX) × (tx_round now l (some bytes) ≡ tx_without_data l0)
          × Holds (s.start_send tx bytes).0 none l0
    unfolding tx_round tx_with_data tx_started
    tx_round-data now l bytes tx h = (
      record l {
        tx = (s.start_send l.tx bytes).0;
        tx_pending = false;
        tx_data = none;
        txed_first_unflushed_data = get_or_insert l.txed_first_unflushed_data now;
      },
      ground (arith, ready.polled l.tx, ready.takes l.tx bytes),
      ground arith,
    )

    -- What a link holds is sent, and the link gets ready.
    Holds-Ends :
        (now : ℕ) (l : LinkInt TX) (tx : TX) (bytes : Option Bytes)
        → Holds tx bytes l
        → Ends sent (sent tx ++ data_packets bytes) (until_ready 2 now l)
    unfolding tx_round
    Holds-Ends now l tx none h =
        let (l', r, idle, p) =
          without_data_ready sent ready 0 now l l tx h
            (tx_task-polls now l h.polls ∙ ap (λ d. ok (tx_round now l d)) h.data_eq) in
        (l', r, idle, p ∙ sym (append-nil _))
    Holds-Ends now l tx (some bytes) h =
        let (l0, e, h0) = tx_round-data now l bytes tx h in
        let (l', r, idle, p) =
          without_data_ready sent ready 0 now l l0 (s.start_send tx bytes).0 h0
            (tx_task-polls now l h.polls ∙ ap (λ d. ok (tx_round now l d)) h.data_eq ∙ ap ok e) in
        (l', r, idle, p ∙ ready.sent-start_send tx bytes)

    start_send_msg-Holds :
        (now : ℕ) (m : LinkMsg) (bytes : Option Bytes) (l : LinkInt TX) (ps : Packets) (b : Bytes)
        → IsIdle l
        → encode m ≡ ok b
        → (l1 : LinkInt TX) × (ps1 : Packets) × (start_send_msg now m bytes l ps ≡ ok (l1, ps1))
          × Holds (s.start_send l.tx b).0 bytes l1
    unfolding start_send_msg hand_over
    start_send_msg-Holds now m bytes l ps b idle e =
        let tx : TX = (s.start_send l.tx b).0 in
        let l0 : LinkInt TX = record l { tx_polling = some now; tx_idle_since = none } in
        let total : ℕ = length b + data_len bytes in
        (
          (handed_over now m bytes total tx l0 ps).0,
          (handed_over now m bytes total tx l0 ps).1,
          ground (arith, e, ready.takes l.tx b),
          handed_over-Holds now m bytes total tx l0 ps idle.works refl,
        )

    -- A message is sent with its data, and the link is idle again.
    send_and_wait-Carries :
        (now : ℕ) (p : LinkMsg × Option Bytes) (l : LinkInt TX) (ps : Packets)
        → IsIdle l
        → CanSend p
        → (l' : LinkInt TX) × (ps' : Packets) × (packets : List Bytes) × (send_and_wait now p l ps
            ≡ ok (l', ps'))
          × IsIdle l'
          × Carries p packets
          × (sent l'.tx ≡ sent l.tx ++ packets)
    unfolding send_and_wait
    send_and_wait-Carries now (m, bytes) l ps idle (h, hu, pairs) =
        let (b, e, back) = read-encode m h hu in
        let (l1, ps1, started, holds) = start_send_msg-Holds now m bytes l ps b idle e in
        let (l2, r, idle2, out) = Holds-Ends now l1 (s.start_send l.tx b).0 bytes holds in
        (
          l2,
          ps1,
          b ∷ data_packets bytes,
          rw started (rw r refl),
          idle2,
          (b, e, refl),
          out
              ∙ ap (λ (k : List Bytes). k ++ data_packets bytes) (ready.sent-start_send l.tx b)
              ∙ append_assoc (sent l.tx) (b ∷ []) (data_packets bytes),
        )

    send_all-CarriesAll :
        (now : ℕ) (msgs : List (LinkMsg × Option Bytes)) (l : LinkInt TX) (ps : Packets)
        → IsIdle l
        → All CanSend msgs
        → (l' : LinkInt TX) × (ps' : Packets) × (packets : List Bytes) × (send_all now msgs l ps
            ≡ ok (l', ps'))
          × IsIdle l'
          × CarriesAll msgs packets
          × (sent l'.tx ≡ sent l.tx ++ packets)
    unfolding send_all
    send_all-CarriesAll now [] l ps idle can = (l, ps, [], refl, idle, refl, sym (append-nil _))
    send_all-CarriesAll now (p ∷ msgs) l ps idle (can, cans) =
        let (l1, ps1, first, e1, idle1, one, out1) = send_and_wait-Carries now p l ps idle can in
        let (l2, ps2, rest, e2, idle2, more, out2) =
          send_all-CarriesAll now msgs l1 ps1 idle1 cans in
        (
          l2,
          ps2,
          first ++ rest,
          rw e1 e2,
          idle2,
          (first, rest, one, more, refl),
          out2 ∙ ap (λ (k : List Bytes). k ++ rest) out1 ∙ append_assoc (sent l.tx) first rest,
        )

    -- Messages that are sent one after another over an idle link with a sink that is always ready end with
    -- the link idle and not failed, after at most two events for each; what the sink took of them is received
    -- at the other end as just these messages, each with its data, in order, and nothing is left over.
    pub send_all-received :
        (now : ℕ) (msgs : List (LinkMsg × Option Bytes)) (l : LinkInt TX) (ps : Packets)
        (items : List RxItem) (r : LinkInt TX)
        → IsIdle l
        → All CanSend msgs
        → (l' : LinkInt TX) × (ps' : Packets) × (packets : List Bytes) × (send_all now msgs l ps
            ≡ ok (l', ps'))
          × IsIdle l'
          × (sent l'.tx ≡ sent l.tx ++ packets)
          × (rx_tasks (length msgs) (map packet packets ++ items) none r
              ≡ (map (λ p. some (event_of p)) msgs, (none, noted msgs r, items)))
    send_all-received now msgs l ps items r idle can =
        let (l', ps', packets, e, idle', carries, out) =
          send_all-CarriesAll now msgs l ps idle can in
        (l', ps', packets, e, idle', out, rx_tasks-sent msgs packets items r can carries)
