-- ===== src/Link/Events/Sent.antt =====
-- A link whose sink is ready: messages go out one after another, each with its data behind it.
use aggligator.Base.{
  ℕ, zero, suc, ◌≡◌, refl, ap, ◌∙◌, Bool, true, false, Option, none, some, is_none, List, [], ◌∷◌,
  ◌++◌, if◌then◌else◌, Bool-cases, inl, inr, arith,
}
use aggligator.Base.Result.{ok, err, ◌>>=◌}
use aggligator.Fault.{Run, panic}
use aggligator.Bytes.{Bytes}
use aggligator.Msg.{LinkMsg}
use aggligator.Packets.{Packets}
use aggligator.Link.Defs.{Sink, PollReady, LinkInt, LinkIntEvent}
use aggligator.Link.Send.{start_flush, note_sent, flush_if_over, handed_over}
use aggligator.Link.Events.{FlushSink, tx_flushed, tx_polled, tx_without_data, tx_round, tx_task}

-- A link that has taken a packet and its data.
pub record Holds {TX : Type 0} (tx : TX) (bytes : Option Bytes) (l : LinkInt TX) : Type 0 where
  pub tx_eq : l.tx ≡ tx
  pub data_eq : l.tx_data ≡ bytes
  pub works : l.tx_failed ≡ false
  pub polls : is_none l.tx_polling ≡ false

-- A link that is ready for a message.
pub record IsIdle {TX : Type 0} (l : LinkInt TX) : Type 0 where
  pub no_polling : l.tx_polling ≡ none
  pub no_data : l.tx_data ≡ none
  pub works : l.tx_failed ≡ false

module _ {TX : Type 0} where
  note_sent-Holds :
      (now : ℕ) (msg : LinkMsg) (l : LinkInt TX) (ps : Packets) (tx : TX) (bytes : Option Bytes)
      → Holds tx bytes l
      → Holds tx bytes (note_sent now msg l ps).0
  unfolding note_sent start_flush
  note_sent-Holds now LinkMsg.accepted l ps tx bytes h = ground arith
  note_sent-Holds now msg l ps tx bytes h = ground arith

  flush_if_over-Holds :
      (now : ℕ) (l : LinkInt TX) (ps : Packets) (tx : TX) (bytes : Option Bytes)
      → Holds tx bytes l
      → Holds tx bytes (flush_if_over now (l, ps)).0
  unfolding flush_if_over start_flush
  flush_if_over-Holds now l ps tx bytes h = ground arith

  pub handed_over-Holds :
      (now : ℕ) (msg : LinkMsg) (bytes : Option Bytes) (total : ℕ) (tx : TX) (l : LinkInt TX)
      (ps : Packets)
      → l.tx_failed ≡ false
      → is_none l.tx_polling ≡ false
      → Holds tx bytes (handed_over now msg bytes total tx l ps).0
  unfolding handed_over
  handed_over-Holds now msg bytes total tx l ps works polls = flush_if_over-Holds now _ _ tx bytes (
      note_sent-Holds now msg _ ps tx bytes
        (record { tx_eq = refl; data_eq = refl; works = works; polls = polls }))

-- A sink that is always ready, takes every packet and flushes at once. `sent` are the packets that it took.
pub record AlwaysReady {TX : Type 0} ⦃s : Sink TX⦄ ⦃f : FlushSink TX⦄ (sent : TX → List Bytes)
    : Type 0 where
  pub polled : (tx : TX) → s.poll_ready tx ≡ PollReady.ready
  pub takes : (tx : TX) (b : Bytes) → (s.start_send tx b).1 ≡ true
  pub flushes : (tx : TX) → (f.poll_flush tx).1 ≡ PollReady.ready
  pub sent-start_send : (tx : TX) (b : Bytes) → sent (s.start_send tx b).0 ≡ sent tx ++ (b ∷ [])
  pub sent-poll_flush : (tx : TX) → sent (f.poll_flush tx).0 ≡ sent tx

abbrev is_tx_ready : Option LinkIntEvent → Bool
is_tx_ready (some LinkIntEvent.tx_ready) = true
is_tx_ready _ = false

module _ {TX : Type 0} ⦃s : Sink TX⦄ ⦃f : FlushSink TX⦄ where
  -- The link after its events up to the one that tells that it is ready, at most so many.
  pub until_ready : ℕ → ℕ → LinkInt TX → Run (LinkInt TX)
  until_ready zero now l = err panic
  until_ready (suc n) now l =
      tx_task now l >>= λ r. if is_tx_ready r.1 then ok r.0 else until_ready n now r.0

  until_ready-now :
      (n now : ℕ) (l l' : LinkInt TX)
      → tx_task now l ≡ ok (l', some LinkIntEvent.tx_ready)
      → until_ready (suc n) now l ≡ ok l'
  unfolding until_ready
  until_ready-now n now l l' e = rw e refl

  until_ready-later :
      (n now : ℕ) (l l' : LinkInt TX) (event : Option LinkIntEvent)
      → tx_task now l ≡ ok (l', event)
      → is_tx_ready event ≡ false
      → until_ready (suc n) now l ≡ until_ready n now l'
  unfolding until_ready
  until_ready-later n now l l' event e h = rw e (rw h refl)

  pub tx_task-polls :
      (now : ℕ) (l : LinkInt TX)
      → is_none l.tx_polling ≡ false
      → tx_task now l ≡ ok (tx_round now l l.tx_data)
  unfolding tx_task
  tx_task-polls now l h = rw h refl

  -- What a link ends in that has nothing left to do.
  abbrev pub Ends : (TX → List Bytes) → List Bytes → Run (LinkInt TX) → Type 0
  Ends sent packets r = (l' : LinkInt TX) × (r ≡ ok l') × IsIdle l' × (sent l'.tx ≡ packets)

  module _ (sent : TX → List Bytes) (ready : AlwaysReady sent) where
    tx_without_data-ready :
        (l : LinkInt TX)
        → l.tx_flushing ≡ false
        → tx_without_data l
          ≡ (record l { tx_pending = false; tx_polling = none }, some LinkIntEvent.tx_ready)
    unfolding tx_without_data tx_polled
    tx_without_data-ready l e = rw e (rw (ready.polled l.tx) refl)

    abbrev after_flush : LinkInt TX → LinkInt TX
    after_flush l = record l {
      tx = (f.poll_flush l.tx).0;
      tx_flushing = false;
      txed_first_unflushed_data = none;
    }

    tx_without_data-flush :
        (l : LinkInt TX)
        → l.tx_flushing ≡ true
        → tx_without_data l ≡ (after_flush l, some LinkIntEvent.tx_flushed)
    unfolding tx_without_data tx_flushed
    tx_without_data-flush l e = ground (arith, ready.flushes l.tx)

    unflushed_ready :
        (n now : ℕ) (l l0 : LinkInt TX) (tx : TX)
        → Holds tx none l0
        → l0.tx_flushing ≡ false
        → tx_task now l ≡ ok (tx_without_data l0)
        → Ends sent (sent tx) (until_ready (suc n) now l)
    unflushed_ready n now l l0 tx h e k = (
      record l0 { tx_pending = false; tx_polling = none },
      until_ready-now n now l _ (rw (← tx_without_data-ready l0 e) k),
      record { no_polling = refl; no_data = h.data_eq; works = h.works },
      ap sent h.tx_eq,
    )

    -- A link that has no data left is ready after at most a flush.
    pub without_data_ready :
        (n now : ℕ) (l l0 : LinkInt TX) (tx : TX)
        → Holds tx none l0
        → tx_task now l ≡ ok (tx_without_data l0)
        → Ends sent (sent tx) (until_ready (suc (suc n)) now l)
    unfolding tx_without_data tx_round
    without_data_ready n now l l0 tx h k = elim (Bool-cases l0.tx_flushing) [
      | inr e ↦ unflushed_ready (suc n) now l l0 tx h e k
      | inl e ↦
          let l1 : LinkInt TX = after_flush l0 in
          let (l', r, idle, p) =
            unflushed_ready n now l1 l1 l1.tx
              (record { tx_eq = refl; data_eq = h.data_eq; works = h.works; polls = h.polls }) refl
              (tx_task-polls now l1 h.polls ∙ ap (λ d. ok (tx_round now l1 d)) h.data_eq) in
          (
            l',
            until_ready-later (suc n) now l l1 _ (k ∙ ap ok (tx_without_data-flush l0 e)) refl ∙ r,
            idle,
            p ∙ ready.sent-poll_flush l0.tx ∙ ap sent h.tx_eq,
          )
    ]
