-- ===== src/Peekable/Laws.antt =====
-- Peeking loses and reorders nothing.
use aggligator.Base.{Bool, Option, none, some, List, [], ◌∷◌, ◌≡◌, refl, arith, if◌then◌else◌}
use aggligator.Base.Result.{Result, ok, err}
use aggligator.Peekable.{
  PeekableReceiver, TryRecvIfError, empty, disconnected, no_match, try_recv_if, pending,
}

module _ {T : Type 0} (cond : T → Bool) where
  -- By the messages that are pending: the first is handed out and the others stay.
  abbrev pub Receives : List T → Bool → Result TryRecvIfError T × PeekableReceiver T → Type 0
  Receives [] closed (res, r) =
      (res ≡ err (if closed then disconnected else empty)) × (pending r ≡ [])
  Receives (t ∷ ts) closed (res, r) =
      (res ≡ (if cond t then ok t else err no_match))
      × (pending r ≡ (if cond t then ts else t ∷ ts))

  by_fields :
      (queue : List T) (closed : Bool) (peeked : Option T)
      → let r : PeekableReceiver T = record {
        rx = record { queue = queue; closed = closed };
        peeked = peeked;
      } in
        Receives (pending r) closed (try_recv_if cond r)
  unfolding try_recv_if
  by_fields [] closed none = (refl, refl)
  by_fields (t ∷ ts) closed none = ground arith
  by_fields queue closed (some t) = ground arith

  -- A conditional receive hands out the first pending message if the condition holds of it and leaves
  -- the others in order; if it does not hold, all messages stay pending; without a message
  -- the error tells a closed channel from an empty one.
  pub try_recv_if-Receives :
      (r : PeekableReceiver T) → Receives (pending r) r.rx.closed (try_recv_if cond r)
  try_recv_if-Receives r = by_fields r.rx.queue r.rx.closed r.peeked
