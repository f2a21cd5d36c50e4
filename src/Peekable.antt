-- ===== src/Peekable.antt =====
-- aggligator/src/peekable_mpsc.rs: a receiver that allows peeking. The tokio channel behind it is the
-- queue of messages in it and whether all its senders are gone; the waiting methods are
-- the steps that they make when they do not have to wait.
pub mod Laws
mod Tests
use aggligator.Base.{
  ℕ, Bool, true, false, Option, none, some, List, [], ◌∷◌, if◌then◌else◌, ◌≡◌, refl,
}
use aggligator.Base.Result.{Result, ok, err}

pub record Channel {ℓ} (T : Type ℓ) : Type ℓ where
  pub queue : List T
  pub closed : Bool

pub record PeekableReceiver {ℓ} (T : Type ℓ) : Type ℓ where
  pub rx : Channel T
  pub peeked : Option T

-- `mpsc::error::TryRecvError` with `NoMatch`: `TryRecvIfError`. On a waiting receiver `empty` means that
-- it has to wait.
pub data TryRecvIfError : Type 0 where
  empty disconnected no_match : TryRecvIfError

module _ {ℓ} {T : Type ℓ} where
  abbrev pub new : Channel T → PeekableReceiver T
  new rx = record { rx = rx; peeked = none }

  -- `try_recv` of the channel
  unfoldable pub channel_recv : Channel T → Result TryRecvIfError T × Channel T
  channel_recv c = elim c.queue [
    | [] ↦ (err (if c.closed then disconnected else empty), c)
    | t ∷ ts ↦ (ok t, record c { queue = ts })
  ]

  unfoldable pub try_recv : PeekableReceiver T → Result TryRecvIfError T × PeekableReceiver T
  unfolding channel_recv
  try_recv r = elim r.peeked [
    | some t ↦ (ok t, record r { peeked = none })
    | none ↦ let (res, c) = channel_recv r.rx in (res, record r { rx = c })
  ]

  unfoldable pub peek_into :
      PeekableReceiver T
      → Result TryRecvIfError T × Channel T
      → Result TryRecvIfError T × PeekableReceiver T
  peek_into r (ok t, c) = (ok t, record { rx = c; peeked = some t })
  peek_into r (err e, c) = (err e, record r { rx = c })

  unfoldable pub try_peek : PeekableReceiver T → Result TryRecvIfError T × PeekableReceiver T
  unfolding channel_recv peek_into
  try_peek r = elim r.peeked [ some t ↦ (ok t, r) | none ↦ peek_into r (channel_recv r.rx) ]

  unfoldable pub recv_if_peeked :
      (T → Bool)
      → Result TryRecvIfError T × PeekableReceiver T
      → Result TryRecvIfError T × PeekableReceiver T
  unfolding try_recv
  recv_if_peeked cond (ok t, r) = if cond t then try_recv r else (err no_match, r)
  recv_if_peeked cond (err e, r) = (err e, r)

  -- `recv_if` and `try_recv_if`
  unfoldable pub try_recv_if :
      (T → Bool) → PeekableReceiver T → Result TryRecvIfError T × PeekableReceiver T
  unfolding recv_if_peeked try_peek
  try_recv_if cond r = recv_if_peeked cond (try_peek r)

  -- The messages that the receiver has not handed out, in order.
  abbrev pub pending : PeekableReceiver T → List T
  pending r = elim r.peeked [ some t ↦ t ∷ r.rx.queue | none ↦ r.rx.queue ]
