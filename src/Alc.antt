-- ===== src/Alc.antt =====
-- aggligator/src/alc: what the user of a connection sends and receives with. The channels to the task are
-- tokio's and stand as parameters with their documented behaviour.
pub mod Receiver
pub mod Sender
pub mod Read
pub mod Write
pub mod Flush
pub mod Pipe
mod Tests
use aggligator.Base.{ℕ, ◌≡◌, ◌≢◌, ◌⊎◌, Bool, true, false, Option, some, List, [], ◌∷◌, ◌++◌}
use aggligator.Bytes.{Bytes}
use aggligator.Task.Defs.{SendReq}

pub data Poll {ℓ} (A : Type ℓ) : Type ℓ where
  ready : A → Poll A
  pending : Poll A

-- `mpsc::Receiver::poll_recv`; `none` is the end of the channel.
pub record RecvChannel (RX : Type 0) : Type 0 where
  pub poll_recv : RX → RX × Poll (Option Bytes)

-- Messages are received in the order in which they were sent; `queue` are those waiting. A poll may be pending though
-- a message waits.
pub record IsFifo {RX : Type 0} ⦃c : RecvChannel RX⦄ (queue : RX → List Bytes) : Type 0 where
  pub gives :
      (rx : RX) (p : Bytes) (ps : List Bytes)
      → queue rx ≡ p ∷ ps
      → (((c.poll_recv rx).1 ≡ Poll.ready (some p)) × (queue (c.poll_recv rx).0 ≡ ps))
        ⊎ (((c.poll_recv rx).1 ≡ Poll.pending) × (queue (c.poll_recv rx).0 ≡ p ∷ ps))
  pub waits : (rx : RX) (p : Bytes) → queue rx ≡ [] → (c.poll_recv rx).1 ≢ Poll.ready (some p)
  pub stays : (rx : RX) → queue rx ≡ [] → queue (c.poll_recv rx).0 ≡ []

-- `PollSender`; a result is whether it is `Ok`.
pub record SendChannel (TX : Type 0) : Type 0 where
  pub poll_ready : TX → TX × Poll Bool
  pub start_send : TX → SendReq → TX × Bool
  pub is_closed : TX → Bool
  pub poll_close : TX → TX × Poll Bool

-- A request that the channel takes stands behind the earlier ones, and one that it refuses changes nothing, nor does
-- asking whether it is ready.
pub record IsOrdered {TX : Type 0} ⦃c : SendChannel TX⦄ (queue : TX → List SendReq) : Type 0 where
  pub appends :
      (tx : TX) (r : SendReq)
      → (c.start_send tx r).1 ≡ true
      → queue (c.start_send tx r).0 ≡ queue tx ++ (r ∷ [])
  pub refuses :
      (tx : TX) (r : SendReq)
      → (c.start_send tx r).1 ≡ false
      → queue (c.start_send tx r).0 ≡ queue tx
  pub keeps : (tx : TX) → queue (c.poll_ready tx).0 ≡ queue tx
