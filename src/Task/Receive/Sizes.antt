-- ===== src/Task/Receive/Sizes.antt =====
-- How much data the reassembly queue holds, and how long it is.
use aggligator.Base.{
  ℕ, zero, suc, ◌+◌, ◌-◌, ◌≤◌, ◌<◌, ◌≡◌, refl, false, Option, none, some, List, [], ◌∷◌, ◌++◌,
  length, replicate, get_elem?, set, arith, length-append, length-replicate,
}
use aggligator.Msg.{ReliableMsg}
use aggligator.Packets.{data_size}
use aggligator.Task.Defs.{ReceivedReliableMsg}
use aggligator.Task.Receive.{is_consumable, extend}

abbrev pub Entry : Type 0
Entry = Option ReceivedReliableMsg

-- The data in the queue's slots, and in received messages.
abbrev pub queue_size : List Entry → ℕ
queue_size [] = 0
queue_size (none ∷ q) = queue_size q
queue_size (some r ∷ q) = data_size r.msg + queue_size q

abbrev pub sizes : List ReceivedReliableMsg → ℕ
sizes [] = 0
sizes (r ∷ rs) = data_size r.msg + sizes rs

pub sizes-append : (rs ss : List ReceivedReliableMsg) → sizes (rs ++ ss) ≡ sizes rs + sizes ss
sizes-append [] ss = omega arith
sizes-append (r ∷ rs) ss = omega (arith, sizes-append rs ss)

queue_size-replicate : (k : ℕ) → queue_size (replicate k none) ≡ 0
queue_size-replicate zero = refl
queue_size-replicate (suc k) = queue_size-replicate k

queue_size-append : (q p : List Entry) → queue_size (q ++ p) ≡ queue_size q + queue_size p
queue_size-append [] p = omega arith
queue_size-append (none ∷ q) p = queue_size-append q p
queue_size-append (some r ∷ q) p = omega (arith, queue_size-append q p)

-- A message that is not consumable carries no data.
pub not_consumable_size : (msg : ReliableMsg) → is_consumable msg ≡ false → data_size msg ≡ 0
unfolding is_consumable
not_consumable_size (ReliableMsg.data_msg bytes) h = cc
not_consumable_size (ReliableMsg.consumed n) h = refl
not_consumable_size ReliableMsg.send_finish h = cc
not_consumable_size ReliableMsg.receive_close h = refl
not_consumable_size ReliableMsg.receive_finish h = refl

pub length-extend : (q : List Entry) (k : ℕ) → k < length (extend q k)
unfolding extend
length-extend q k = ground (
  arith,
  length-append q (replicate (k + 1 - length q) none),
  length-replicate {A = Entry} (k + 1 - length q) none,
)

pub length-extend_le : (q : List Entry) (k b : ℕ) → length q ≤ b → k < b → length (extend q k) ≤ b
unfolding extend
length-extend_le q k b h lt = ground (
  arith,
  length-append q (replicate (k + 1 - length q) none),
  length-replicate {A = Entry} (k + 1 - length q) none,
)

pub queue_size-extend : (q : List Entry) (k : ℕ) → queue_size (extend q k) ≡ queue_size q
unfolding extend
queue_size-extend q k = ground (
  arith,
  queue_size-append q (replicate (k + 1 - length q) none),
  queue_size-replicate (k + 1 - length q),
)

pub queue_size-set :
    (q : List Entry) (i : ℕ) (r : ReceivedReliableMsg)
    → get_elem? q i ≡ some none
    → queue_size (set q i (some r)) ≡ queue_size q + data_size r.msg
queue_size-set [] i r h = cc
queue_size-set (none ∷ q) zero r h = omega arith
queue_size-set (some x ∷ q) zero r h = cc
queue_size-set (none ∷ q) (suc i) r h = queue_size-set q i r h
queue_size-set (some x ∷ q) (suc i) r h = omega (arith, queue_size-set q i r h)
