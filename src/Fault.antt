-- ===== src/Fault.antt =====
-- How a handler of the aggregator task ends early: a panic (`unwrap`, `unreachable!`, an assertion, or
-- an arithmetic overflow), or a protocol error, after which the task terminates.
use aggligator.Base.{ℕ, ◌-◌, Option, none, some, if◌then◌else◌, ltb}
use aggligator.Base.Result.{Result, ok, err}

pub data Fault : Type 0 where
  panic : Fault
  seq_underflow recv_buffer_overflow txed_unconsumed_underflow : Fault
  repeated_goodbye unexpected_message : Fault

abbrev pub Run {ℓ} : Type ℓ → Type ℓ
Run A = Result Fault A

-- `unwrap`
abbrev pub unwrap {ℓ} : {A : Type ℓ} → Option A → Run A
unwrap none = err panic
unwrap (some a) = ok a

-- `a -= b` on an unsigned integer, which overflows below 0
abbrev pub minus : ℕ → ℕ → Run ℕ
minus a b = if ltb a b then err panic else ok (a - b)
