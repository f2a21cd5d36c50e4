-- ===== src/Seq.antt =====
-- aggligator/src/seq.rs: 32-bit sequence numbers that wrap around.
pub mod Order
mod Tests
use aggligator.Base.{
  ℕ, ◌+◌, ◌-◌, ◌*◌, ◌/◌, ◌%◌, ◌^◌, Ordering, Bool, true, false, ◌&&◌, Option, none, some, ltb, leb,
  if◌then◌else◌,
}
use aggligator.Base.Int.{ℤ, as_i32, as_u32}
use Prim.Native.Nat.{compare}

-- `Seq(pub u32)`
abbrev pub Seq : Type 0
Seq = ℕ

abbrev pub seq_zero : Seq
seq_zero = 0

abbrev pub minus_one : Seq
minus_one = 2 ^ 32 - 1

-- `u32::MAX / 4`
abbrev pub one_quarter : ℕ
one_quarter = (2 ^ 32 - 1) / 4

abbrev pub three_quarters : ℕ
three_quarters = one_quarter * 3

abbrev pub usable_interval : ℕ
usable_interval = 65536

-- `Seq + u32`, also `+=`
unfoldable pub add : Seq → ℕ → Seq
add s n = (s + n) % 2 ^ 32

-- `Seq + i32`
unfoldable pub add_i32 : Seq → ℤ → Seq
add_i32 s n = (s + as_u32 n) % 2 ^ 32

-- `Seq - Seq`, an `i32`
unfoldable pub diff : Seq → Seq → ℤ
diff s t = as_i32 ((s + 2 ^ 32 - t) % 2 ^ 32)

-- `Seq - u32`, also `-=`
unfoldable pub sub : Seq → ℕ → Seq
sub s n = (s + 2 ^ 32 - n) % 2 ^ 32

-- `Seq - i32`
unfoldable pub sub_i32 : Seq → ℤ → Seq
sub_i32 s n = (s + 2 ^ 32 - as_u32 n) % 2 ^ 32

-- `Seq - usize`; `none` is the panic of `try_into().unwrap()`
unfoldable pub sub_usize : Seq → ℕ → Option Seq
unfolding sub
sub_usize s n = if ltb n (2 ^ 32) then some (sub s n) else none

unfoldable pub cmp : Seq → Seq → Ordering
cmp s t =
    if ltb s one_quarter && leb three_quarters t
    then Ordering.gt
    else if ltb t one_quarter && leb three_quarters s
    then Ordering.lt
    else compare s t

-- `s < t` and `s <= t`, by `partial_cmp`
unfoldable pub lt : Seq → Seq → Bool
unfolding cmp
lt s t = elim (cmp s t) [ Ordering.lt ↦ true | _ ↦ false ]

unfoldable pub le : Seq → Seq → Bool
unfolding cmp
le s t = elim (cmp s t) [ Ordering.gt ↦ false | _ ↦ true ]
