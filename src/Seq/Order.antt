-- ===== src/Seq/Order.antt =====
-- The order and the arithmetic of sequence numbers, across the wrap-around.
use aggligator.Base.{ℕ, ◌+◌, ◌-◌, ◌%◌, ◌^◌, ◌≤◌, ◌<◌, ◌≡◌, Ordering, arith, ltb, leb}
use aggligator.Base.Int.{pos, negsuc, IsU32}
use aggligator.Seq.{Seq, one_quarter, add, add_i32, diff, sub, cmp, lt, le}

-- Moving a sequence number forward by one to a quarter of the range makes it greater and the old
-- one smaller, also where it wraps around.
pub cmp-add :
    (s d : ℕ)
    → IsU32 s
    → 0 < d
    → d ≤ one_quarter
    → (cmp s (add s d) ≡ Ordering.lt) × (cmp (add s d) s ≡ Ordering.gt)
unfolding cmp add
cmp-add s d hs h0 hd = ground arith

-- The signed difference of a sequence number and one moved forward by 1 to 2 ^ 31 - 1 is that distance, and
-- with the minus sign in the other direction.
pub diff-add :
    (s d : ℕ)
    → IsU32 s
    → 0 < d
    → d < 2 ^ 31
    → (diff (add s d) s ≡ pos d) × (diff s (add s d) ≡ negsuc (d - 1))
unfolding diff add
diff-add s d hs h0 hd = ground arith

-- Adding the signed difference of two sequence numbers to the second gives the first.
pub add_i32-diff : (s t : ℕ) → IsU32 s → IsU32 t → add_i32 t (diff s t) ≡ s
unfolding add_i32 diff
add_i32-diff s t hs ht = ground arith

pub sub-add : (s d : ℕ) → IsU32 s → d < 2 ^ 32 → sub (add s d) d ≡ s
unfolding sub add
sub-add s d hs hd = omega arith

-- The sequence number of the n-th packet of a connection, and its order.
abbrev pub wrap : ℕ → Seq
wrap n = n % 2 ^ 32

pub lt-wrap : (n m : ℕ) → n ≤ m + one_quarter → m ≤ n + one_quarter → lt (wrap n) (wrap m) ≡ ltb n m
unfolding lt
lt-wrap n m h k = ground arith

pub le-wrap : (n m : ℕ) → n ≤ m + one_quarter → m ≤ n + one_quarter → le (wrap n) (wrap m) ≡ leb n m
unfolding le
le-wrap n m h k = ground arith

pub add-wrap : (n d : ℕ) → add (wrap n) d ≡ wrap (n + d)
unfolding add
add-wrap n d = omega arith

pub diff-wrap_le : (n m : ℕ) → m ≤ n → n < m + 2 ^ 31 → diff (wrap n) (wrap m) ≡ pos (n - m)
unfolding diff
diff-wrap_le n m h k = ground arith
