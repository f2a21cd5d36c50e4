-- ===== src/Seq/Tests.antt =====
-- The theorems on sequence numbers at the wrap-around.
use aggligator.Base.{◌≡◌, ◌-◌, Ordering, arith}
use aggligator.Base.Int.{pos, negsuc}
use aggligator.Seq.{minus_one, add, add_i32, diff, cmp}
use aggligator.Seq.Order.{cmp-add, diff-add, add_i32-diff}

cmp-add_example :
    (cmp minus_one (add minus_one 5) ≡ Ordering.lt)
    × (cmp (add minus_one 5) minus_one ≡ Ordering.gt)
cmp-add_example = cmp-add minus_one 5 (omega arith) (omega arith) (omega arith)

diff-add_example :
    (diff (add minus_one 7) minus_one ≡ pos 7) × (diff minus_one (add minus_one 7) ≡ negsuc (7 - 1))
diff-add_example = diff-add minus_one 7 (omega arith) (omega arith) (omega arith)

add_i32-diff_example : add_i32 3 (diff minus_one 3) ≡ minus_one
add_i32-diff_example = add_i32-diff minus_one 3 (omega arith) (omega arith)
