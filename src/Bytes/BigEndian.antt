-- ===== src/Bytes/BigEndian.antt =====
-- The big-endian byte order, as an instance of `ByteOrder`.
use aggligator.Base.{
  ℕ, zero, suc, ◌+◌, ◌*◌, ◌/◌, ◌%◌, ◌^◌, ◌<◌, ◌≡◌, refl, ap, [], ◌∷◌, length, arith,
}
use native.Mathlib.Nat.{pow-suc, div-add-mod, mod-lt}
use aggligator.Bytes.{Bytes, ByteOrder}

unfoldable pub put : ℕ → ℕ → Bytes
put zero n = []
put (suc w) n = (n / 256 ^ w) ∷ put w (n % 256 ^ w)

pow-pos : (w : ℕ) → 0 < 256 ^ w
pow-pos zero = omega arith
pow-pos (suc w) = rw pow-suc (omega (arith, pow-pos w))

unfoldable pub get : Bytes → ℕ
get [] = 0
get (b ∷ bs) = b * 256 ^ length bs + get bs

pub length-put : (w n : ℕ) → length (put w n) ≡ w
unfolding put
length-put zero n = refl
length-put (suc w) n = ap suc (length-put w (n % 256 ^ w))

pub get-put : (w n : ℕ) → n < 256 ^ w → get (put w n) ≡ n
unfolding put get
get-put zero n h = omega arith
get-put (suc w) n h = omega (
  arith,
  ap (λ (l : ℕ). n / 256 ^ w * 256 ^ l) (length-put w (n % 256 ^ w)),
  get-put w (n % 256 ^ w) (mod-lt n (pow-pos w)),
  div-add-mod n (256 ^ w),
)

instance abbrev pub big_endian : ByteOrder
big_endian = record { put = put; get = get; length-put = length-put; get-put = get-put }
