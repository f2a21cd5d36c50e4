-- ===== src/Bytes/Laws.antt =====
-- What was put in front of a rest is read back, and the rest is left.
use aggligator.Base.{
  ℕ, ◌≡◌, ◌<◌, ◌^◌, refl, ◌++◌, length, length-append, take_length-append, drop_length-append,
  ge→ltb, arith,
}
use aggligator.Base.Result.{ok, err}
use aggligator.Bytes.{Bytes, ByteOrder, unexpected_eof, read_exact, read_uint}

pub read_exact-append :
    (n : ℕ) (xs rest : Bytes) → length xs ≡ n → read_exact n (xs ++ rest) ≡ ok (xs, rest)
unfolding read_exact
read_exact-append n xs rest h = rw (← h) (
    rw (ge→ltb (length (xs ++ rest)) (length xs) (omega (arith, length-append xs rest)))
      (rw (take_length-append xs rest, drop_length-append xs rest) refl))

pub read_exact-short : (n : ℕ) (r : Bytes) → length r < n → read_exact n r ≡ err unexpected_eof
unfolding read_exact
read_exact-short n r h = ground arith

module _ ⦃o : ByteOrder⦄ where
  pub read_uint-put :
      (w n : ℕ) (rest : Bytes) → n < 256 ^ w → read_uint w (o.put w n ++ rest) ≡ ok (n, rest)
  unfolding read_uint
  read_uint-put w n rest h =
      ground (arith, read_exact-append w (o.put w n) rest (o.length-put w n), o.get-put w n h)
