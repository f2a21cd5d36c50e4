-- ===== src/Alc/Read.antt =====
-- Reading from a `ReceiverStream`: the bytes of the packets, in order, whatever the sizes of the reads.
use aggligator.Base.{
  ℕ, zero, suc, ◌≤◌, ◌<◌, min, ◌≡◌, ◌≢◌, ◌⊎◌, inl, inr, refl, ap, ap₂, sym, subst, ◌∙◌, Option,
  none, some, List, [], ◌∷◌, ◌++◌, length, take, drop, All, append_assoc, length-append,
  length-take_le, arith,
}
use aggligator.Base.Result.{Result, ok, err}
use aggligator.Bytes.{Bytes}
use aggligator.Task.Defs.{RecvError}
use aggligator.Alc.{Poll, RecvChannel, IsFifo}
use aggligator.Alc.Receiver.{
  Receiver, ReceiverStream, received, put_slice, read_received, poll_recv, poll_read,
}

-- A packet that is not empty
abbrev pub IsPacket : Bytes → Type 0
IsPacket p = 0 < length p

unfoldable pub concat : List Bytes → Bytes
concat [] = []
concat (p ∷ ps) = p ++ concat ps

-- The bytes that a read puts into the reader's buffer
abbrev pub got : Poll (Result RecvError Bytes) → Bytes
got (Poll.ready (ok bytes)) = bytes
got (Poll.ready (err e)) = []
got Poll.pending = []

pub append-take-drop : (n : ℕ) (xs : Bytes) → take n xs ++ drop n xs ≡ xs
append-take-drop zero xs = refl
append-take-drop (suc n) [] = refl
append-take-drop (suc n) (x ∷ xs) = ap (◌∷◌ x) (append-take-drop n xs)

empty_of : (xs : Bytes) → length xs ≤ 0 → xs ≡ []
empty_of [] h = refl
empty_of (x ∷ xs) h = absurd (omega arith)

fewer_left :
    (xs ys zs : Bytes) (n : ℕ)
    → xs ++ ys ≡ zs
    → (0 < length zs → 0 < length xs)
    → length zs ≤ suc n
    → length ys ≤ n
fewer_left [] ys zs n e h k = ground (arith, ap length e)
fewer_left (x ∷ xs) ys zs n e h k = omega (arith, ap length e, length-append xs ys)

pub take-nil : (n : ℕ) → take {A = ℕ} n [] ≡ []
take-nil zero = refl
take-nil (suc n) = refl

drop-nil : (n : ℕ) → drop {A = ℕ} n [] ≡ []
drop-nil zero = refl
drop-nil (suc n) = refl

abbrev pub counted : Poll (Result RecvError Bytes) → ℕ → ℕ
counted Poll.pending k = k
counted (Poll.ready r) k = suc k

module _ {RX : Type 0} ⦃c : RecvChannel RX⦄ where
  -- Reads with space for so many bytes, one after another: the bytes that they got
  pub reads : List ℕ → ReceiverStream RX → Bytes × ReceiverStream RX
  reads [] s = ([], s)
  reads (n ∷ ns) s =
      let (s', r) = poll_read n s in let (bytes, s'') = reads ns s' in (got r ++ bytes, s'')

  -- How many of the reads are not pending
  unfoldable pub answered : List ℕ → ReceiverStream RX → ℕ
  answered [] s = 0
  answered (n ∷ ns) s = let (s', r) = poll_read n s in counted r (answered ns s')

  module _ (queue : RX → List Bytes) (fifo : IsFifo queue) where
    abbrev pub packets : ReceiverStream RX → List Bytes
    packets s = queue s.receiver.rx

    -- The bytes that the reader has not got
    abbrev pub left : ReceiverStream RX → Bytes
    left s = s.buf ++ concat (packets s)

    -- A read with space for `n` bytes: it gets bytes, the first that are left, or is pending, and leaves the others.
    pub record Reads (n : ℕ) (s s' : ReceiverStream RX) (r : Poll (Result RecvError Bytes))
        : Type 0 where
      pub split : got r ++ left s' ≡ left s
      pub moves : 0 < length (left s) → 0 < n → r ≢ Poll.pending → 0 < length (got r)
      pub nonempty : All IsPacket (packets s')

    put_slice-Reads :
        (n : ℕ) (s : ReceiverStream RX)
        → All IsPacket (packets s)
        → (0 < length (left s) → 0 < length s.buf)
        → Reads n s (put_slice n s).0 (put_slice n s).1
    unfolding put_slice
    put_slice-Reads n s ps h = record {
      split =
          sym (append_assoc (take (min n (length s.buf)) s.buf) _ _)
          ∙ ap (λ (k : Bytes). k ++ concat (packets s))
              (append-take-drop (min n (length s.buf)) s.buf);
      moves =
          λ p q a. omega (arith, h p, length-take_le (min n (length s.buf)) s.buf (omega arith));
      nonempty = ps;
    }

    -- The channel has no packet: nothing is read.
    quiet :
        (n : ℕ) (s : ReceiverStream RX) (answer : Poll (Option Bytes)) (e : Option RecvError)
        → s.buf ≡ []
        → ((p : Bytes) → answer ≢ Poll.ready (some p))
        → (got (read_received n s (received e answer)).1 ≡ [])
          × ((read_received n s (received e answer)).0 ≡ s)
    unfolding read_received received put_slice
    quiet n s Poll.pending e h none_there = (refl, refl)
    quiet n s (Poll.ready (some p)) e h none_there = absurd (none_there p refl)
    quiet n s (Poll.ready none) (some x) h none_there = (refl, refl)
    quiet n s (Poll.ready none) none h none_there = (
      ap (take (min n (length s.buf))) h ∙ take-nil (min n (length s.buf)),
      ap (λ (k : Bytes). record s { buf = k })
          (ap (drop (min n (length s.buf))) h ∙ drop-nil (min n (length s.buf)) ∙ sym h),
    )

    read_quiet :
        (n : ℕ) (r : Receiver RX)
        → queue r.rx ≡ []
        → let s : ReceiverStream RX = record { receiver = r; buf = [] } in
          Reads n s (poll_read n s).0 (poll_read n s).1
    unfolding poll_read poll_recv concat
    read_quiet n r e =
        let s0 : ReceiverStream RX = record {
          receiver = record r { rx = (c.poll_recv r.rx).0 };
          buf = [];
        } in
        let (g, k) =
          quiet n s0 (c.poll_recv r.rx).1 r.error refl (λ (p : Bytes). fifo.waits r.rx p e) in
        record {
          split =
              ap₂ (λ (x : Bytes) (y : ReceiverStream RX). x ++ left y) g k
              ∙ ap concat (fifo.stays r.rx e)
              ∙ sym (ap concat e);
          moves = λ h m a. absurd (omega (arith, h, ap (λ (q : List Bytes). length (concat q)) e));
          nonempty =
              subst (λ (y : ReceiverStream RX). All IsPacket (packets y)) (sym k)
                (subst (All IsPacket) (sym (fifo.stays r.rx e)) tt);
        }

    Reads-from :
        (n : ℕ) (s s0 s' : ReceiverStream RX) (r : Poll (Result RecvError Bytes))
        → left s ≡ left s0
        → Reads n s0 s' r
        → Reads n s s' r
    Reads-from n s s0 s' r e h = record {
      split = h.split ∙ sym e;
      moves = λ p q. h.moves (subst (λ (k : Bytes). 0 < length k) e p) q;
      nonempty = h.nonempty;
    }

    read_packet :
        (n : ℕ) (r : Receiver RX) (p : Bytes) (ps : List Bytes)
        → queue r.rx ≡ p ∷ ps
        → All IsPacket (p ∷ ps)
        → let s : ReceiverStream RX = record { receiver = r; buf = [] } in
          Reads n s (poll_read n s).0 (poll_read n s).1
    unfolding poll_read poll_recv received read_received concat
    read_packet n r p ps e all = elim (fifo.gives r.rx p ps e) [
      | inl (given, rest) ↦
          let s0 : ReceiverStream RX = record {
            receiver = record r { rx = (c.poll_recv r.rx).0 };
            buf = p;
          } in
          rw given (
            Reads-from n (record { receiver = r; buf = [] }) s0 (put_slice n s0).0
              (put_slice n s0).1 (ap concat e ∙ ap (λ (k : List Bytes). p ++ concat k) (sym rest))
              (put_slice-Reads n s0 (subst (All IsPacket) (sym rest) all.1) (λ h. all.0)))
      | inr (pends, rest) ↦ rw pends (record {
        split = ap concat rest ∙ sym (ap concat e);
        moves = λ h m a. absurd (a refl);
        nonempty = subst (All IsPacket) (sym rest) all;
      })
    ]

    -- What a read gives when an empty packet waits: no bytes, or it is pending.
    abbrev pub ReadsNone : ℕ → ReceiverStream RX → List Bytes → Type 0
    ReadsNone n s ps =
        (((poll_read n s).1 ≡ Poll.ready (ok [])) × (packets (poll_read n s).0 ≡ ps))
        ⊎ (((poll_read n s).1 ≡ Poll.pending) × (packets (poll_read n s).0 ≡ [] ∷ ps))

    read_empty :
        (n : ℕ) (r : Receiver RX) (buf : Bytes) (ps : List Bytes)
        → buf ≡ []
        → queue r.rx ≡ [] ∷ ps
        → ReadsNone n (record { receiver = r; buf = buf }) ps
    unfolding poll_read poll_recv received read_received put_slice
    read_empty n r (b ∷ rest) ps h e = absurd (cc h)
    read_empty n r [] ps h e = elim (fifo.gives r.rx [] ps e) [
      | inl (given, rest) ↦
          inl (rw given (ap (λ (k : Bytes). Poll.ready (ok k)) (take-nil (min n 0))), rw given rest)
      | inr (pends, rest) ↦ inr (rw pends refl, rw pends rest)
    ]

    -- An empty packet is read as no bytes.
    pub poll_read-empty :
        (n : ℕ) (s : ReceiverStream RX) (ps : List Bytes)
        → s.buf ≡ []
        → packets s ≡ [] ∷ ps
        → ReadsNone n s ps
    poll_read-empty n s ps h e = read_empty n s.receiver s.buf ps h e

    -- Every read
    read_any :
        (n : ℕ) (r : Receiver RX) (buf : Bytes) (q : List Bytes)
        → queue r.rx ≡ q
        → All IsPacket q
        → let s : ReceiverStream RX = record { receiver = r; buf = buf } in
          Reads n s (poll_read n s).0 (poll_read n s).1
    unfolding poll_read
    read_any n r (b ∷ rest) q e all =
        put_slice-Reads n (record { receiver = r; buf = b ∷ rest })
          (subst (All IsPacket) (sym e) all) (λ h. omega arith)
    read_any n r [] [] e all = read_quiet n r e
    read_any n r [] (p ∷ ps) e all = read_packet n r p ps e all

    pub poll_read-Reads :
        (n : ℕ) (s : ReceiverStream RX)
        → All IsPacket (packets s)
        → Reads n s (poll_read n s).0 (poll_read n s).1
    poll_read-Reads n s all = read_any n s.receiver s.buf (packets s) refl all

    after_read :
        (n k : ℕ) (s s' : ReceiverStream RX) (r : Poll (Result RecvError Bytes))
        → Reads n s s' r
        → 0 < n
        → length (left s) ≤ counted r k
        → length (left s') ≤ k
    after_read n k s s' Poll.pending one p h = omega (arith, h, ap length one.split)
    after_read n k s s' (Poll.ready x) one p h =
        fewer_left (got (Poll.ready x)) (left s') (left s) k one.split
          (λ q. one.moves q p (λ e. cc)) h

    -- Reads with space for any positive numbers of bytes, of which at least as many are not pending as bytes are left, get
    -- all the bytes that are left in the buffer and in the packets that wait, in order, when no packet is
    -- empty.
    pub reads-left :
        (ns : List ℕ) (s : ReceiverStream RX)
        → All IsPacket (packets s)
        → All (λ (n : ℕ). 0 < n) ns
        → length (left s) ≤ answered ns s
        → (reads ns s).0 ≡ left s
    unfolding reads answered
    reads-left [] s all pos h = sym (empty_of (left s) (omega (arith, h)))
    reads-left (n ∷ ns) s all (p, pos) h =
        let one = poll_read-Reads n s all in
        let (s', r) = poll_read n s in
        let fewer : length (left s') ≤ answered ns s' =
          after_read n (answered ns s') s s' r one p h in
        ap (λ (k : Bytes). got r ++ k) (reads-left ns s' one.nonempty pos fewer) ∙ one.split
