-- ===== src/Task/Receive/Order.antt =====
-- The reassembly queue against the sequence of messages that the remote endpoint sends: `m n` is the message
-- of its n-th packet, counted from 0 and not wrapped.
use aggligator.Base.{
  ℕ, zero, suc, ◌+◌, ◌-◌, ◌<◌, ◌≡◌, refl, Bool, true, false, none, some, List, [], ◌∷◌, ◌++◌,
  length, replicate, get_elem?, set, arith, append_assoc, append-nil, ==_self, leb, if◌then◌else◌,
  ap, ap₂, ◌∙◌, subst, Bool-cases, inl, inr,
}
use aggligator.Base.Result.{ok}
use native.Mathlib.Nat.{add-zero}
use aggligator.Seq
use aggligator.Seq.Order.{wrap, add-wrap}
use aggligator.Msg.{ReliableMsg}
use aggligator.Packets.{data_size}
use aggligator.Task.Defs.{ReceivedReliableMsg}
use aggligator.Task.Receive.Sizes.{Entry, queue_size, sizes, sizes-append, not_consumable_size}
use aggligator.Task.Receive.{is_consumable, extend, forward}

pub suc_add : (n i : ℕ) → suc n + i ≡ n + suc i
suc_add n i = omega arith

next-wrap : (n : ℕ) → Seq.add (wrap n) 1 ≡ wrap (suc n)
next-wrap n = add-wrap n 1 ∙ ap wrap (omega arith)

-- Appending an element if a test holds, and then more.
append_if :
    {A : Type 0} (b : Bool) (c rest : List A) (a : A)
    → (if b then c ++ (a ∷ []) else c) ++ rest ≡ c ++ ((if b then a ∷ [] else []) ++ rest)
append_if true c rest a = append_assoc c (a ∷ []) rest
append_if false c rest a = refl

-- The front slot is empty, so that the n-th packet is missing.
abbrev pub Missing : List Entry → Type 0
Missing [] = Unit {0}
Missing (none ∷ q) = Unit {0}
Missing (some r ∷ q) = ⊥

module _ (m : ℕ → ReliableMsg) where
  -- The packet as it stands in the receiver's queues.
  abbrev pub packet : ℕ → ReceivedReliableMsg
  packet n = record { seq = wrap n; msg = m n }

  -- The consumable packets among the `d` packets from the n-th on, in order.
  abbrev pub in_order : ℕ → ℕ → List ReceivedReliableMsg
  in_order n zero = []
  in_order n (suc d) = (if is_consumable (m n) then packet n ∷ [] else []) ++ in_order (suc n) d

  -- The queue's slots hold the packets from the n-th on, or nothing.
  abbrev pub Holds : ℕ → List Entry → Type 0
  Holds n [] = Unit {0}
  Holds n (none ∷ q) = Holds (suc n) q
  Holds n (some r ∷ q) = (r ≡ packet n) × Holds (suc n) q

  Holds-replicate : (n k : ℕ) → Holds n (replicate k none)
  Holds-replicate n zero = tt
  Holds-replicate n (suc k) = Holds-replicate (suc n) k

  Holds-append_none : (n k : ℕ) (q : List Entry) → Holds n q → Holds n (q ++ replicate k none)
  Holds-append_none n k [] h = Holds-replicate n k
  Holds-append_none n k (none ∷ q) h = Holds-append_none (suc n) k q h
  Holds-append_none n k (some r ∷ q) h = (h.0, Holds-append_none (suc n) k q h.1)

  pub Holds-extend : (n k : ℕ) (q : List Entry) → Holds n q → Holds n (extend q k)
  unfolding extend
  Holds-extend n k q h = elim (Bool-cases (leb (length q) k)) [
    | inl short ↦ rw short (Holds-append_none n (k + 1 - length q) q h)
    | inr long ↦ rw long h
  ]

  pub Holds-set : (n i : ℕ) (q : List Entry) → Holds n q → Holds n (set q i (some (packet (n + i))))
  Holds-set n i [] h = tt
  Holds-set n zero (none ∷ q) h = (ap packet (add-zero n), h)
  Holds-set n zero (some r ∷ q) h = (ap packet (add-zero n), h.1)
  Holds-set n (suc i) (none ∷ q) h =
      subst (λ x. Holds (suc n) (set q i (some (packet x)))) (suc_add n i) (Holds-set (suc n) i q h)
  Holds-set n (suc i) (some r ∷ q) h = (
    h.0,
    subst (λ x. Holds (suc n) (set q i (some (packet x)))) (suc_add n i)
        (Holds-set (suc n) i q h.1),
  )

  abbrev pushed : ℕ → List ReceivedReliableMsg → List ReceivedReliableMsg
  pushed n c = if is_consumable (m n) then c ++ (packet n ∷ []) else c

  sizes-pushed :
      (n : ℕ) (c : List ReceivedReliableMsg) → sizes (pushed n c) ≡ sizes c + data_size (m n)
  sizes-pushed n c = ground (arith, sizes-append c (packet n ∷ []), not_consumable_size (m n))

  forward_front :
      (n : ℕ) (q : List Entry) (c : List ReceivedReliableMsg)
      → forward (wrap n) (some (packet n) ∷ q) c ≡ forward (wrap (suc n)) q (pushed n c)
  unfolding forward
  forward_front n q c = rw (==_self (wrap n), next-wrap n) refl

  -- What the forwarding loop does: it ends, takes the `d` packets that follow one another from the
  -- front, and appends the consumable ones in order.
  pub record Forwarded (n : ℕ) (q : List Entry) (c : List ReceivedReliableMsg) : Type 0 where
    pub d : ℕ
    pub q' : List Entry
    pub runs : forward (wrap n) q c ≡ ok (wrap (n + d), q', c ++ in_order n d)
    pub holds : Holds (n + d) q'
    pub missing : Missing q'
    pub count : length q ≡ d + length q'
    pub size : queue_size q + sizes c ≡ queue_size q' + sizes (c ++ in_order n d)
    pub stays : d ≡ 0 → Missing q

  pub forward-Forwarded :
      (n : ℕ) (q : List Entry) (c : List ReceivedReliableMsg) → Holds n q → Forwarded n q c
  unfolding forward
  forward-Forwarded n [] c h = record {
    d = 0;
    q' = [];
    runs = rw (add-zero n, append-nil c) refl;
    holds = tt;
    missing = tt;
    count = omega arith;
    size = rw (append-nil c) refl;
    stays = λ _. tt;
  }
  forward-Forwarded n (none ∷ q) c h = record {
    d = 0;
    q' = none ∷ q;
    runs = rw (add-zero n, append-nil c) refl;
    holds = rw (add-zero n) h;
    missing = tt;
    count = omega arith;
    size = rw (append-nil c) refl;
    stays = λ _. tt;
  }
  forward-Forwarded n (some r ∷ q) c h =
      let c2 : List ReceivedReliableMsg = pushed n c in
      let f = forward-Forwarded (suc n) q c2 h.1 in
      record {
        d = suc f.d;
        q' = f.q';
        runs = rw h.0 (
            forward_front n q c
            ∙ f.runs
            ∙ ap₂ (λ (x : ℕ) (y : List ReceivedReliableMsg). ok (wrap x, f.q', y)) (suc_add n f.d)
                (append_if (is_consumable (m n)) c (in_order (suc n) f.d) (packet n)));
        holds = subst (λ x. Holds x f.q') (suc_add n f.d) f.holds;
        missing = f.missing;
        count = omega (arith, f.count);
        size = omega (
          arith,
          f.size,
          sizes-pushed n c,
          ap sizes (append_if (is_consumable (m n)) c (in_order (suc n) f.d) (packet n)),
          ap (λ (x : ReceivedReliableMsg). data_size x.msg) h.0,
        );
        stays = λ e. absurd (omega arith);
      }

-- A filled front slot is not missing.
pub set_front :
    (q : List Entry) (r : ReceivedReliableMsg) → 0 < length q → ¬ Missing (set q 0 (some r))
set_front [] r h = absurd (omega arith)
set_front (x ∷ q) r h = λ e. e

pub held_front :
    (q : List Entry) (r : ReceivedReliableMsg) → get_elem? q 0 ≡ some (some r) → ¬ Missing q
held_front [] r h = cc
held_front (none ∷ q) r h = cc
held_front (some x ∷ q) r h = λ e. e

pub length-set {ℓ} : {A : Type ℓ} (q : List A) (i : ℕ) (e : A) → length (set q i e) ≡ length q
length-set [] i e = refl
length-set (x ∷ q) zero e = refl
length-set (x ∷ q) (suc i) e = ap suc (length-set q i e)
