-- ===== src/Packets/Update.antt =====
-- One packet's status changes: what it does to the list of the packets that wait to be sent again.
use aggligator.Base.{
  ℕ, zero, suc, ◌+◌, ◌<◌, ◌≡◌, refl, ap, true, false, some, List, [], ◌∷◌, get_elem?, set, arith,
  ◌==◌, ==_self, Bool-cases, inl, inr,
}
use aggligator.Packets.{Packets, PacketRef, SentReliable, SentReliableStatus, ref, find, set_status}
use aggligator.Packets.Queue.{is_queued, queued, Addressed}

abbrev pub updated : SentReliable → SentReliableStatus → SentReliable
updated p st = record p { status = st }

-- A status of a packet that did not wait and does not wait either.
pub queued-set_same :
    (ps : Packets) (i : ℕ) (p : SentReliable) (st : SentReliableStatus)
    → get_elem? ps i ≡ some p
    → is_queued p.status ≡ is_queued st
    → queued (set ps i (updated p st)) ≡ queued ps
queued-set_same [] i p st h e = refl
queued-set_same (x ∷ ps) zero p st h e = let k : x ≡ p = cc in rw (k, e) refl
queued-set_same (x ∷ ps) (suc i) p st h e = rw (queued-set_same ps i p st h e) refl

-- The packet that is first in the resend queue: it is found by its address, and waits; once it is sent, the
-- others wait.
pub record Front (ps : Packets) (r : PacketRef) (rest : List PacketRef) : Type 0 where
  pub p : SentReliable
  pub i : ℕ
  pub at : get_elem? ps i ≡ some p
  pub waits : is_queued p.status ≡ true
  pub seq : p.seq ≡ r.seq
  pub ptr : p.ptr ≡ r.ptr
  pub found : find r.ptr ps ≡ some p
  pub sets : (st : SentReliableStatus) → set_status r.ptr st ps ≡ set ps i (updated p st)
  pub leaves :
      (st : SentReliableStatus) → is_queued st ≡ false → queued (set ps i (updated p st)) ≡ rest

-- Addresses further on are greater.
address_after :
    (a : ℕ) (ps : Packets)
    → Addressed a ps
    → (i : ℕ) (p : SentReliable) → get_elem? ps i ≡ some p
    → p.ptr ≡ a + i
address_after a [] h i p e = cc
address_after a (x ∷ ps) h zero p e = grind arith
address_after a (x ∷ ps) h (suc i) p e = omega (arith, address_after (suc a) ps h.1 i p e)

differs : (a b : ℕ) → a < b → (a == b) ≡ false
differs a b h = ground arith

here-Front :
    (p : SentReliable) (ps : Packets) (r : PacketRef) (rest : List PacketRef)
    → is_queued p.status ≡ true
    → ref p ≡ r
    → queued ps ≡ rest
    → Front (p ∷ ps) r rest
unfolding find set_status
here-Front p ps r rest waits e k = record {
  p = p;
  i = 0;
  at = refl;
  waits = waits;
  seq = ap (λ (x : PacketRef). x.seq) e;
  ptr = ap (λ (x : PacketRef). x.ptr) e;
  found = rw (← e, ==_self p.ptr) refl;
  sets = λ st. rw (← e, ==_self p.ptr) refl;
  leaves = λ st off. rw off k;
}

further-Front :
    (a : ℕ) (x : SentReliable) (ps : Packets) (r : PacketRef) (rest : List PacketRef)
    → is_queued x.status ≡ false
    → Addressed a (x ∷ ps)
    → Front ps r rest
    → Front (x ∷ ps) r rest
unfolding find set_status
further-Front a x ps r rest off h f =
    let ne : (x.ptr == r.ptr) ≡ false =
      differs x.ptr r.ptr (omega (arith, h.0, f.ptr, address_after (suc a) ps h.1 f.i f.p f.at)) in
    record {
      p = f.p;
      i = suc f.i;
      at = f.at;
      waits = f.waits;
      seq = f.seq;
      ptr = f.ptr;
      found = rw ne f.found;
      sets = λ st. rw ne (ap (◌∷◌ x) (f.sets st));
      leaves = λ st k. rw off (f.leaves st k);
    }

pub queued-Front :
    (a : ℕ) (ps : Packets) (r : PacketRef) (rest : List PacketRef)
    → Addressed a ps
    → queued ps ≡ r ∷ rest
    → Front ps r rest
queued-Front a [] r rest h e = cc
queued-Front a (x ∷ ps) r rest h e = elim (Bool-cases (is_queued x.status)) [
  | inl waits ↦
      let k : ref x ∷ queued ps ≡ r ∷ rest = rw waits at e in here-Front x ps r rest waits (cc) (cc)
  | inr off ↦ further-Front a x ps r rest off h (queued-Front (suc a) ps r rest h.1 (rw off at e))
]
