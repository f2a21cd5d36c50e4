-- ===== src/Task/Resend/Again.antt =====
-- A packet of the resend queue is underway again.
use aggligator.Base.{
  ℕ, ◌+◌, ◌≡◌, ◌≢◌, refl, sym, ap, subst, ◌∙◌, Bool, true, not, Option, none, some, List, [], ◌∷◌,
  set, ◌==◌, arith, ◌&&◌,
}
use aggligator.Base.Result.{ok}
use aggligator.Seq.Order.{wrap}
use aggligator.Msg.{ReliableMsg}
use aggligator.Packets.{
  Packets, PacketRef, SentInfo, SentReliable, SentReliableStatus, data_size, find, set_status,
  status_size, sent_size,
}
use aggligator.Packets.Queue.{is_queued}
use aggligator.Packets.Update.{updated, Front, queued-Front}
use aggligator.Task.Defs.{TxState}
use aggligator.Task.Ack.Totals.{
  unacked_status, received_status, sent_size-total, total-set, Numbered-set, Addressed-set,
  length-set,
}
use aggligator.Task.Ack.Kept.{Counted}
use aggligator.Task.Send.{queued_msg}
use aggligator.Task.Send.Handler.{own_share, no_share}
use aggligator.Task.Resend.{sent_link_of, may_resend}
use aggligator.Task.Ack.Queue.{Resendable}

-- A packet that waits has a message, and counts for no link.
pub record Waiting (st : SentReliableStatus) : Type 0 where
  pub msg : ReliableMsg
  pub sent_link : ℕ
  pub runs : queued_msg st ≡ ok (msg, sent_link)
  pub unacked : unacked_status st ≡ data_size msg
  pub received : received_status st ≡ 0
  pub share : (id : ℕ) → status_size id st ≡ 0

pub is_queued-Waiting : (st : SentReliableStatus) → is_queued st ≡ true → Waiting st
unfolding queued_msg status_size
is_queued-Waiting (SentReliableStatus.sent i) h = cc
is_queued-Waiting (SentReliableStatus.received size) h = cc
is_queued-Waiting (SentReliableStatus.resend_queued m l) h = record {
  msg = m;
  sent_link = l;
  runs = refl;
  unacked = refl;
  received = refl;
  share = λ id. refl;
}

-- What the status of a sent packet does to the sums.
pub record Resent (n a id : ℕ) (i : SentInfo) (s : TxState) (rest : List PacketRef)
    (ps qs : Packets) : Type 0 where
  pub counted : Counted n (record s { resend_queue = rest; txed_packets = qs })
  pub resendable : Resendable a (record s { resend_queue = rest; txed_packets = qs })
  pub own : sent_size id qs ≡ sent_size id ps + data_size i.msg
  pub others : (j : ℕ) → j ≢ id → sent_size j qs ≡ sent_size j ps

pub set_sent-Resent :
    (n a id : ℕ) (i : SentInfo) (s : TxState) (ps : Packets) (r : PacketRef) (rest : List PacketRef)
    (f : Front ps r rest) (w : Waiting f.p.status)
    → Counted n (record s { txed_packets = ps })
    → Resendable a (record s { txed_packets = ps })
    → i.link_id ≡ id
    → data_size i.msg ≡ unacked_status f.p.status
    → Resent n a id i s rest ps (set_status r.ptr (SentReliableStatus.sent i) ps)
set_sent-Resent n a id i s ps r rest f w c h e m =
    let st = SentReliableStatus.sent i in
    let p' : SentReliable = updated f.p st in
    let sizes : (j : ℕ) → sent_size j (set ps f.i p') ≡ sent_size j ps + status_size j st = λ j.
      omega (
        arith,
        sent_size-total j ps,
        sent_size-total j (set ps f.i p'),
        total-set (status_size j) ps f.i f.p p' f.at,
        w.share j,
      ) in
    subst (Resent n a id i s rest ps) (sym (f.sets st)) (record {
      counted = record {
        numbered = Numbered-set n ps f.i f.p st c.numbered f.at;
        next = c.next ∙ ap (λ (x : ℕ). wrap (n + x)) (sym (length-set ps f.i p'));
        short = omega (arith, c.short, length-set ps f.i p');
        unacked = omega (arith, c.unacked, total-set unacked_status ps f.i f.p p' f.at, m);
        received =
            omega (arith, c.received, total-set received_status ps f.i f.p p' f.at, w.received);
      };
      resendable = record {
        addressed = Addressed-set a ps f.i f.p st h.addressed f.at;
        next_address = omega (arith, h.next_address, length-set ps f.i p');
        queue = sym (f.leaves st refl);
      };
      own = omega (arith, sizes id, own_share id i e);
      others = λ j ne. omega (arith, sizes j, no_share id j i e ne);
    })

pub allowed :
    (ps : Packets) (r : PacketRef) (rest : List PacketRef) (p : SentReliable) (w : Waiting p.status)
    (link_id : ℕ) (nr : Option ℕ)
    → find r.ptr ps ≡ some p
    → sent_link_of ps (r ∷ rest) ≡ ok nr
    → may_resend nr link_id ≡ true
    → not (link_id == w.sent_link) ≡ true
unfolding sent_link_of
allowed ps r rest p w link_id nr found is may =
    let e : ok (some w.sent_link) ≡ ok nr = sym (rw (found, w.runs) refl) ∙ is in
    let k : some w.sent_link ≡ nr = cc in
    let m : may_resend (some w.sent_link) link_id ≡ true =
      subst (λ (x : Option ℕ). may_resend x link_id ≡ true) (sym k) may in
    ground (arith, m)

pub sent_link_of-queued :
    (a : ℕ) (s : TxState) (rs : List PacketRef)
    → Resendable a s
    → s.resend_queue ≡ rs
    → (nr : Option ℕ) × (sent_link_of s.txed_packets rs ≡ ok nr)
unfolding sent_link_of
sent_link_of-queued a s [] h e = (none, refl)
sent_link_of-queued a s (r ∷ rest) h e =
    let f = queued-Front a s.txed_packets r rest h.addressed (sym h.queue ∙ e) in
    let w = is_queued-Waiting f.p.status f.waits in (some w.sent_link, rw (f.found, w.runs) refl)

pub both_fit : (x y : Bool) → (x && y) ≡ true → y ≡ true
both_fit x y e = ground arith
