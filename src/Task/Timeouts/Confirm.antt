-- ===== src/Task/Timeouts/Confirm.antt =====
-- The acknowledgement timeout stays within the configured limits.
use aggligator.Base.{
  ℕ, ◌+◌, ◌*◌, ◌≤◌, ◌≡◌, refl, ap, ◌∙◌, min, max, Bool, true, false, some, [], ◌∷◌, ◌++◌, All,
  arith, leb, lt→ltb, ◌<◌, is_some,
}
use aggligator.Base.Result.{ok}
use aggligator.Packets.{Packets, SentInfo, SentReliable, SentReliableStatus}
use aggligator.Link.{LinkInt, link_cfg}
use aggligator.Task.Defs.{Task, link_at}
use aggligator.Task.Timeouts.{
  unwrap_or, clamp, ack_factor, confirm_timeout, resent_factor, unreliable_factor, below, u32_end,
  duration_end, instant_end, oldest_sent, sent_timeout, earliest_confirm_timeout,
}

abbrev pub is_sent : SentReliableStatus → Bool
is_sent (SentReliableStatus.sent i) = true
is_sent (SentReliableStatus.received size) = false
is_sent (SentReliableStatus.resend_queued msg l) = false

skips :
    (st : SentReliableStatus) (ptr seq : ℕ) (ps : Packets)
    → is_sent st ≡ false
    → oldest_sent (record { ptr = ptr; seq = seq; status = st } ∷ ps) ≡ oldest_sent ps
unfolding oldest_sent
skips (SentReliableStatus.sent i) ptr seq ps e = cc
skips (SentReliableStatus.received size) ptr seq ps e = refl
skips (SentReliableStatus.resend_queued msg l) ptr seq ps e = refl

oldest_sent-append :
    (ps qs : Packets) (p : SentReliable) (i : SentInfo)
    → All (λ (x : SentReliable). is_sent x.status ≡ false) ps
    → p.status ≡ SentReliableStatus.sent i
    → oldest_sent (ps ++ (p ∷ qs)) ≡ some i
unfolding oldest_sent
oldest_sent-append [] qs p i h e = rw e refl
oldest_sent-append (x ∷ ps) qs p i h e =
    skips x.status x.ptr x.seq (ps ++ (p ∷ qs)) h.0 ∙ oldest_sent-append ps qs p i h.1 e

clamp_bounds :
    (d lower upper : ℕ)
    → lower ≤ upper
    → (clamp d lower upper ≡ ok (min (max d lower) upper))
      × (lower ≤ min (max d lower) upper)
      × (min (max d lower) upper ≤ upper)
unfolding clamp
clamp_bounds d lower upper h =
    (let e : leb lower upper ≡ true = ground arith in rw e refl, omega arith, omega arith)

below-ok : (end n : ℕ) → n < end → below end n ≡ ok n
unfolding below
below-ok end n h = rw (lt→ltb n end h) refl

module _ {TX : Type 0} where
  -- When the oldest unacknowledged packet times out.
  pub record ConfirmTimes (i : SentInfo) (l : LinkInt TX) (t : Task TX) : Type 0 where
    pub at : ℕ
    pub runs : earliest_confirm_timeout t ≡ ok (some (i.link_id, at, is_some i.flushed))
    pub lower : unwrap_or i.flushed i.sent + (link_cfg l).ack_timeout_min ≤ at
    pub upper : at ≤ unwrap_or i.flushed i.sent + (link_cfg l).ack_timeout_max

  -- The factors, the timeout and its end can be represented.
  pub record FitsClock (i : SentInfo) (l : LinkInt TX) : Type 0 where
    pub factor : resent_factor i l * unreliable_factor l < u32_end
    pub once : l.roundtrip * (link_cfg l).ack_timeout_roundtrip_factor < duration_end
    pub all :
        l.roundtrip
          * (link_cfg l).ack_timeout_roundtrip_factor
          * (resent_factor i l * unreliable_factor l)
        < duration_end
    pub at : unwrap_or i.flushed i.sent + (link_cfg l).ack_timeout_max < instant_end

  -- When no packet in front of a sent one is sent, its link exists, the configured least timeout is not above the
  -- greatest, and the factors (below 2 ^ 32), the roundtrip time multiplied by them and the greatest
  -- timeout after the packet was flushed or sent do not overflow, the earliest confirm timeout is that
  -- packet's: it is computed without a panic, belongs to the packet's link, tells whether the packet
  -- was flushed, and is between the least and the greatest timeout after the packet was flushed, or
  -- else sent.
  pub earliest_confirm_timeout-ConfirmTimes :
      (ps qs : Packets) (p : SentReliable) (i : SentInfo) (l : LinkInt TX) (t : Task TX)
      → t.txed_packets ≡ ps ++ (p ∷ qs)
      → All (λ (x : SentReliable). is_sent x.status ≡ false) ps
      → p.status ≡ SentReliableStatus.sent i
      → link_at t.links i.link_id ≡ ok l
      → (link_cfg l).ack_timeout_min ≤ (link_cfg l).ack_timeout_max
      → FitsClock i l
      → ConfirmTimes i l t
  unfolding earliest_confirm_timeout sent_timeout confirm_timeout ack_factor
  earliest_confirm_timeout-ConfirmTimes ps qs p i l t all before is here le fits =
      let once : ℕ = l.roundtrip * (link_cfg l).ack_timeout_roundtrip_factor in
      let fac : ℕ = resent_factor i l * unreliable_factor l in
      let b =
        clamp_bounds (once * fac) (link_cfg l).ack_timeout_min (link_cfg l).ack_timeout_max le in
      let dur : ℕ =
        min (max (once * fac) (link_cfg l).ack_timeout_min) (link_cfg l).ack_timeout_max in
      let at : ℕ = unwrap_or i.flushed i.sent + dur in
      record {
        at = at;
        runs =
            rw
              (
                ap oldest_sent all ∙ oldest_sent-append ps qs p i before is,
                here,
                below-ok u32_end fac fits.factor,
                below-ok duration_end once fits.once,
                below-ok duration_end (once * fac) fits.all,
                b.0,
                below-ok instant_end at (omega (arith, b.2, fits.at)),
              )
              refl;
        lower = omega (arith, b.1);
        upper = omega (arith, b.2);
      }
