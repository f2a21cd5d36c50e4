-- ===== src/Link/Send/Fuel.antt =====
-- `send_test_data` ends: the rounds that it is given are enough.
use aggligator.Base.{
  ℕ, zero, suc, ◌+◌, ◌-◌, ◌≤◌, ◌<◌, ◌≡◌, refl, min, Bool, true, false, arith, ltb, ge→ltb,
  Bool-cases, inl, inr,
}
use aggligator.Base.Result.{ok, err, ◌>>=◌}
use aggligator.Fault.{Run}
use aggligator.Bytes.{Bytes, ByteOrder}
use aggligator.Msg.{LinkMsg}
use aggligator.Msg.Write.{encode}
use aggligator.Link.Defs.{Sink, LinkInt, PollReady}
use aggligator.Link.Send.{taken, test_packet, test_round, test_loop, unwrap_encoded}

module _ {TX : Type 0} where
  -- Whatever the loop goes on with, a round depends on it only from the bytes sent afterwards.
  taken-same :
      (k k' : ℕ → LinkInt TX → Run (ℕ × LinkInt TX)) (sent size : ℕ) (l : LinkInt TX)
      (r : TX × Bool)
      → ((l' : LinkInt TX) → k (sent + size) l' ≡ k' (sent + size) l')
      → taken k sent size l r ≡ taken k' sent size l r
  unfolding taken
  taken-same k k' sent size l (tx, true) h = h (record l { tx = tx })
  taken-same k k' sent size l (tx, false) h = refl

module _ {TX : Type 0} ⦃s : Sink TX⦄ ⦃o : ByteOrder⦄ where
  test_packet-same :
      (k k' : ℕ → LinkInt TX → Run (ℕ × LinkInt TX)) (sent size : ℕ) (l : LinkInt TX)
      → ((l' : LinkInt TX) → k (sent + size) l' ≡ k' (sent + size) l')
      → test_packet k sent size l ≡ test_packet k' sent size l
  unfolding test_packet
  test_packet-same k k' sent size l h = go (unwrap_encoded (encode (LinkMsg.test_data size)))
    where
      go :
          (r : Run Bytes)
          → (r >>= λ b. taken k sent size l (s.start_send l.tx b))
            ≡ (r >>= λ b. taken k' sent size l (s.start_send l.tx b))
      go (ok b) = taken-same k k' sent size l (s.start_send l.tx b) h
      go (err f) = refl

  test_round-same :
      (k k' : ℕ → LinkInt TX → Run (ℕ × LinkInt TX)) (packet_size data_limit sent : ℕ)
      (l : LinkInt TX) (p : PollReady)
      → ((l' : LinkInt TX)
          → let size : ℕ = min packet_size (data_limit - sent) in
            k (sent + size) l' ≡ k' (sent + size) l')
      → test_round k packet_size data_limit sent l p ≡ test_round k' packet_size data_limit sent l p
  unfolding test_round
  test_round-same k k' packet_size data_limit sent l PollReady.ready h =
      test_packet-same k k' sent (min packet_size (data_limit - sent)) l h
  test_round-same k k' packet_size data_limit sent l PollReady.failed h = refl
  test_round-same k k' packet_size data_limit sent l PollReady.pending h = refl

  -- The test loop ends: when packets are not empty and there are as many rounds as bytes left to send, more rounds
  -- change neither the number of bytes sent, nor the link, nor the fault if there is one.
  pub test_loop-enough :
      (fuel rounds packet_size data_limit sent : ℕ) (l : LinkInt TX)
      → 0 < packet_size
      → data_limit ≤ sent + fuel
      → fuel ≤ rounds
      → test_loop rounds packet_size data_limit sent l
        ≡ test_loop fuel packet_size data_limit sent l
  unfolding test_loop
  test_loop-enough zero zero packet_size data_limit sent l h k le = refl
  test_loop-enough zero (suc rounds) packet_size data_limit sent l h k le =
      rw (test_loop, ge→ltb sent data_limit (omega arith)) refl
  test_loop-enough (suc fuel) zero packet_size data_limit sent l h k le = absurd (omega arith)
  test_loop-enough (suc fuel) (suc rounds) packet_size data_limit sent l h k le =
      elim (Bool-cases (ltb sent data_limit)) [
        | inl go_on ↦
            rw (test_loop, go_on)
              (test_round-same (test_loop rounds packet_size data_limit)
                (test_loop fuel packet_size data_limit) packet_size data_limit sent l
                (s.poll_ready l.tx)
                (λ l'.
                  test_loop-enough fuel rounds packet_size data_limit
                    (sent + min packet_size (data_limit - sent)) l' h (ground arith) (omega arith)))
        | inr done ↦ rw (test_loop, done) refl
      ]
