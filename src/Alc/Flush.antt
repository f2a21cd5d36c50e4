-- ===== src/Alc/Flush.antt =====
-- Flushing a `SenderSink`: it is done when the task has answered a flush request.
use aggligator.Base.{
  ℕ, ◌≡◌, refl, ap, sym, ◌∙◌, ◌⊎◌, inl, inr, Bool, true, false, none, some, List, [], ◌∷◌, ◌++◌,
  Option-cases, arith,
}
use aggligator.Base.Result.{ok, err}
use aggligator.Task.Defs.{SendReq}
use aggligator.Alc.{Poll, SendChannel, IsOrdered}
use aggligator.Alc.Sender.{
  SenderSink, Done, channel_ready, await_flushed, flush_started, flush_when_ready, poll_flush,
}

module _ {TX : Type 0} ⦃c : SendChannel TX⦄ where
  await_flushed-done :
      (answer : ℕ → Poll Bool) (n : ℕ) (s : SenderSink TX)
      → (await_flushed answer n s).1 ≡ Poll.ready (ok tt)
      → (answer n ≡ Poll.ready true)
        × ((await_flushed answer n s).0.flushed_rx ≡ none)
        × ((await_flushed answer n s).0.tx ≡ s.tx)
  unfolding await_flushed
  await_flushed-done answer n s h = ground arith

  module _ (queue : TX → List SendReq) (ordered : IsOrdered queue) where
    flush_started-done :
        (answer : ℕ → Poll Bool) (fresh : ℕ) (s : SenderSink TX) (r : TX × Bool)
        → (flush_started answer fresh s r).1 ≡ Poll.ready (ok tt)
        → (r.1 ≡ true)
          × (answer fresh ≡ Poll.ready true)
          × ((flush_started answer fresh s r).0.flushed_rx ≡ none)
          × ((flush_started answer fresh s r).0.tx ≡ r.0)
    unfolding flush_started
    flush_started-done answer fresh s (tx, true) h =
        let (a, b, e) =
          await_flushed-done answer fresh (record s { tx = tx; flushed_rx = some fresh }) h in
        (refl, a, b, e)
    flush_started-done answer fresh s (tx, false) h = absurd (cc h)

    flush_new :
        (answer : ℕ → Poll Bool) (fresh : ℕ) (s : SenderSink TX) (p : Poll Done)
        → (flush_when_ready answer fresh (s, p)).1 ≡ Poll.ready (ok tt)
        → ((flush_when_ready answer fresh (s, p)).0.flushed_rx ≡ none)
          × (answer fresh ≡ Poll.ready true)
          × (queue (flush_when_ready answer fresh (s, p)).0.tx
              ≡ queue s.tx ++ (SendReq.flush fresh ∷ []))
    unfolding flush_when_ready
    flush_new answer fresh s (Poll.ready (ok u)) h =
        let (taken, a, b, e) =
          flush_started-done answer fresh s (c.start_send s.tx (SendReq.flush fresh)) h in
        (b, a, ap queue e ∙ ordered.appends s.tx (SendReq.flush fresh) taken)
    flush_new answer fresh s (Poll.ready (err e)) h = absurd (cc h)
    flush_new answer fresh s Poll.pending h = absurd (cc h)

    poll_flush-under_way :
        (answer : ℕ → Poll Bool) (fresh n : ℕ) (s : SenderSink TX)
        → s.closed ≡ false
        → s.cfg.ignore_flush ≡ false
        → s.flushed_rx ≡ some n
        → poll_flush answer fresh s ≡ await_flushed answer n s
    unfolding poll_flush
    poll_flush-under_way answer fresh n s h k e = ground arith

    poll_flush-new :
        (answer : ℕ → Poll Bool) (fresh : ℕ) (s : SenderSink TX)
        → s.closed ≡ false
        → s.cfg.ignore_flush ≡ false
        → s.flushed_rx ≡ none
        → poll_flush answer fresh s ≡ flush_when_ready answer fresh (channel_ready s)
    unfolding poll_flush
    poll_flush-new answer fresh s h k e = ground arith

    -- A flush that succeeds, when the sink is open and flushing is not ignored, has been answered by the task: the
    -- flush that was under way, or else the one that was queued behind all earlier requests by this
    -- call; after it no flush is under way.
    pub poll_flush-answered :
        (answer : ℕ → Poll Bool) (fresh : ℕ) (s : SenderSink TX)
        → s.closed ≡ false
        → s.cfg.ignore_flush ≡ false
        → (poll_flush answer fresh s).1 ≡ Poll.ready (ok tt)
        → ((poll_flush answer fresh s).0.flushed_rx ≡ none)
          × (((n : ℕ) × (s.flushed_rx ≡ some n) × (answer n ≡ Poll.ready true))
              ⊎ ((s.flushed_rx ≡ none)
                  × (answer fresh ≡ Poll.ready true)
                  × (queue (poll_flush answer fresh s).0.tx
                      ≡ queue s.tx ++ (SendReq.flush fresh ∷ []))))
    unfolding channel_ready
    poll_flush-answered answer fresh s open_ flushes h = elim (Option-cases s.flushed_rx) [
      | inr (n, e) ↦
          let same = poll_flush-under_way answer fresh n s open_ flushes e in
          let (a, b, x) = await_flushed-done answer n s (sym (ap (λ r. r.1) same) ∙ h) in
          (ap (λ r. r.0.flushed_rx) same ∙ b, inl (n, e, a))
      | inl e ↦
          let same = poll_flush-new answer fresh s open_ flushes e in
          let (a, b, q) =
            flush_new answer fresh (channel_ready s).0 (channel_ready s).1
              (sym (ap (λ r. r.1) same) ∙ h) in
          (
            ap (λ r. r.0.flushed_rx) same ∙ a,
            inr (
              e,
              b,
              ap (λ r. queue r.0.tx) same
                  ∙ q
                  ∙ ap (λ (k : List SendReq). k ++ (SendReq.flush fresh ∷ [])) (ordered.keeps s.tx),
            ),
          )
    ]
