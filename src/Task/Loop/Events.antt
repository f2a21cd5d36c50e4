-- ===== src/Task/Loop/Events.antt =====
-- Every event of the main loop but received messages and consumption is handled without a panic.
use mathlib.Core.List.{reverse}
use aggligator.Base.{
  ℕ, ◌+◌, ◌≤◌, ◌<◌, ◌≡◌, ◌≢◌, refl, ap, ◌∙◌, true, false, ◌&&◌, Option, none, some, List, ◌∷◌,
  length, All, arith,
}
use aggligator.Base.Result.{ok}
use aggligator.Fault.{Run}
use aggligator.Bytes.{ByteOrder}
use aggligator.Seq.{one_quarter}
use aggligator.Packets.{PacketRef, meets, meets_first}
use aggligator.Link.{Sink, LinkInt, NotWorkingReason, DisconnectInitiator, report_ready}
use aggligator.Task.Defs.{Task, link_at, put_link}
use aggligator.Task.Send.Unchanged.{same}
use aggligator.Task.Links.{unconfirm_link, remove_link}
use aggligator.Task.Links.Unconfirm.{Exists, link_at_put}
use aggligator.Task.Links.Removal.{remove_link-Resendable}
use aggligator.Task.Resend.{may_resend, non_resendable_link}
use aggligator.Task.Resend.Kept.{unconfirm_link-Resendable}
use aggligator.Task.Resend.Pick.{Usable, any_link}
use aggligator.Task.Limits.Adjust.{is_empty}
use aggligator.Task.Ready.{Round, not_idle}
use aggligator.Task.Ready.Sound.{Sound, Runs, put-Sound, flush_link-Runs, done-Runs}
use aggligator.Task.Ready.Kept.{handle_tx_ready-Runs}
use aggligator.Task.Loop.{
  LinkIntEvent, TaskEvent, Ending, Outcome, pop_last, handle_blocked_changed,
  handle_link_cfg_changed, start_disconnecting, go_on,
}
use aggligator.Task.Loop.Dispatch.{handle_link_event}
use aggligator.Task.Loop.Kept.{Vacant}

module _ {TX : Type 0} where
  -- When an event may come: its link exists, and is ready where something is sent over it.
  abbrev pub Expects : Round → Task TX → LinkIntEvent → ℕ → Type 0
  Expects r t LinkIntEvent.tx_ready id =
      (u : Usable any_link t.links id) × (meets_first u.link.link_id t.resend_queue
          (reverse u.link.txed_packets) t.txed_packets
        ≡ false)
      × ((r.resending && is_empty t.resend_queue) ≡ false)
      × (non_resendable_link t ≡ ok r.non_resendable_link)
  Expects r t (LinkIntEvent.rx msg bytes) id = ⊥
  Expects r t LinkIntEvent.tx_flushed id = Exists t.links id
  Expects r t LinkIntEvent.flush_required id = Exists t.links id
  Expects r t LinkIntEvent.tx_error id = Exists t.links id
  Expects r t LinkIntEvent.rx_error id = Exists t.links id
  Expects r t LinkIntEvent.blocked_changed id = Exists t.links id
  Expects r t (LinkIntEvent.link_cfg_changed c) id = Exists t.links id
  Expects r t LinkIntEvent.disconnect id = Exists t.links id

  abbrev pub IsExpected : Round → Task TX → TaskEvent TX → Type 0
  IsExpected r t TaskEvent.terminate = Unit {0}
  IsExpected r t (TaskEvent.new_link l c accepted) = (l.txed_unacked_data ≡ 0) × Vacant t
  IsExpected r t (TaskEvent.link_event id e) = Expects r t e id
  IsExpected r t (TaskEvent.write_rx id bytes) = Usable any_link t.links id
  IsExpected r t TaskEvent.write_end = All (Usable any_link t.links) t.idle_links
  IsExpected r t (TaskEvent.flush notify) = Unit {0}
  IsExpected r t (TaskEvent.confirm_timed_out id) = Exists t.links id
  IsExpected r t (TaskEvent.resend id) =
      (nr : Option ℕ) × (p : PacketRef) × (rest : List PacketRef) × (t.resend_queue ≡ p ∷ rest)
      × (non_resendable_link t ≡ ok nr)
      × (u : Usable any_link t.links id) × (may_resend nr u.link.link_id ≡ true)
      × (meets p.ptr u.link.link_id (reverse u.link.txed_packets) t.txed_packets ≡ false)
  IsExpected r t TaskEvent.read_dropped = All (Usable any_link t.links) t.idle_links
  IsExpected r t TaskEvent.read_closed = All (Usable any_link t.links) t.idle_links
  IsExpected r t TaskEvent.consume = ⊥
  IsExpected r t TaskEvent.send_consumed =
      All (Usable any_link t.links) t.idle_links × (pop_last t.idle_links ≢ none)
  IsExpected r t (TaskEvent.ping_link id) = Exists t.links id
  IsExpected r t (TaskEvent.link_unconfirmed_timeout id) = Exists t.links id
  IsExpected r t (TaskEvent.link_send_timeout id) = Exists t.links id
  IsExpected r t (TaskEvent.link_ping_timeout id) = Exists t.links id
  IsExpected r t TaskEvent.link_testing = Unit {0}
  IsExpected r t TaskEvent.no_links_timeout = Unit {0}
  IsExpected r t (TaskEvent.fatal_connect_error e) = Unit {0}

  abbrev pub KeepsSound : ℕ → ℕ → Task TX → Outcome TX → Type 0
  KeepsSound n a t (Outcome.continue_loop t') =
      Sound n a t' × (length t'.txed_packets ≤ length t.txed_packets + 1)
  KeepsSound n a t (Outcome.end_loop e) = Unit {0}

  pub record Served (n a : ℕ) (t : Task TX) (r : Run (Outcome TX)) : Type 0 where
    pub outcome : Outcome TX
    pub runs : r ≡ ok outcome
    pub sound : KeepsSound n a t outcome

  pub ended : (n a : ℕ) (t : Task TX) (e : Ending) → Served n a t (ok (Outcome.end_loop e))
  ended n a t e = record { outcome = Outcome.end_loop e; runs = refl; sound = tt }

  pub go_on-Served :
      (n a : ℕ) (t : Task TX) (r : Run (Task TX)) → Runs n a t r → Served n a t (go_on r)
  go_on-Served n a t r h = record {
    outcome = Outcome.continue_loop h.after;
    runs = ap go_on h.runs;
    sound = (h.sound, h.grown);
  }

  pub removed-Served :
      (n a now id : ℕ) (t : Task TX)
      → Sound n a t
      → length t.txed_packets < one_quarter
      → Exists t.links id
      → Served n a t (go_on (remove_link now id t))
  removed-Served n a now id t s room e =
      let x =
        remove_link-Resendable n a now id e.0 t s.accounted s.resendable (omega (arith, room))
          e.1 in
      go_on-Served n a t _ (record {
        after = x.after;
        runs = x.runs;
        sound = record { accounted = x.accounted; resendable = x.resendable };
        grown = omega (arith, x.kept);
      })

  pub unconfirmed-Runs :
      (n a now id : ℕ) (reason : NotWorkingReason) (l : LinkInt TX) (t : Task TX)
      → Sound n a t
      → length t.txed_packets < one_quarter
      → link_at t.links id ≡ ok l
      → Runs n a t (unconfirm_link now id reason t)
  unconfirmed-Runs n a now id reason l t s room e =
      let x =
        unconfirm_link-Resendable n a now id reason l t s.accounted s.resendable
          (omega (arith, room)) e in
      record {
        after = x.after;
        runs = x.runs;
        sound = record { accounted = x.accounted; resendable = x.resendable };
        grown = omega (arith, x.kept);
      }

  -- The link is replaced by one that counts the same.
  pub replaced-Sound :
      (n a id : ℕ) (l l' : LinkInt TX) (t : Task TX)
      → Sound n a t
      → link_at t.links id ≡ ok l
      → l'.txed_unacked_data ≡ l.txed_unacked_data
      → Sound n a (put_link id l' t)
  replaced-Sound n a id l l' t s e d =
      put-Sound n a id l' t.txed_packets t t s (same t.txed_packets) (d ∙ s.accounted.links id l e)
        refl refl

  start_disconnecting-Runs :
      (n a now id : ℕ) (l : LinkInt TX) (t : Task TX)
      → Sound n a t
      → length t.txed_packets < one_quarter
      → link_at t.links id ≡ ok l
      → Runs n a t (start_disconnecting now id t l)
  unfolding start_disconnecting
  start_disconnecting-Runs n a now id l t s room e = go l.disconnecting
    where
      l' : LinkInt TX
      l' = record l { disconnecting = some DisconnectInitiator.local }

      go :
          (d : Option DisconnectInitiator)
          → Runs n a t (elim d as (λ _. Run (Task TX)) [
            | none ↦ unconfirm_link now id NotWorkingReason.disconnecting (put_link id l' t)
            | some i ↦ ok t
          ])
      go none =
          let x =
            unconfirmed-Runs n a now id NotWorkingReason.disconnecting l' (put_link id l' t)
              (replaced-Sound n a id l l' t s e refl) room (link_at_put t.links id l l' e) in
          record { after = x.after; runs = x.runs; sound = x.sound; grown = x.grown }
      go (some i) = done-Runs n a t s

module _ {TX : Type 0} ⦃o : Sink TX⦄ ⦃b : ByteOrder⦄ (n a now : ℕ) (r : Round) (t : Task TX)
    (s : Sound n a t) (room : length t.txed_packets < one_quarter) where
  pub handle_link_event-Served :
      (id : ℕ) (e : LinkIntEvent) → Expects r t e id → Served n a t (handle_link_event now r id t e)
  unfolding handle_link_event handle_blocked_changed handle_link_cfg_changed
  handle_link_event-Served id LinkIntEvent.tx_ready (u, free, q, is) =
      go_on-Served n a t _
        (handle_tx_ready-Runs n a now id r u.link t s u.here u.idle u.empty room free q is)
  handle_link_event-Served id (LinkIntEvent.rx msg bytes) x = elim x [ ]
  handle_link_event-Served id LinkIntEvent.tx_flushed x = go_on-Served n a t _ (record {
    after = _;
    runs = refl;
    sound = record {
      accounted = record { counted = s.accounted.counted; links = s.accounted.links };
      resendable = s.resendable;
    };
    grown = omega arith;
  })
  handle_link_event-Served id LinkIntEvent.flush_required (l, e) =
      go_on-Served n a t _ (flush_link-Runs n a now id l t s e)
  handle_link_event-Served id LinkIntEvent.tx_error x = removed-Served n a now id t s room x
  handle_link_event-Served id LinkIntEvent.rx_error x = removed-Served n a now id t s room x
  handle_link_event-Served id LinkIntEvent.blocked_changed (l, e) =
      let x = replaced-Sound n a id l (report_ready now l) t s e refl in
      go_on-Served n a t _ (record {
        after = put_link id (report_ready now l) (not_idle id t);
        runs = rw e refl;
        sound = record {
          accounted = record { counted = x.accounted.counted; links = x.accounted.links };
          resendable = x.resendable;
        };
        grown = omega arith;
      })
  handle_link_event-Served id (LinkIntEvent.link_cfg_changed c) (l, e) =
      go_on-Served n a t _ (record {
        after = put_link id (record l { own_link_cfg = c }) t;
        runs = rw e refl;
        sound = replaced-Sound n a id l (record l { own_link_cfg = c }) t s e refl;
        grown = omega arith;
      })
  handle_link_event-Served id LinkIntEvent.disconnect (l, e) =
      let x = start_disconnecting-Runs n a now id l t s room e in
      go_on-Served n a t _
        (record { after = x.after; runs = rw e x.runs; sound = x.sound; grown = x.grown })
