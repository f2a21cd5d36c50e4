-- ===== src/Task/Loop/Received.antt =====
-- `handle_received_msg` on every message, as the main loop calls it.
use aggligator.Base.{
  ℕ, ◌-◌, ◌<◌, ◌≡◌, refl, sym, ap, subst, ◌∙◌, true, Option, none, some, length, arith,
}
use aggligator.Base.Result.{ok, err}
use aggligator.Fault.{Run, panic}
use aggligator.Bytes.{Bytes, ByteOrder}
use aggligator.Seq.{one_quarter}
use aggligator.Msg.{LinkMsg}
use aggligator.Link.{Sink, LinkInt, DisconnectInitiator, NotWorkingReason}
use aggligator.Task.Defs.{Task, link_at, put_link, flatten}
use aggligator.Task.Links.Unconfirm.{link_at_put}
use aggligator.Task.Links.Removal.{remove_link-Resendable}
use aggligator.Task.Ack.Handler.{handle_ack-Resendable}
use aggligator.Task.Ack.Acknowledge.{link_at-set}
use aggligator.Task.Testing.{link_testing_step}
use aggligator.Task.Messages.{continue_with, received_goodbye, received_pong, drop_due, dispatch}
use aggligator.Task.Ready.Sound.{Sound, flush_link-Runs, done-Runs, if-Runs}
use aggligator.Task.Loop.{Outcome, received_outcome}
use aggligator.Task.Loop.Events.{replaced-Sound, unconfirmed-Runs}
use aggligator.Task.Loop.Tested.{CanTest, link_testing_step-Tests}
use aggligator.Task.Loop.Answered.{
  Comes, Answered, runs-Answered, kept-Answered, ended-Answered, reliable-Answered,
  set_block-Answered,
}

not_there : {TX : Type 0} (l : LinkInt TX) → ◌≡◌ {A = Run (LinkInt TX)} (err panic) (ok l) → ⊥
not_there l e = cc

module _ {TX : Type 0} (n a now id : ℕ) (l : LinkInt TX) (t : Task TX) (s : Sound n a t)
    (here : link_at t.links id ≡ ok l) where
  -- A link whose data counts the same in its place.
  put_here :
      (l' : LinkInt TX) → l'.txed_unacked_data ≡ l.txed_unacked_data → Sound n a (put_link id l' t)
  put_here l' e = replaced-Sound n a id l l' t s here e

  there_put : (l' : LinkInt TX) → link_at (put_link id l' t).links id ≡ ok l'
  there_put l' = link_at_put t.links id l l' here

  goodbye-Answered :
      (d : Option DisconnectInitiator)
      → length t.txed_packets < one_quarter
      → Answered n a (received_outcome (continue_with (received_goodbye now id d l t)))
  unfolding received_goodbye received_outcome continue_with
  goodbye-Answered (some DisconnectInitiator.local) room =
      let x =
        remove_link-Resendable n a now id l t s.accounted s.resendable (omega (arith, room)) here in
      kept-Answered n a t _ (
        if-Runs n a t l.goodbye_sent _ _
          (record {
            after = x.after;
            runs = x.runs;
            sound = record { accounted = x.accounted; resendable = x.resendable };
            grown = omega (arith, x.kept);
          })
          (done-Runs n a t s))
  goodbye-Answered (some DisconnectInitiator.remote) room = ended-Answered n a _
  goodbye-Answered none room =
      let l' : LinkInt TX = record l { disconnecting = some DisconnectInitiator.remote } in
      let x =
        unconfirmed-Runs n a now id NotWorkingReason.disconnecting l' (put_link id l' t)
          (put_here l' refl) room (there_put l') in
      runs-Answered n a _ x.after x.runs x.sound

module _ {TX : Type 0} ⦃o : Sink TX⦄ ⦃b : ByteOrder⦄ (n a now id : ℕ) (l : LinkInt TX) (t : Task TX)
    (s : Sound n a t) (here : link_at t.links id ≡ ok l) where
  tested-Answered :
      (l' : LinkInt TX)
      → l'.txed_unacked_data ≡ l.txed_unacked_data
      → CanTest l'
      → Answered n a (
          received_outcome (continue_with (drop_due (link_testing_step now id (put_link id l' t)))))
  unfolding drop_due
  tested-Answered l' e can =
      let x =
        link_testing_step-Tests n a now id (put_link id l' t) (put_here n a now id l t s here l' e)
          (λ none_there.
            not_there l' (sym (ap flatten none_there) ∙ there_put n a now id l t s here l'))
          (λ k at. subst CanTest (sym (link_at-set t.links id l' k at)) can) in
      runs-Answered n a _ x.after (rw x.runs refl) x.sound

  pong-Answered :
      CanTest l → Answered n a (received_outcome (continue_with (received_pong now id l t)))
  unfolding received_pong
  pong-Answered can =
      elim l.current_ping_sent
        as (λ sent. Answered n a (
          received_outcome (
            continue_with (elim sent as (λ _. Run (Task TX)) [
              | none ↦ ok t
              | some ping_sent ↦ drop_due (
                  link_testing_step now id (
                    put_link id
                      (record l {
                        current_ping_sent = none;
                        roundtrip = now - ping_sent;
                        roundtrip_estimates = some 1;
                        last_ping = some now;
                      })
                      t))
            ])))) [
              | none ↦ kept-Answered n a t _ (done-Runs n a t s)
              | some ping_sent ↦ tested-Answered _ refl can
            ]

  -- The `match` on the message.
  pub dispatch-Answered :
      (msg : LinkMsg) (bytes : Option Bytes)
      → length t.txed_packets < one_quarter
      → Comes msg bytes l t
      → Answered n a (received_outcome (dispatch now id msg bytes l t))
  unfolding dispatch received_outcome continue_with
  dispatch-Answered LinkMsg.ping bytes room x =
      let l' : LinkInt TX = record l { send_pong = true } in
      let f =
        flush_link-Runs n a now id l' (put_link id l' t) (put_here n a now id l t s here l' refl)
          (there_put n a now id l t s here l') in
      runs-Answered n a _ f.after f.runs f.sound
  dispatch-Answered LinkMsg.pong bytes room x = pong-Answered x
  dispatch-Answered (LinkMsg.ack received) bytes room x =
      let h = handle_ack-Resendable n a now id received l t s.accounted s.resendable here x in
      record {
        k = h.k;
        outcome = Outcome.continue_loop h.after;
        runs = rw h.runs refl;
        sound = record { accounted = h.accounted; resendable = h.resendable };
      }
  dispatch-Answered (LinkMsg.test_data size) bytes room x =
      kept-Answered n a t _ (done-Runs n a t s)
  dispatch-Answered (LinkMsg.set_block blocked) bytes room x =
      set_block-Answered n a now id blocked l t s here
  dispatch-Answered LinkMsg.goodbye bytes room x =
      goodbye-Answered n a now id l t s here l.disconnecting room
  dispatch-Answered LinkMsg.terminate bytes room x = ended-Answered n a _
  dispatch-Answered (LinkMsg.welcome e k i u c) bytes room x = ended-Answered n a _
  dispatch-Answered (LinkMsg.connect e k i m y u c) bytes room x = ended-Answered n a _
  dispatch-Answered LinkMsg.accepted bytes room x = ended-Answered n a _
  dispatch-Answered (LinkMsg.refused reason) bytes room x = ended-Answered n a _
  dispatch-Answered msg bytes room x = reliable-Answered n a now id msg bytes l t s here x
