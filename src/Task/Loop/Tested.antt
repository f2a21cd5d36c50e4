-- ===== src/Task/Loop/Tested.antt =====
-- The test of a link, at the start of a round and when a ping is answered, keeps the sums and the resend queue.
use aggligator.Base.{
  ℕ, ◌≤◌, ◌+◌, ◌≡◌, ◌≢◌, refl, ◌∙◌, Bool, true, false, Option, none, some, length, get_elem?,
  is_none, arith,
}
use aggligator.Base.Result.{ok, err}
use aggligator.Fault.{Run}
use aggligator.Bytes.{ByteOrder}
use aggligator.Link.{Sink, LinkInt}
use aggligator.Task.Defs.{Task, link_at, flatten}
use aggligator.Task.Ack.Acknowledge.{get_set_other}
use aggligator.Task.Receive.Order.{length-set}
use aggligator.Task.Send.Unchanged.{same}
use aggligator.Task.Testing.{Step, stepped, step_slot, link_testing_step, allow_retest}
use aggligator.Task.Testing.Kept.{StepKept, test_step-Kept}
use aggligator.Task.Ready.Sound.{Sound, put-Sound}

not_both : (b : Bool) → b ≡ true → b ≡ false → ⊥
not_both true h k = cc
not_both false h k = cc

module _ {TX : Type 0} where
  -- A link that does not wait for its sink has nothing left to send.
  abbrev pub CanTest : LinkInt TX → Type 0
  CanTest l = is_none l.tx_polling ≡ true → is_none l.tx_data ≡ true

  -- The tests of the links from `id` on, `count` of them, end without a panic and keep this.
  pub record Tests (n a id count : ℕ) (t : Task TX) (r : Run (Option ℕ × Task TX)) : Type 0 where
    pub due : Option ℕ
    pub after : Task TX
    pub runs : r ≡ ok (due, after)
    pub sound : Sound n a after
    pub same_tx : after.tx_state ≡ t.tx_state
    pub size : length after.links ≡ length t.links
    pub others : (j : ℕ) → id + count ≤ j → get_elem? after.links j ≡ get_elem? t.links j

  stepped-Tests :
      (n a id : ℕ) (l : LinkInt TX) (t : Task TX) (r : Run (Step TX))
      → Sound n a t
      → link_at t.links id ≡ ok l
      → StepKept ⊥ l.txed_unacked_data r
      → Tests n a id 1 t (stepped id t r)
  unfolding stepped
  stepped-Tests n a id l t (ok (due, l', woken)) s here h = record {
    due = due;
    after = _;
    runs = refl;
    sound =
        put-Sound n a id l' t.txed_packets t _ s (same t.txed_packets)
          (h ∙ s.accounted.links id l here) refl refl;
    same_tx = refl;
    size = length-set t.links id (some l');
    others = λ j le. get_set_other t.links id j (some l') (λ e. absurd (omega (arith, le, e)));
  }
  stepped-Tests n a id l t (err f) s here h = absurd h

module _ {TX : Type 0} ⦃o : Sink TX⦄ ⦃b : ByteOrder⦄ where
  step_slot-Tests :
      (n a now id : ℕ) (t : Task TX) (slot : Option (Option (LinkInt TX)))
      → Sound n a t
      → slot ≢ none
      → ((l : LinkInt TX) → flatten slot ≡ ok l → (link_at t.links id ≡ ok l) × CanTest l)
      → Tests n a id 1 t (step_slot now id slot t)
  unfolding step_slot allow_retest
  step_slot-Tests n a now id t none s there h = absurd (there refl)
  step_slot-Tests n a now id t (some none) s there h = record {
    due = none;
    after = t;
    runs = refl;
    sound = s;
    same_tx = refl;
    size = refl;
    others = λ j le. refl;
  }
  step_slot-Tests n a now id t (some (some l)) s there h =
      let (here, can) = h l refl in
      stepped-Tests n a id l t _ s here (
        test_step-Kept ⊥ now t.cfg.send_buffer t.cfg.io_write_size _ _ (allow_retest now l).test
          (allow_retest now l) (λ idle more. not_both (is_none l.tx_data) (can idle) more))

  pub link_testing_step-Tests :
      (n a now id : ℕ) (t : Task TX)
      → Sound n a t
      → get_elem? t.links id ≢ none
      → ((l : LinkInt TX) → link_at t.links id ≡ ok l → CanTest l)
      → Tests n a id 1 t (link_testing_step now id t)
  unfolding link_testing_step
  link_testing_step-Tests n a now id t s there can =
      step_slot-Tests n a now id t (get_elem? t.links id) s there (λ l here. (here, can l here))
