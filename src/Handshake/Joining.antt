-- ===== src/Handshake/Joining.antt =====
-- Which connection `Server::add_incoming` joins a link to.
use aggligator.Base.{
  ℕ, suc, ◌≡◌, ◌≢◌, ◌∙◌, refl, subst, sym, ◌⊎◌, inl, inr, Bool, true, false, Option, none, some,
  List, ◌∷◌, ◌==◌, if◌then◌else◌, Option-cases, arith,
}
use aggligator.Msg.{RefusedReason}
use aggligator.Server.{
  ServerInner, IncomingError, Connection, existing_conn, new_conn, refuse, lookup, vacant_entry,
  entry, next_round, connection_loop,
}

-- What the loop decides in the server `at`, where `permit` is the listener's answer if it was asked: the server after it, and
-- the channel that `j` has then.
abbrev pub Decided :
    Option Bool → ℕ → Bool → ℕ → ℕ → ServerInner → ServerInner → Connection → Type 0
Decided permit id existing fresh j at after (existing_conn channel) =
    (lookup id at.conns ≡ some channel) × (after ≡ at)
Decided permit id existing fresh j at after (new_conn channel) =
    (lookup id at.conns ≡ none)
    × (existing ≡ false)
    × (permit ≡ some true)
    × (channel ≡ fresh)
    × (lookup j after.conns ≡ (if j == id then some fresh else lookup j at.conns))
Decided permit id existing fresh j at after (refuse reason e) =
    (lookup id at.conns ≡ none)
    × (after ≡ at)
    × (((existing ≡ true) × (reason ≡ RefusedReason.closed) × (e ≡ IncomingError.closed))
        ⊎ ((existing ≡ false)
            × (permit ≡ some false)
            × (reason ≡ RefusedReason.not_listening)
            × (e ≡ IncomingError.not_listening)))

lookup-new :
    (id fresh j : ℕ) (conns : List (ℕ × ℕ))
    → lookup j ((id, fresh) ∷ conns) ≡ (if j == id then some fresh else lookup j conns)
unfolding lookup
lookup-new id fresh j conns = refl

vacant_entry-Decided :
    (permit : Bool) (fresh id j : ℕ) (existing : Bool) (s : ServerInner)
    → lookup id s.conns ≡ none
    → let r = vacant_entry (some permit) fresh id existing s in
      (c : Connection) × (r.1 ≡ some c) × Decided (some permit) id existing fresh j s r.0 c
unfolding vacant_entry
vacant_entry-Decided permit fresh id j true s h =
    (refuse RefusedReason.closed IncomingError.closed, refl, (h, refl, inl (refl, refl, refl)))
vacant_entry-Decided true fresh id j false s h =
    (new_conn fresh, refl, (h, refl, refl, refl, lookup-new id fresh j s.conns))
vacant_entry-Decided false fresh id j false s h = (
  refuse RefusedReason.not_listening IncomingError.not_listening,
  refl,
  (h, refl, inr (refl, refl, refl, refl)),
)

abbrev Decides :
    Option Bool → ℕ → Bool → ℕ → ℕ → ServerInner → ServerInner × Option Connection → Type 0
Decides permit id existing fresh j at r =
    (c : Connection) × (r.1 ≡ some c) × Decided permit id existing fresh j at r.0 c

-- An entry that exists, or a link of a connection that must exist, is decided on at once.
entry-existing :
    (permit : Option Bool) (fresh id channel : ℕ) (existing : Bool) (s : ServerInner)
    → lookup id s.conns ≡ some channel
    → entry permit fresh id existing s ≡ (s, some (existing_conn channel))
unfolding entry
entry-existing permit fresh id channel existing s h = ground arith

entry-vacant :
    (permit : Option Bool) (fresh id : ℕ) (existing : Bool) (s : ServerInner)
    → lookup id s.conns ≡ none
    → entry permit fresh id existing s ≡ vacant_entry permit fresh id existing s
unfolding entry
entry-vacant permit fresh id existing s h = ground arith

entry-Decided :
    (permit : Bool) (fresh id j : ℕ) (existing : Bool) (s : ServerInner)
    → Decides (some permit) id existing fresh j s (entry (some permit) fresh id existing s)
entry-Decided permit fresh id j existing s = elim (Option-cases (lookup id s.conns)) [
  | inr (channel, h) ↦
      subst (Decides (some permit) id existing fresh j s)
        (sym (entry-existing (some permit) fresh id channel existing s h))
        (existing_conn channel, refl, (h, refl))
  | inl h ↦
      subst (Decides (some permit) id existing fresh j s)
        (sym (entry-vacant (some permit) fresh id existing s h))
        (vacant_entry-Decided permit fresh id j existing s h)
]

broken :
    (again : ServerInner → Bool → ServerInner × Option Connection)
    (wait : ServerInner → ServerInner × Bool) (r : ServerInner × Option Connection) (c : Connection)
    → r.1 ≡ some c
    → next_round again wait r ≡ r
unfolding next_round
broken again wait (s, some d) c h = refl
broken again wait (s, none) c h = absurd (cc h)

-- With a permit, or the refusal of one, a round decides.
loop-permit :
    (n : ℕ) (wait : ServerInner → ServerInner × Bool) (permit : Bool) (fresh id j : ℕ)
    (existing : Bool) (s : ServerInner)
    → Decides
        (some permit)
        id
        existing
        fresh
        j
        s
        (connection_loop (suc n) wait (some permit) fresh id existing s)
unfolding connection_loop
loop-permit n wait permit fresh id j existing s =
    let (c, found, d) = entry-Decided permit fresh id j existing s in
    subst (Decides (some permit) id existing fresh j s)
      (sym (
        broken (λ s' permit'. connection_loop n wait (some permit') fresh id existing s') wait
          (entry (some permit) fresh id existing s) c found))
      (c, found, d)

-- A link of a connection that is there, or that must be, is decided on in the server of the call, without asking for a
-- permit; any other in the server after the wait, with the permit that the wait gave.
abbrev pub DecidesIn :
    (ServerInner → ServerInner × Bool)
    → ℕ
    → Bool
    → ℕ
    → ℕ
    → ServerInner
    → ServerInner × Option Connection
    → Type 0
DecidesIn wait id existing fresh j s r =
    (((lookup id s.conns ≢ none) ⊎ (existing ≡ true)) × Decides none id existing fresh j s r)
    ⊎ ((lookup id s.conns ≡ none)
        × (existing ≡ false)
        × Decides (some (wait s).1) id existing fresh j (wait s).0 r)

vacant_loop :
    (n : ℕ) (wait : ServerInner → ServerInner × Bool) (fresh id j : ℕ) (existing : Bool)
    (s : ServerInner)
    → lookup id s.conns ≡ none
    → DecidesIn wait id existing fresh j s
        (connection_loop (suc (suc n)) wait none fresh id existing s)
unfolding connection_loop vacant_entry next_round
vacant_loop n wait fresh id j true s h = inl (
  inr refl,
  rw (entry-vacant none fresh id true s h)
      (refuse RefusedReason.closed IncomingError.closed, refl, (h, refl, inl (refl, refl, refl))),
)
vacant_loop n wait fresh id j false s h = inr (
  h,
  refl,
  rw (entry-vacant none fresh id false s h)
      (loop-permit n wait (wait s).1 fresh id j false (wait s).0),
)

some-none : (channel : ℕ) → ◌≡◌ {A = Option ℕ} (some channel) none → ⊥
some-none channel e = cc

-- Two rounds of the loop are enough to decide. Where a connection has the id, or the link is for an existing connection,
-- this is decided in the server of the call; else in the server as it is after the wait for the listener's
-- permit, whatever other links did to it, and with that permit. A link joins the connection that has its
-- id there; if none has it, a link for a new connection gets its own channel, while all others keep
-- theirs, exactly if the permit was given, and is refused as not listening if not; a link for an
-- existing connection is refused as closed. A refusal leaves the server as it is.
pub connection_loop-DecidesIn :
    (n : ℕ) (wait : ServerInner → ServerInner × Bool) (fresh id j : ℕ) (existing : Bool)
    (s : ServerInner)
    → DecidesIn wait id existing fresh j s
        (connection_loop (suc (suc n)) wait none fresh id existing s)
unfolding connection_loop next_round
connection_loop-DecidesIn n wait fresh id j existing s = elim (Option-cases (lookup id s.conns)) [
  | inr (channel, h) ↦ inl (
    inl (λ gone. some-none channel (sym h ∙ gone)),
    rw (entry-existing none fresh id channel existing s h) (existing_conn channel, refl, (h, refl)),
  )
  | inl h ↦ vacant_loop n wait fresh id j existing s h
]
