-- ===== src/Task/Defs.antt =====
-- `Task`, and the methods that only read it.
use aggligator.Base.{
  ℕ, ◌-◌, ◌/◌, min, Bool, true, Option, none, some, List, [], ◌∷◌, ltb, ◌==◌, if◌then◌else◌,
  get_elem?, set,
}
use aggligator.Base.Int.{le_pos}
use aggligator.Base.Result.{ok, err}
use aggligator.Fault.{Run, panic}
use aggligator.Bytes.{Bytes}
use aggligator.Seq
use aggligator.Seq.{Seq, usable_interval}
use aggligator.Cfg.{Cfg, ExchangedCfg}
use aggligator.Msg.{ReliableMsg}
use aggligator.Packets.{Packets, PacketRef}
use aggligator.Link.{LinkInt}
use aggligator.Peekable.{PeekableReceiver}

-- `SendReq`; the sender of a flush request's notification is its number.
pub data SendReq : Type 0 where
  send : Bytes → SendReq
  flush : ℕ → SendReq

pub data SendOverrun : Type 0 where
  armed soft hard : SendOverrun

-- alc/sender.rs: why sending fails
pub data SendError : Type 0 where
  closed dropped shutdown data_too_big all_links_failed protocol_error server_id_mismatch :
      SendError
  task_terminated aborted_by_server : SendError

-- alc/receiver.rs: why receiving fails
pub data RecvError : Type 0 where
  all_links_failed protocol_error server_id_mismatch task_terminated aborted_by_server : RecvError

pub record ReceivedReliableMsg : Type 0 where
  pub seq : Seq
  pub msg : ReliableMsg

-- The fields about received packets.
pub record RxState : Type 0 where
  pub rx_seq : Seq
  pub rxed_reliable : List (Option ReceivedReliableMsg)
  pub rxed_reliable_consumable : List ReceivedReliableMsg
  pub rxed_reliable_size : ℕ
  pub rxed_reliable_consumed_since_last_ack : ℕ

-- The fields about sent packets. `next_ptr` is the address of the next packet that is made.
pub record TxState : Type 0 where
  pub tx_seq : Seq
  pub next_ptr : ℕ
  pub txed_packets : Packets
  pub txed_unacked : ℕ
  pub txed_unconsumed : ℕ
  pub txed_unconsumable : ℕ
  pub txed_last_consumed : Seq
  pub resend_queue : List PacketRef

-- `read_tx` holds the data handed to the user, and is `none` when that channel is dropped;
-- `read_closed_rx` and `connected_tx` are whether the channel is there.
pub record Task (TX : Type 0) : Type 0 where
  pub cfg : Cfg
  pub remote_cfg : Option ExchangedCfg
  pub links : List (Option (LinkInt TX))
  pub idle_links : List ℕ
  pub unflushed_links : List ℕ
  pub flushed_tx : Option ℕ
  pub tx_state : TxState
  pub open tx_state use *
  pub rx_state : RxState
  pub open rx_state use *
  pub tx_overrun : SendOverrun
  pub tx_overrun_since : Option ℕ
  pub read_tx : Option (List Bytes)
  pub read_closed_rx : Bool
  pub receive_close_sent : Bool
  pub receive_finish_sent : Bool
  pub write_rx : Option (PeekableReceiver SendReq)
  pub write_closed : Bool
  pub send_finish_sent : Bool
  pub read_error : Option RecvError
  pub write_error : SendError
  pub links_not_working_since : Option ℕ
  pub connected_tx : Bool

-- `idle_links.retain(|&idle_id| idle_id != id)`, also for the set `unflushed_links`
unfoldable pub without : ℕ → List ℕ → List ℕ
without id [] = []
without id (x ∷ xs) = let rest = without id xs in if x == id then rest else x ∷ rest

module _ {TX : Type 0} where
  -- `self.links[id].as_mut().unwrap()`: out of bounds and a removed link are panics.
  abbrev pub flatten : Option (Option (LinkInt TX)) → Run (LinkInt TX)
  flatten none = err panic
  flatten (some none) = err panic
  flatten (some (some l)) = ok l

  abbrev pub link_at : List (Option (LinkInt TX)) → ℕ → Run (LinkInt TX)
  link_at ls id = flatten (get_elem? ls id)

  abbrev pub put_link : ℕ → LinkInt TX → Task TX → Task TX
  put_link id l t = record t { links = set t.links id (some l) }

  unfoldable pub remote_recv_buffer : Task TX → Option ℕ
  remote_recv_buffer t = elim t.remote_cfg [ none ↦ none | some c ↦ some c.recv_buffer ]

  -- `-` on ℕ is `saturating_sub`.
  unfoldable pub tx_space : Task TX → ℕ
  unfolding remote_recv_buffer
  tx_space t =
      let tx_local_space = t.cfg.send_buffer - t.txed_unacked in
      let remote : ℕ = elim (remote_recv_buffer t) [ none ↦ 0 | some b ↦ b ] in
      min tx_local_space (remote - t.txed_unconsumed)

  -- A sequence number is available unless it is too far from the oldest packet.
  unfoldable pub tx_seq_avail : Task TX → Bool
  tx_seq_avail t = elim t.txed_packets [
    | [] ↦ true
    | p ∷ _ ↦ le_pos (Seq.diff t.tx_seq p.seq) usable_interval
  ]

  unfoldable pub is_consume_ack_required : Task TX → Bool
  is_consume_ack_required t =
      ltb (elim t.read_tx [ some _ ↦ t.cfg.recv_buffer / 10 | none ↦ 0 ])
        t.rxed_reliable_consumed_since_last_ack
