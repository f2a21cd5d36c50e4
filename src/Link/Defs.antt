-- ===== src/Link/Defs.antt =====
-- `LinkInt` and its small methods.
use aggligator.Base.{
  ℕ, ◌+◌, ◌/◌, max, Bool, not, ◌&&◌, ◌||◌, Option, none, some, List, ltb, ◌==◌, is_some,
}
use aggligator.Bytes.{Bytes}
use aggligator.Seq.{Seq}
use aggligator.Cfg.{LinkCfg, Cfg}
use aggligator.Msg.{LinkMsg}

-- `poll_ready` asked once
pub data PollReady : Type 0 where
  ready failed pending : PollReady

-- `Sink<Bytes>`: `start_send` takes a packet, or fails.
pub record Sink (TX : Type 0) : Type 0 where
  pub start_send : TX → Bytes → TX × Bool
  pub poll_ready : TX → PollReady

pub data NotWorkingReason : Type 0 where
  new disconnecting ack_timeout max_ping_exceeded : NotWorkingReason

pub data LinkTest : Type 0 where
  inactive in_progress : LinkTest
  failed : ℕ → LinkTest

pub data DisconnectInitiator : Type 0 where
  local remote : DisconnectInitiator

-- The `io::Error`s of `tx_error`.
pub data TxError : Type 0 where
  link_failed send_failed : TxError

-- `LinkIntEvent`; the texts of IO errors are left out, and `link_cfg_changed` brings the configuration that
-- `update_link_cfg` takes from its channel.
pub data LinkIntEvent : Type 0 where
  tx_ready tx_flushed : LinkIntEvent
  rx : LinkMsg → Option Bytes → LinkIntEvent
  flush_required tx_error rx_error blocked_changed disconnect : LinkIntEvent
  link_cfg_changed : Option LinkCfg → LinkIntEvent

pub record LinkInt (TX : Type 0) : Type 0 where
  pub link_id : ℕ
  pub cfg : Cfg
  pub own_link_cfg : Option LinkCfg
  pub needs_tx_accepted : Bool
  pub tx : TX
  pub tx_data : Option Bytes
  pub tx_error : Option TxError
  pub tx_failed : Bool
  pub tx_polling : Option ℕ
  pub tx_pending : Bool
  pub tx_last_msg : Option ℕ
  pub txed_unacked : Option Seq
  pub txed_packets : List ℕ
  pub tx_idle_since : Option ℕ
  pub txed_unflushed : ℕ
  pub tx_flushing : Bool
  pub txed_first_unflushed_data : Option ℕ
  pub txed_unacked_data : ℕ
  pub txed_unacked_data_limit : ℕ
  pub txed_unacked_data_limit_increased : Option Seq
  pub txed_unacked_data_limit_increased_consecutively : ℕ
  pub tx_ack_queue : List Seq
  pub txed_acks_unflushed : ℕ
  pub txed_first_unflushed_ack : Option ℕ
  pub blocked : Bool
  pub blocked_sent : Bool
  pub remotely_blocked : Bool
  pub unconfirmed : Option (ℕ × NotWorkingReason)
  pub test : LinkTest
  pub roundtrip : ℕ
  pub roundtrip_estimates : Option ℕ
  pub last_ping : Option ℕ
  pub current_ping_sent : Option ℕ
  pub send_ping : Bool
  pub send_pong : Bool
  pub disconnecting : Option DisconnectInitiator
  pub goodbye_sent : Bool
  pub hangs : ℕ

module _ {TX : Type 0} where
  -- `link_cfg()`: the link's own configuration or that of the connection
  abbrev pub link_cfg : LinkInt TX → LinkCfg
  link_cfg l = elim l.own_link_cfg [ none ↦ l.cfg.link | some c ↦ c ]

  abbrev pub is_sendable : LinkInt TX → Bool
  is_sendable l = ltb l.txed_unacked_data l.txed_unacked_data_limit

  abbrev pub is_blocked : LinkInt TX → Bool
  is_blocked l = l.blocked || l.remotely_blocked

  abbrev pub needs_flush : LinkInt TX → Bool
  needs_flush l = is_some l.txed_first_unflushed_data && not l.tx_flushing

  abbrev pub need_ack_flush : LinkInt TX → Bool
  need_ack_flush l = not (l.txed_acks_unflushed == 0)

  abbrev pub has_outstanding_ack : LinkInt TX → Bool
  has_outstanding_ack l = is_some l.txed_unacked

  -- `tx_polling = Some(now)`
  abbrev pub report_ready : ℕ → LinkInt TX → LinkInt TX
  report_ready now l = record l { tx_polling = some now }

  abbrev pub mark_idle : ℕ → LinkInt TX → LinkInt TX
  mark_idle now l = record l { tx_idle_since = some now }

  abbrev pub set_unconfirmed : Option (ℕ × NotWorkingReason) → LinkInt TX → LinkInt TX
  set_unconfirmed u l = record l { unconfirmed = u }

  -- The limits when the link is unconfirmed.
  abbrev pub reset : LinkInt TX → LinkInt TX
  reset l = record l {
    hangs = l.hangs + 1;
    txed_unacked_data_limit = max (l.txed_unacked_data_limit / 2) 128;
    txed_unacked_data_limit_increased = none;
    txed_unacked_data_limit_increased_consecutively = 0;
  }
