-- ===== src/Cfg.antt =====
-- aggligator/src/cfg.rs: the configuration. Durations and instants are numbers of nanoseconds.
use aggligator.Base.{ℕ, ◌*◌, Bool, true, false, Option, none, some, List, [], ◌∷◌}

pub data LinkPing : Type 0 where
  periodic : ℕ → LinkPing
  when_idle : ℕ → LinkPing
  when_timed_out : LinkPing

pub record UnackedIncrease : Type 0 where
  pub consecutive : ℕ
  pub percent : ℕ

pub record LinkCfg : Type 0 where
  pub io_packet_size : ℕ
  pub ack_timeout_min : ℕ
  pub ack_timeout_roundtrip_factor : ℕ
  pub ack_timeout_resent_factor : ℕ
  pub ack_timeout_unreliable_factor : ℕ
  pub ack_timeout_max : ℕ
  pub unacked_init : ℕ
  pub unacked_limit : ℕ
  pub unacked_increase : List UnackedIncrease
  pub unacked_increase_single_link : ℕ
  pub ping : LinkPing
  pub ping_timeout : ℕ
  pub max_ping : Option ℕ
  pub test_data_limit : ℕ
  pub test_after_ack_timeout : Bool
  pub retest_interval : ℕ
  pub non_working_timeout : ℕ
  pub flush_delay : ℕ
  pub flush_interval : Option ℕ
  pub ack_flush_interval : Option ℕ
  pub unflushed_limit : Option ℕ

pub record Cfg : Type 0 where
  pub io_write_size : ℕ
  pub ignore_flush : Bool
  pub send_buffer : ℕ
  pub send_queue : ℕ
  pub recv_buffer : ℕ
  pub recv_queue : ℕ
  pub link_max_ping_spread : Option ℕ
  pub no_link_timeout : ℕ
  pub termination_timeout : ℕ
  pub connect_queue : ℕ
  pub disconnect_on_server_id_mismatch : Bool
  pub stats_intervals : List ℕ
  pub link : LinkCfg

-- `Duration::from_millis` and `Duration::from_secs`
abbrev pub from_millis : ℕ → ℕ
from_millis n = n * 1000000

abbrev pub from_secs : ℕ → ℕ
from_secs n = n * 1000000000

abbrev pub default_link_cfg : LinkCfg
default_link_cfg = record {
  io_packet_size = 65536;
  ack_timeout_min = from_secs 1;
  ack_timeout_roundtrip_factor = 3;
  ack_timeout_resent_factor = 3;
  ack_timeout_unreliable_factor = 3;
  ack_timeout_max = from_secs 30;
  unacked_init = 8192;
  unacked_limit = 134217728;
  unacked_increase =
      record { consecutive = 0; percent = 101 }
      ∷ record { consecutive = 10; percent = 102 }
      ∷ record { consecutive = 25; percent = 105 }
      ∷ record { consecutive = 50; percent = 110 }
      ∷ record { consecutive = 100; percent = 120 }
      ∷ [];
  unacked_increase_single_link = 200;
  ping = when_idle (from_secs 15);
  ping_timeout = from_secs 40;
  max_ping = none;
  test_data_limit = 65536;
  test_after_ack_timeout = false;
  retest_interval = from_secs 3;
  non_working_timeout = from_secs 20;
  flush_delay = from_millis 50;
  flush_interval = none;
  ack_flush_interval = some (from_millis 50);
  unflushed_limit = some 131072;
}

abbrev pub default_cfg : Cfg
default_cfg = record {
  io_write_size = 8192;
  ignore_flush = false;
  send_buffer = 134217728;
  send_queue = 16;
  recv_buffer = 134217728;
  recv_queue = 16;
  link_max_ping_spread = some 5;
  no_link_timeout = from_secs 120;
  termination_timeout = from_secs 300;
  connect_queue = 32;
  disconnect_on_server_id_mismatch = true;
  stats_intervals = from_millis 100 ∷ from_secs 1 ∷ from_secs 5 ∷ from_secs 10 ∷ [];
  link = default_link_cfg;
}

-- `ExchangedCfg`, and its making from `Cfg`
pub record ExchangedCfg : Type 0 where
  pub recv_buffer : ℕ

abbrev pub exchanged : Cfg → ExchangedCfg
exchanged cfg = record { recv_buffer = cfg.recv_buffer }
