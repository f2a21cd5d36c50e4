-- ===== src/Link/Samples.antt =====
-- A link for tests, and its sink.
use aggligator.Base.{true, false, none, some, List, [], ◌∷◌, ◌++◌}
use aggligator.Bytes.{Bytes}
use aggligator.Cfg.{default_cfg}
use aggligator.Link.Defs.{Sink, PollReady, LinkInt, LinkTest}
use aggligator.Link.Events.{FlushSink}

-- A sink that takes everything.
instance abbrev pub list_sink : Sink (List Bytes)
list_sink = record {
  start_send = λ tx b. (tx ++ (b ∷ []), true);
  poll_ready = λ tx. PollReady.ready;
}

abbrev pub link0 : LinkInt (List Bytes)
link0 = record {
  link_id = 4;
  cfg = default_cfg;
  own_link_cfg = none;
  needs_tx_accepted = false;
  tx = [];
  tx_data = none;
  tx_error = none;
  tx_failed = false;
  tx_polling = none;
  tx_pending = false;
  tx_last_msg = none;
  txed_unacked = none;
  txed_packets = 0 ∷ [];
  tx_idle_since = none;
  txed_unflushed = 0;
  tx_flushing = false;
  txed_first_unflushed_data = none;
  txed_unacked_data = 2;
  txed_unacked_data_limit = 8192;
  txed_unacked_data_limit_increased = none;
  txed_unacked_data_limit_increased_consecutively = 0;
  tx_ack_queue = [];
  txed_acks_unflushed = 0;
  txed_first_unflushed_ack = none;
  blocked = false;
  blocked_sent = false;
  remotely_blocked = false;
  unconfirmed = none;
  test = LinkTest.inactive;
  roundtrip = 100;
  roundtrip_estimates = some 0;
  last_ping = none;
  current_ping_sent = none;
  send_ping = false;
  send_pong = false;
  disconnecting = none;
  goodbye_sent = false;
  hangs = 0;
}

-- It flushes at once.
instance abbrev pub list_flush : FlushSink (List Bytes)
list_flush = record { poll_flush = λ tx. (tx, PollReady.ready) }

-- The link when nothing is under way.
abbrev pub idle_link : LinkInt (List Bytes)
idle_link = record link0 { txed_packets = []; txed_unacked_data = 0 }
