-- ===== src/Link.antt =====
-- aggligator/src/agg/link_int.rs: the state of one link, and what the task does with it.
-- The transmit sink is the parameter `Sink`; the receive stream, the channels to the link handle and
-- the statistics are left out.
pub mod Defs
pub mod Send
pub mod Events
pub mod Samples
mod Tests
pub use Defs.{
  Sink, PollReady, NotWorkingReason, LinkTest, DisconnectInitiator, TxError, LinkInt, LinkIntEvent,
  link_cfg, is_sendable, is_blocked, needs_flush, need_ack_flush, has_outstanding_ack, report_ready,
  mark_idle, reset, set_unconfirmed,
}
unfoldable pub use Send.{start_flush, start_send_msg, clean_txed_packets, send_test_data}
pub use Send.{saturating_add}
