-- ===== src/Task/Samples.antt =====
-- A connection with one link, and packets for it.
use aggligator.Base.{ℕ, zero, suc, true, false, none, some, List, [], ◌∷◌}
use aggligator.Bytes.{Bytes}
use aggligator.Bytes.BigEndian.{big_endian}
use aggligator.Cfg.{default_cfg}
use aggligator.Msg.{ReliableMsg}
use aggligator.Packets.{Packets, SentReliableStatus}
pub use aggligator.Link.Samples.{list_sink, link0}
use aggligator.Task.Defs.{Task, RxState, SendOverrun, SendError, ReceivedReliableMsg}

-- The remote endpoint sends two bytes, and then nothing more.
abbrev pub messages : ℕ → ReliableMsg
messages zero = ReliableMsg.data_msg (1 ∷ 2 ∷ [])
messages (suc n) = ReliableMsg.send_finish

abbrev pub first : ReceivedReliableMsg
first = record { seq = 0; msg = messages 0 }

abbrev pub idle_rx : RxState
idle_rx = record {
  rx_seq = 0;
  rxed_reliable = [];
  rxed_reliable_consumable = [];
  rxed_reliable_size = 0;
  rxed_reliable_consumed_since_last_ack = 0;
}

abbrev pub waiting_rx : RxState
waiting_rx = record {
  rx_seq = 1;
  rxed_reliable = [];
  rxed_reliable_consumable = first ∷ [];
  rxed_reliable_size = 2;
  rxed_reliable_consumed_since_last_ack = 0;
}

-- A packet with two bytes is underway over the link.
abbrev pub underway : Packets
underway =
    record {
      ptr = 0;
      seq = 0;
      status = SentReliableStatus.sent (record {
        sent = 10;
        flushed = none;
        link_id = 0;
        link = 4;
        msg = ReliableMsg.data_msg (1 ∷ 2 ∷ []);
        resent = false;
      });
    }
    ∷ []

abbrev pub task_with : RxState → Task (List Bytes)
task_with rx = record {
  cfg = default_cfg;
  remote_cfg = some (record { recv_buffer = 1000 });
  links = some link0 ∷ [];
  idle_links = 0 ∷ [];
  unflushed_links = [];
  flushed_tx = none;
  tx_state = record {
    tx_seq = 1;
    next_ptr = 1;
    txed_packets = underway;
    txed_unacked = 2;
    txed_unconsumed = 2;
    txed_unconsumable = 0;
    txed_last_consumed = 0;
    resend_queue = [];
  };
  rx_state = rx;
  tx_overrun = SendOverrun.armed;
  tx_overrun_since = none;
  read_tx = some [];
  read_closed_rx = true;
  receive_close_sent = false;
  receive_finish_sent = false;
  write_rx = none;
  write_closed = false;
  send_finish_sent = false;
  read_error = none;
  write_error = SendError.task_terminated;
  links_not_working_since = none;
  connected_tx = true;
}
