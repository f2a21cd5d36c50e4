-- ===== src/Task/Loop/Started.antt =====
-- `Task::new`
use aggligator.Base.{◌≡◌, refl, true, false, Option, none, some, [], arith}
use aggligator.Base.Result.{ok}
use aggligator.Seq.{seq_zero, minus_one}
use aggligator.Cfg.{Cfg, ExchangedCfg}
use aggligator.Peekable
use aggligator.Peekable.{Channel}
use aggligator.Link.{LinkInt}
use aggligator.Task.Defs.{Task, SendReq, SendOverrun, SendError, RecvError, link_at}
use aggligator.Task.Ready.Sound.{Sound}

module _ {TX : Type 0} where
  -- The links that it begins with come as events; the watch channels of the errors hold what their creator put there.
  unfoldable pub new_task :
      Cfg → Option ExchangedCfg → Channel SendReq → Option RecvError → SendError → Task TX
  new_task cfg remote_cfg write_rx read_error write_error = record {
    cfg = cfg;
    remote_cfg = remote_cfg;
    links = [];
    idle_links = [];
    unflushed_links = [];
    flushed_tx = none;
    tx_state = record {
      tx_seq = seq_zero;
      next_ptr = 0;
      txed_packets = [];
      txed_unacked = 0;
      txed_unconsumed = 0;
      txed_unconsumable = 0;
      txed_last_consumed = minus_one;
      resend_queue = [];
    };
    rx_state = record {
      rx_seq = seq_zero;
      rxed_reliable = [];
      rxed_reliable_consumable = [];
      rxed_reliable_size = 0;
      rxed_reliable_consumed_since_last_ack = 0;
    };
    tx_overrun = SendOverrun.armed;
    tx_overrun_since = none;
    read_tx = some [];
    read_closed_rx = true;
    receive_close_sent = false;
    receive_finish_sent = false;
    write_rx = some (Peekable.new write_rx);
    write_closed = false;
    send_finish_sent = false;
    read_error = read_error;
    write_error = write_error;
    links_not_working_since = none;
    connected_tx = true;
  }

  -- What the handlers of the main loop keep holds of a new connection.
  pub new_task-Sound :
      (cfg : Cfg) (remote_cfg : Option ExchangedCfg) (write_rx : Channel SendReq)
      (read_error : Option RecvError) (write_error : SendError)
      → Sound 0 0 (new_task cfg remote_cfg write_rx read_error write_error)
  unfolding new_task
  new_task-Sound cfg remote_cfg write_rx read_error write_error = record {
    accounted = record {
      counted = record {
        numbered = tt;
        next = refl;
        short = omega arith;
        unacked = refl;
        received = refl;
      };
      links = λ j l at. absurd (nowhere l at);
    };
    resendable = record { addressed = tt; next_address = refl; queue = refl };
  }
    where
      nowhere : (l : LinkInt TX) → link_at [] 0 ≡ ok l → ⊥
      nowhere l e = cc
