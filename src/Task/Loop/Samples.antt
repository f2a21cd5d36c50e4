-- ===== src/Task/Loop/Samples.antt =====
-- A connection with a packet that waits to be sent again.
use aggligator.Base.{ℕ, zero, suc, ◌≡◌, refl, sym, ap, true, false, some, List, [], ◌∷◌, arith}
use aggligator.Base.Result.{ok}
use aggligator.Fault.{Run}
use aggligator.Bytes.{Bytes}
use aggligator.Bytes.BigEndian.{big_endian}
use aggligator.Msg.{ReliableMsg}
use aggligator.Packets.{Packets, SentReliableStatus, find, sent_size, status_size}
use aggligator.Link.{LinkInt}
use aggligator.Task.Defs.{Task, link_at}
use aggligator.Task.Samples.{list_sink, link0, idle_rx, task_with}
use aggligator.Task.Resend.{sent_link_of, non_resendable_link}
use aggligator.Task.Resend.Pick.{Usable, any_link}
use aggligator.Task.Ready.{Round}
use aggligator.Task.Ready.Sound.{Sound}

-- A packet was sent over a link that is gone, and waits to be sent again.
abbrev pub lost : Packets
lost =
    record {
      ptr = 0;
      seq = 0;
      status = SentReliableStatus.resend_queued (ReliableMsg.data_msg (1 ∷ 2 ∷ [])) 7;
    }
    ∷ []

abbrev pub free_link : LinkInt (List Bytes)
free_link = record link0 { txed_unacked_data = 0; txed_packets = [] }

abbrev pub lost_task : Task (List Bytes)
lost_task =
    let t = task_with idle_rx in
    record t {
      links = some free_link ∷ [];
      tx_state = record t.tx_state {
        txed_packets = lost;
        resend_queue = record { ptr = 0; seq = 0 } ∷ [];
      };
    }

pub data_counted :
    (l k : LinkInt (List Bytes))
    → ◌≡◌ {A = Run (LinkInt (List Bytes))} (ok l) (ok k)
    → k.txed_unacked_data ≡ l.txed_unacked_data
data_counted l k e =
    let z : l ≡ k = cc in ap (λ (x : LinkInt (List Bytes)). x.txed_unacked_data) (sym z)

pub lost_links :
    (id : ℕ) (l : LinkInt (List Bytes))
    → link_at (some free_link ∷ []) id ≡ ok l
    → l.txed_unacked_data ≡ sent_size id lost
unfolding sent_size status_size
lost_links zero l e = data_counted free_link l e
lost_links (suc id) l e = cc

pub lost-Sound : Sound 0 0 lost_task
lost-Sound = record {
  accounted = record {
    counted = record {
      numbered = (refl, tt);
      next = refl;
      short = omega arith;
      unacked = refl;
      received = refl;
    };
    links = lost_links;
  };
  resendable = record { addressed = (refl, tt); next_address = refl; queue = refl };
}

pub free_link-Usable : Usable any_link (some free_link ∷ []) 0
free_link-Usable = record { link = free_link; here = refl; idle = refl; empty = refl; fit = refl }

pub lost-non_resendable : non_resendable_link lost_task ≡ ok (some 7)
unfolding non_resendable_link sent_link_of find
lost-non_resendable = refl

abbrev pub resend_round : Round
resend_round = record {
  is_consume_ack_required = false;
  tx_seq_avail = true;
  tx_space = 100;
  resending = true;
  non_resendable_link = some 7;
}
