-- ===== src/Link/Tests.antt =====
-- Messages over one link, from end to end.
use aggligator.Base.{◌≡◌, refl, Option, none, some, List, [], ◌∷◌, ◌++◌, map, arith}
use aggligator.Base.Result.{ok}
use aggligator.Bytes.{Bytes}
use aggligator.Bytes.BigEndian.{big_endian}
use aggligator.Msg.{LinkMsg}
use aggligator.Packets.{Packets}
use aggligator.Link.Defs.{LinkInt}
use aggligator.Link.Events.{flush_deadline, packet}
use aggligator.Link.Events.Received.{event_of, noted, rx_tasks}
use aggligator.Link.Events.Sent.{IsIdle, AlwaysReady}
use aggligator.Link.Events.Delivered.{send_all, send_all-received}
use aggligator.Link.Samples.{list_sink, list_flush, idle_link}

list_sink-AlwaysReady : AlwaysReady {TX = List Bytes} (λ tx. tx)
list_sink-AlwaysReady = record {
  polled = λ tx. refl;
  takes = λ tx b. refl;
  flushes = λ tx. refl;
  sent-start_send = λ tx b. refl;
  sent-poll_flush = λ tx. refl;
}

abbrev two_msgs : List (LinkMsg × Option Bytes)
two_msgs = (LinkMsg.data_msg 7, some (1 ∷ 2 ∷ [])) ∷ (LinkMsg.ping, none) ∷ []

-- Data and a ping over an idle link
send_all-received_example :
    (l' : LinkInt (List Bytes)) × (ps' : Packets) × (packets : List Bytes) × (send_all 5 two_msgs
        idle_link []
      ≡ ok (l', ps'))
    × IsIdle l'
    × (l'.tx ≡ [] ++ packets)
    × (rx_tasks 2 (map packet packets ++ []) none idle_link
        ≡ (map (λ p. some (event_of p)) two_msgs, (none, noted two_msgs idle_link, [])))
send_all-received_example =
    send_all-received (λ tx. tx) list_sink-AlwaysReady 5 two_msgs idle_link [] [] idle_link
      (record { no_polling = refl; no_data = refl; works = refl })
      ((omega arith, omega arith, tt), ((tt, omega arith, tt), tt))

-- The flush is due after the delay since the link became idle, and sooner for acks.
flush_deadline_test :
    flush_deadline (record idle_link {
      txed_first_unflushed_data = some 100;
      tx_idle_since = some 200;
      txed_first_unflushed_ack = some 50;
    })
    ≡ some 50000050
unfolding flush_deadline
flush_deadline_test = refl
