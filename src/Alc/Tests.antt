-- ===== src/Alc/Tests.antt =====
-- A sink and a reader over channels that are lists of what is in them.
use aggligator.Base.{
  ℕ, ◌≤◌, ◌<◌, ◌≡◌, refl, ◌⊎◌, inl, Bool, true, false, Option, none, some, List, [], ◌∷◌, ◌++◌,
  take, arith,
}
use aggligator.Base.Result.{ok, err}
use aggligator.Bytes.{Bytes}
use aggligator.Cfg.{default_cfg}
use aggligator.Task.Defs.{SendReq, SendError}
use aggligator.Alc.{Poll, RecvChannel, SendChannel, IsFifo, IsOrdered}
use aggligator.Alc.Receiver.{ReceiverStream, poll_read}
use aggligator.Alc.Sender.{SenderSink, max_send_size, write_len, poll_write, poll_flush}
use aggligator.Alc.Read.{concat, reads, answered, reads-left, ReadsNone}
use aggligator.Alc.Write.{requests, poll_write-pieces}
use aggligator.Alc.Flush.{poll_flush-answered}
use aggligator.Alc.Pipe.{contents, write_all, written-read, empty_write-ends}

take_first : List Bytes → List Bytes × Poll (Option Bytes)
take_first [] = ([], Poll.pending)
take_first (p ∷ ps) = (ps, Poll.ready (some p))

instance abbrev list_recv : RecvChannel (List Bytes)
list_recv = record { poll_recv = take_first }

first_given :
    (rx : List Bytes) (p : Bytes) (ps : List Bytes)
    → rx ≡ p ∷ ps
    → ((take_first rx).1 ≡ Poll.ready (some p)) × ((take_first rx).0 ≡ ps)
unfolding take_first
first_given rx p ps e = (rw e refl, rw e refl)

none_given :
    (rx : List Bytes) → rx ≡ [] → ((take_first rx).1 ≡ Poll.pending) × ((take_first rx).0 ≡ [])
unfolding take_first
none_given rx e = (rw e refl, rw e refl)

list_recv-IsFifo : IsFifo {RX = List Bytes} (λ rx. rx)
list_recv-IsFifo = record {
  gives = λ rx p ps e. inl (first_given rx p ps e);
  waits = λ rx p e h. cc ((none_given rx e).0, h);
  stays = λ rx e. (none_given rx e).1;
}

instance abbrev list_send : SendChannel (List SendReq)
list_send = record {
  poll_ready = λ tx. (tx, Poll.ready true);
  start_send = λ tx r. (tx ++ (r ∷ []), true);
  is_closed = λ tx. false;
  poll_close = λ tx. (tx, Poll.ready true);
}

list_send-IsOrdered : IsOrdered {TX = List SendReq} (λ tx. tx)
list_send-IsOrdered = record {
  appends = λ tx r h. refl;
  refuses = λ tx r h. cc;
  keeps = λ tx. refl;
}

abbrev sink : SenderSink (List SendReq)
sink = record {
  cfg = record default_cfg { io_write_size = 2 };
  remote_cfg = record { recv_buffer = 8 };
  tx = [];
  flushed_rx = none;
  error = SendError.all_links_failed;
  closed = false;
}

abbrev text : Bytes
text = 1 ∷ 2 ∷ 3 ∷ []

abbrev reader : List Bytes → ReceiverStream (List Bytes)
reader rx = record { receiver = record { rx = rx; error = none }; buf = [] }

abbrev never : ℕ → Poll Bool
never n = Poll.pending

abbrev two_packets : ReceiverStream (List Bytes)
two_packets = reader ((1 ∷ 2 ∷ []) ∷ (3 ∷ []) ∷ [])

first_answers : answered (1 ∷ 5 ∷ 1 ∷ []) two_packets ≡ 3
unfolding answered poll_read take_first
first_answers = refl

second_answers : answered (1 ∷ 1 ∷ 7 ∷ []) two_packets ≡ 3
unfolding answered poll_read take_first
second_answers = refl

reads-left_example :
    (reads (1 ∷ 5 ∷ 1 ∷ []) (reader ((1 ∷ 2 ∷ []) ∷ (3 ∷ []) ∷ []))).0 ≡ 1 ∷ 2 ∷ 3 ∷ []
unfolding concat
reads-left_example =
    reads-left (λ rx. rx) list_recv-IsFifo (1 ∷ 5 ∷ 1 ∷ []) (reader ((1 ∷ 2 ∷ []) ∷ (3 ∷ []) ∷ []))
      (omega arith, (omega arith, tt)) (omega arith, (omega arith, (omega arith, tt)))
      (omega (arith, first_answers))

-- Three bytes, written in pieces of two, and read in pieces of one or more
written-read_example :
    (reads (1 ∷ 1 ∷ 7 ∷ []) two_packets).0 ++ (write_all 4 never text sink).1 ≡ text
unfolding write_all contents poll_write max_send_size write_len
written-read_example =
    written-read (λ tx. tx) list_send-IsOrdered (λ rx. rx) list_recv-IsFifo 4 never text sink
      (1 ∷ 1 ∷ 7 ∷ []) (reader ((1 ∷ 2 ∷ []) ∷ (3 ∷ []) ∷ [])) (omega arith) refl refl refl
      (omega arith, (omega arith, (omega arith, tt))) (omega (arith, second_answers))

-- All of it is written.
all_written : (write_all 4 never text sink).1 ≡ []
unfolding write_all poll_write max_send_size write_len
all_written = refl

-- A remote receive buffer of as many bytes as a packet of a write
abbrev big_sink : SenderSink (List SendReq)
big_sink = record sink { cfg = record default_cfg { io_write_size = 8 } }

poll_write-pieces_example :
    ((max_send_size big_sink.remote_cfg < write_len (text ++ text) big_sink)
      × ((poll_write never (text ++ text) big_sink).1 ≡ Poll.ready (err SendError.data_too_big))
      × (requests (λ tx. tx) list_send-IsOrdered (poll_write never (text ++ text) big_sink).0 ≡ []))
    ⊎ ((write_len (text ++ text) big_sink ≤ max_send_size big_sink.remote_cfg)
        × ((poll_write never (text ++ text) big_sink).1
            ≡ Poll.ready (ok (write_len (text ++ text) big_sink)))
        × (requests (λ tx. tx) list_send-IsOrdered (poll_write never (text ++ text) big_sink).0
            ≡ [] ++ (SendReq.send (take (write_len (text ++ text) big_sink) (text ++ text)) ∷ [])))
poll_write-pieces_example =
    poll_write-pieces (λ tx. tx) list_send-IsOrdered never (text ++ text) big_sink
      (record { not_closed = refl; no_flush = refl; ready = refl; takes = λ item. refl })

-- The write is refused.
too_big : (poll_write never (text ++ text) big_sink).1 ≡ Poll.ready (err SendError.data_too_big)
unfolding poll_write max_send_size
too_big = refl

empty_write-ends_example :
    ((poll_write never [] sink).1 ≡ Poll.ready (ok 0))
    × ((poll_write never [] sink).0.tx ≡ [] ++ (SendReq.send [] ∷ []))
    × ReadsNone (λ rx. rx) list_recv-IsFifo 9 (reader ([] ∷ text ∷ [])) (text ∷ [])
empty_write-ends_example =
    empty_write-ends (λ tx. tx) list_send-IsOrdered (λ rx. rx) list_recv-IsFifo never sink 9
      (reader ([] ∷ text ∷ [])) (text ∷ [])
      (record { not_closed = refl; no_flush = refl; ready = refl; takes = λ item. refl }) refl refl

abbrev flushed : ℕ → Poll Bool
flushed n = Poll.ready true

poll_flush-answered_example :
    ((poll_flush flushed 5 sink).0.flushed_rx ≡ none)
    × (((n : ℕ) × (sink.flushed_rx ≡ some n) × (flushed n ≡ Poll.ready true))
        ⊎ ((sink.flushed_rx ≡ none)
            × (flushed 5 ≡ Poll.ready true)
            × ((poll_flush flushed 5 sink).0.tx ≡ [] ++ (SendReq.flush 5 ∷ []))))
unfolding poll_flush
poll_flush-answered_example =
    poll_flush-answered (λ tx. tx) list_send-IsOrdered flushed 5 sink refl refl refl
