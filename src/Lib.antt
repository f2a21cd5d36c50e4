-- ===== src/Lib.antt =====
-- The link aggregator of the crate aggligator: one connection over several links.
--
-- The parts of the program and how they interact. Two endpoints exchange messages (aggligator/src/msg.rs)
-- over links; over a plain stream of bytes a link's packets are framed by a codec with checksums
-- (aggligator/src/io/codec.rs). A connection is managed by a task (aggligator/src/agg/task.rs) that keeps one state
-- per link (aggligator/src/agg/link_int.rs). The task gives each reliable packet a sequence number
-- (aggligator/src/seq.rs), sends it over one of the links and keeps it until the remote endpoint acknowledged it; a
-- packet of a link that fails is queued and sent again over another. On the receiving side a queue puts the packets
-- back in order, whichever links they came over, and hands their data to the user. Send requests come
-- to the task through a channel that allows peeking (aggligator/src/peekable_mpsc.rs). Both parts are set up by
-- the configuration (aggligator/src/cfg.rs).
--
-- Files and what they model.
-- Base: names of the libraries, Boolean tests on numbers, lists with native lengths, machine integers (Int), and
--   fallible code (Result). Bytes: readers over buffers; the crates byteorder and bytes are the parameter
--   `ByteOrder`, of which Bytes/BigEndian is an instance. Fault: how a handler of the task ends early.
-- Seq: seq.rs. `Seq` is a number; each operator of the source is a function that wraps at 2 ^ 32.
-- Cfg: cfg.rs. Durations and instants are numbers of nanoseconds; functions that read the clock take `now`.
-- Msg: msg.rs. `write`, `read` and `encode` are in Msg/Write and Msg/Read, the reliable messages in Msg/Reliable.
-- Codec: io/codec.rs. Each call returns its result with the codec and the buffer after it; `crc32` is a parameter.
-- Peekable: peekable_mpsc.rs. The channel is the list of its messages and whether its senders are gone.
-- Packets: the packets that agg/task.rs keeps. `Arc` references are addresses into the one queue of packets, so that
--   a status written through one reference is seen through all. Link: link_int.rs. `LinkInt` has the source's
--   fields without channels and statistics; the sink of the transport is the parameter `Sink`. Link/Events has the
--   tasks of `event`, each as one poll: over what the sink answers, and over what the stream of packets gives.
-- Task: agg/task.rs. `Task` is the state in Task/Defs. Task/Receive has `handle_received_reliable_msg` and the
--   consumption, Task/Send `send_reliable_over_link`, `resend_reliable_over_link` and `flush_link`, Task/Ack
--   `handle_ack`, Task/Links `add_link`, `remove_link` and `unconfirm_link`, Task/Testing `ping_spread_limits` and
--   `link_testing_step`, Task/Messages `handle_received_msg`, Task/Resend the choice of idle links and the
--   event `Resend`, Task/Timeouts the instants at which the main loop wakes up, Task/Limits `check_link_limits` and
--   `adjust_link_tx_limits`, Task/Ready the event `TxReady`, and Task/Loop the other events of the main loop and what
--   it does before it waits; Task/Loop/Started has `Task::new`. A method that can panic returns `Run`, in which `panic`
--   stands for `unwrap`, `unreachable!`, failed assertions, underflow, a second borrow of a packet's status while a
--   packet is sent again, a sort of the resend queue whose order is not total, and the overflow of durations and factors of the confirm timeout.
-- Alc: alc/sender.rs and alc/receiver.rs, the sink and the stream with which the user of a connection writes and
--   reads. A poll returns `Poll`; the channels to the task are parameters with their documented behaviour.
-- Id: id.rs, the encryption of the connection id. Server: connect.rs, the server's table of connections and
--   `add_incoming`. Control: control.rs, `Control::add`. Handshake: the two together; the key exchange of the crate
--   x25519_dalek is a parameter. What happens to the server while it waits with its lock released is one too.
--
-- Bounds and fuel. `usize` has 64 bits. Sums of sizes are numbers without an upper limit, since the buffers that
-- they count are in memory. The loop of `send_test_data` has fuel: each round sends at
-- least one byte when the packet size is positive, as `io_packet_size` is, so that `data_limit` rounds are enough
-- (Link/Send/Fuel); and so has the loop of `add_incoming`, for which two rounds are enough
-- (Handshake/Joining). The other loops are recursions on a list. A sequence number is compared with packets of at most a
-- quarter of its range away; the theorems on the receiving side count packets without wrapping and
-- state that bound.
--
-- The theorems on the resend queue bound the packets that are kept by a quarter of the sequence numbers, within which
-- their order is that of sending; the code sends at most 65536 ahead of the oldest one, but for messages without data.
--
-- Not modelled: which of several ready events the main loop takes, the teardown after it, the
-- message-based sender, the watching part of the control handles, the transports and the executors, since they are asynchronous glue around
-- the state modelled here; statistics, logging and dumps, which change no state that the protocol reads.
pub mod Base
pub mod Bytes
pub mod Fault
pub mod Codec
pub mod Seq
pub mod Cfg
pub mod Msg
pub mod Packets
pub mod Link
pub mod Peekable
pub mod Task
pub mod Alc
pub mod Id
pub mod Server
pub mod Control
pub mod Handshake
