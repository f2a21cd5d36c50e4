-- ===== src/Msg/Reliable.antt =====
-- `ReliableMsg::to_link_msg` and `from_link_msg`.
use aggligator.Base.{◌≡◌, refl, Option, none, some}
use aggligator.Base.Result.{ok, err}
use aggligator.Fault.{Run, panic}
use aggligator.Bytes.{Bytes}
use aggligator.Seq.{Seq}
use aggligator.Msg.{LinkMsg, ReliableMsg}

unfoldable pub to_link_msg : ReliableMsg → Seq → LinkMsg × Option Bytes
to_link_msg (ReliableMsg.data_msg bytes) seq = (LinkMsg.data_msg seq, some bytes)
to_link_msg (ReliableMsg.consumed n) seq = (LinkMsg.consumed seq n, none)
to_link_msg ReliableMsg.send_finish seq = (LinkMsg.send_finish seq, none)
to_link_msg ReliableMsg.receive_close seq = (LinkMsg.receive_close seq, none)
to_link_msg ReliableMsg.receive_finish seq = (LinkMsg.receive_finish seq, none)

-- The other messages are not reliable: `unreachable!`.
unfoldable pub from_link_msg : LinkMsg → Option Bytes → Run (ReliableMsg × Seq)
from_link_msg (LinkMsg.data_msg seq) (some bytes) = ok (ReliableMsg.data_msg bytes, seq)
from_link_msg (LinkMsg.consumed seq n) bytes = ok (ReliableMsg.consumed n, seq)
from_link_msg (LinkMsg.send_finish seq) bytes = ok (ReliableMsg.send_finish, seq)
from_link_msg (LinkMsg.receive_close seq) bytes = ok (ReliableMsg.receive_close, seq)
from_link_msg (LinkMsg.receive_finish seq) bytes = ok (ReliableMsg.receive_finish, seq)
from_link_msg _ bytes = err panic

-- A reliable message with a sequence number, turned into a link message and its data, is turned back into
-- the same message and number.
pub from_link_msg-to_link_msg :
    (m : ReliableMsg) (seq : Seq)
    → (let (msg, bytes) = to_link_msg m seq in from_link_msg msg bytes) ≡ ok (m, seq)
unfolding to_link_msg from_link_msg
from_link_msg-to_link_msg (ReliableMsg.data_msg bytes) seq = refl
from_link_msg-to_link_msg (ReliableMsg.consumed n) seq = refl
from_link_msg-to_link_msg ReliableMsg.send_finish seq = refl
from_link_msg-to_link_msg ReliableMsg.receive_close seq = refl
from_link_msg-to_link_msg ReliableMsg.receive_finish seq = refl
