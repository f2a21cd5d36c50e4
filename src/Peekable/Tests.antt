-- ===== src/Peekable/Tests.antt =====
-- The theorem on the receiver with one message peeked and one in the channel.
use aggligator.Base.{ℕ, leb, false, some, [], ◌∷◌}
use aggligator.Peekable.{PeekableReceiver, try_recv_if}
use aggligator.Peekable.Laws.{Receives, try_recv_if-Receives}

abbrev two_pending : PeekableReceiver ℕ
two_pending = record { rx = record { queue = 8 ∷ []; closed = false }; peeked = some 3 }

try_recv_if-Receives_example : Receives (leb 4) (3 ∷ 8 ∷ []) false (try_recv_if (leb 4) two_pending)
try_recv_if-Receives_example = try_recv_if-Receives (leb 4) two_pending
