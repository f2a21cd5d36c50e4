-- ===== src/Task.antt =====
-- aggligator/src/agg/task.rs: the task that manages a connection. Its state is `Task` (Task/Defs); each method
-- and each event of the main loop is a function on it that may end in a fault.
pub mod Defs
pub mod Receive
pub mod Ack
pub mod Send
pub mod Links
pub mod Testing
pub mod Resend
pub mod Messages
pub mod Timeouts
pub mod Limits
pub mod Ready
pub mod Loop
mod Samples
mod Tests
