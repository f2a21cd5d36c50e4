-- ===== src/Handshake.antt =====
-- The handshake of a link between aggligator/src/control.rs (the client) and aggligator/src/connect.rs (the
-- server), and the connection that the server joins the link to.
pub mod Secret
pub mod Joining
mod Tests
