-- ===== src/Wayland.antt =====
-- The hand-written part of the package wayland/client: the wire format and the connection.
pub mod Wire
pub mod Connection
mod Samples
