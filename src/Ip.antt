-- ===== src/Ip.antt =====
-- ip/: fragments, output and input of IP packets.
pub mod Frag
pub mod Out
pub mod In
mod Tests
