-- ===== src/Arp.antt =====
-- arp/arp_cache.c and arp/arp.c: the ARP cache and the packets that drive it.
-- The lock is held round every access, so the operations are taken one after another.
pub mod Cache
pub mod Packet
mod Tests
