-- ===== src/UserPrograms.antt =====
-- User programs of egos-2000/apps/user: the path of cd.c, the checksum of udp_demo.c, and grep.c.
pub mod Cd
pub mod Checksum
pub mod Grep
mod Tests
