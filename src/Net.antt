-- ===== src/Net.antt =====
-- Network: the frames and the connections of kernel/net/tcp.c.
pub mod Frame
pub mod Tcp
