-- ===== src/Sockets.antt =====
-- Qt/ZMonitor/SocketMornitoring: which process owns a socket (Inode, Cache, Load), and the addresses
-- of /proc/net/tcp (Address).
pub mod Inode
pub mod Cache
pub mod Load
pub mod Address
