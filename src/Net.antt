-- ===== src/Net.antt =====
-- src/utils/net_utils.c: sockets, complete transfers over partial system calls, and sizes.
pub mod Socket
pub mod Transfer
pub mod Size
pub mod Connection
