-- ===== src/Proto.antt =====
-- The protocol: src/proto/methods.c, versions.c and server.c.
pub mod Text
pub mod Transfer
pub mod Image
pub mod Save
pub mod Upload
pub mod Versions
