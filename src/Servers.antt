-- ===== src/Servers.antt =====
-- src/servers: what is modelled of the servers themselves.
pub mod Children
pub mod Web
pub mod Listen
