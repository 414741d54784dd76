-- ===== src/Start.antt =====
-- src/main.c and src/utils/kill_others.c, in the Linux build with TLS, the web server and a screen:
-- what happens from `main` on until the servers run.
pub mod Paths
pub mod Kill
pub mod Launch
