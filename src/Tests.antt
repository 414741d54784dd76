-- ===== src/Tests.antt =====
-- The theorems at concrete inputs.
mod Data
mod Network
mod Settings
mod Strings
mod Requests
mod Processes
mod Desktop
mod Headless
mod Web
mod Startup
