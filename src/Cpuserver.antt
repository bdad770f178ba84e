-- ===== src/Cpuserver.antt =====
-- src/newmadrid/cpuserver: a server that runs one emulator for each user.
mod Tests
pub mod Site
pub mod Hooks
pub mod UserCpu
pub mod Handlers
pub mod Session
