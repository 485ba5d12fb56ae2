-- ===== src/Supervisor.antt =====
-- The platform layer of a SUPERVISOR build, src/supervisor.
pub mod Csr
pub mod World
pub mod Trap
pub mod Sbi
pub mod Sys
pub mod Vm
pub mod Words
pub mod Programs
