-- ===== src/User.antt =====
-- The platform layer of a USER build, src/user: system calls in the place of traps.
pub mod Host
pub mod Stat
pub mod Emu
pub mod Sys
pub mod Laws
pub mod Args
pub mod Std
pub mod Words
pub mod Programs
