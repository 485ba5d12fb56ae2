-- ===== src/Tests.antt =====
-- Concrete machines, and the theorems applied to them.
mod Data
mod Memory
mod Decode
mod Isa
mod Threads
mod Stepping
mod User
mod Loader
mod Main
mod Display
mod Supervisor
