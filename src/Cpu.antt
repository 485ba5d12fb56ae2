-- ===== src/Cpu.antt =====
-- The interpreter of src/cpu.c and src/cpu.h.
pub mod Decode
pub mod Op
pub mod Reg
pub mod State
pub mod Alu
pub mod Instructions
pub mod Run
pub mod Invariant
pub mod Round
pub mod Isa
