-- ===== src/Cpu/Invariant.antt =====
-- The well-formed states of a core and its memory: every register and the reserved word are 32-bit
-- words, and every cell of the memory is a byte.
mod Defs
mod Steps
mod Handlers
mod Loop
pub use Defs.*
pub use Loop.*
