-- ===== src/Supervisor/Words.antt =====
-- The platform layer of a SUPERVISOR build keeps words words: the registers of the core that runs
-- and those of every other core.
mod Defs
mod Trap
mod Csr
mod Sbi
mod Layer
pub use Defs.{IsWorld}
pub use Sbi.{on_threads-Kept, halt_cores-AllCores}
pub use Layer.{supervisor-KeepsWords, supervisor_run-IsMachine}
