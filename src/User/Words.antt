-- ===== src/User/Words.antt =====
-- The platform layer of a USER build keeps words words, and what the emulator has of its own on the
-- host, whatever the guest asks for.
mod Copies
mod Descriptors
mod Kept
mod Calls
mod Windows
mod Layer
pub use Descriptors.{IsGuestFd, KeepsFds, AfterOpen}
pub use Kept.{IsUserWorld}
pub use Layer.{user-KeepsWords, user_run-IsMachine}
