-- ===== src/Cpu.antt =====
-- cpu/: the registers, the address translation, the instructions and the cycle of the CPU.
mod Tests
mod SessionSegments
mod SessionTests
pub mod RegisterFile
pub mod Mmu
pub mod Translation
pub mod Execute
pub mod RegisterLaws
pub mod Cycle
pub mod Session
pub mod Returned
pub mod KeptBurst
pub mod Termination
pub mod Echo
