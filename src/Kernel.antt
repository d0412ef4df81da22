-- ===== src/Kernel.antt =====
-- kernel/: the process control blocks, their resources and files, the requests, the schedulers, and the
-- loop around them.
mod Tests
mod LockTests
mod RoundTests
pub mod State
pub mod Resources
pub mod Semaphore
pub mod Requests
pub mod Schedule
pub mod Fifo
pub mod Hrrn
pub mod Forgotten
pub mod ShortTerm
pub mod Dictionary
pub mod Files
pub mod FileLock
pub mod FileOpen
pub mod SegmentRequests
pub mod NewProcess
pub mod Round
pub mod Running
pub mod RunningFiles
pub mod RunningSegments
pub mod RunningSchedule
pub mod OneRunning
pub mod Interleaved
pub mod Consoles
pub mod LongTerm
pub mod Admission
