-- ===== src/Memory.antt =====
-- memoria/: the memory module. Segments and holes are structs behind pointers that the lists share.
mod Tests
pub mod State
pub mod Fit
pub mod Choice
pub mod Blocks
pub mod Invariant
pub mod Allocation
pub mod Add
pub mod Delete
pub mod Apart
pub mod Merge
pub mod Compaction
pub mod Release
pub mod Removed
pub mod Kept
pub mod Taken
pub mod Ended
pub mod Heap
pub mod Access
pub mod ReadWrite
pub mod Compact
pub mod Slide
pub mod Reordered
pub mod Compacted
pub mod Gap
pub mod Messages
pub mod Echo
