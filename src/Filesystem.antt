-- ===== src/Filesystem.antt =====
-- filesystem/: the blocks of the disk, the files in them, and the requests of the kernel.
mod Sample
mod ResizeTests
mod TransferTests
pub mod Blocks
pub mod Bitmap
pub mod Pointers
pub mod Disk
pub mod Resize
pub mod Transfer
pub mod Flat
pub mod FlatEcho
pub mod FileEcho
pub mod Freed
pub mod Shrink
pub mod FreeBlocks
pub mod PointerBlock
pub mod DropBlocks
pub mod Dropped
pub mod Grown
pub mod Dispatch
pub mod Exchange
