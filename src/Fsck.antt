-- ===== src/Fsck.antt =====
-- fsck: the file system checker of fsck/.
pub mod Bitmap
pub mod Compare
pub mod Control
pub mod Device
pub mod FileBitmap
pub mod Entries
pub mod Files
pub mod Inode
pub mod Layout
pub mod Open
pub mod Prompts
pub mod Run
pub mod Segments
pub mod Super
pub mod Thread
pub mod Zones
mod Samples
mod Tests
