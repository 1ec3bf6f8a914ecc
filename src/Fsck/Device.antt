-- ===== src/Fsck/Device.antt =====
-- What fsck/fsck.c calls of the block device of a file system, of libpfs and of the kernel, over a
-- state `W`. The buffers are part of that state: IOBuffer, which a read fills and whose contents a
-- write takes, and those of the cache of libpfs, which the code names by pointers, here numbers.
use hddchecker.Prelude.{ℕ, Bool, Option, RetCode}
use hddchecker.Fsck.Bitmap.{Transfer}
use hddchecker.Fsck.Prompts.{Attribute}
use hddchecker.Fsck.Layout.{
  Super, Mount, BlockInfo, Inode, Entry, BlockPos, BitmapInfo, Fetched, Load,
}

-- `pfs_block_device_t` with sub-partition, sector and count, and what stands in IOBuffer: a super
-- block, words, or an extended attribute.
pub record Device (W : Type 0) : Type 0 where
  pub get_sub_number : W → ℕ × W
  pub get_size : ℕ → W → ℕ × W
  pub read : ℕ → ℕ → ℕ → W → RetCode × W
  pub write : ℕ → ℕ → ℕ → W → RetCode × W
  pub flush_cache : W → Unit {0} × W
  pub get_super : W → Super × W
  pub put_super : Super → W → Unit {0} × W
  pub get_word : ℕ → W → ℕ × W
  pub put_word : ℕ → ℕ → W → Unit {0} × W
  pub fill_ones : W → Unit {0} × W
  pub fill_attribute : W → Unit {0} × W
  pub attribute : Attribute W
  pub clear_part_error : W → W
  pub transfer : Transfer W

-- libpfs: its pure functions, its cache, and the fields of what a buffer holds.
pub record Pfs (W : Type 0) : Type 0 where
  pub scale : ℕ → ℕ → ℕ
  pub bitmap_blocks : ℕ → ℕ → ℕ
  pub fix_index : ℕ → ℕ
  pub setup_info : Mount → ℕ → ℕ → BitmapInfo
  pub meta_size : ℕ
  pub block_size : ℕ
  pub restore_journal : Mount → W → RetCode × W
  pub calc_free_zones : Mount → ℕ → W → ℕ × W
  pub flush_dirty : W → Unit {0} × W
  pub close_cache : W → Unit {0} × W
  pub get_block : Load → ℕ → ℕ → W → Fetched × W
  pub inode_data : ℕ → ℕ → W → Fetched × W
  pub bitmap_chunk : ℕ → ℕ → W → Option ℕ × W
  pub entries_chunk : BlockPos → W → Fetched × W
  pub sync_position : BlockPos → ℕ → ℕ → W → (RetCode × BlockPos) × W
  pub use_link : ℕ → W → Unit {0} × W
  pub free : ℕ → W → Unit {0} × W
  pub mark_dirty : ℕ → W → Unit {0} × W
  pub get_sub : ℕ → W → ℕ × W
  pub get_number : ℕ → W → ℕ × W
  pub get_inode : ℕ → W → Inode × W
  pub put_inode : ℕ → Inode → W → Unit {0} × W
  pub get_data : ℕ → ℕ → W → BlockInfo × W
  pub get_bits : ℕ → ℕ → W → ℕ × W
  pub put_bits : ℕ → ℕ → ℕ → W → Unit {0} × W
  pub clear_entries : ℕ → W → Unit {0} × W
  pub get_entry : ℕ → ℕ → W → Entry × W
  pub put_entry : ℕ → ℕ → Entry → W → Unit {0} × W

-- The calls of FsckOpen, FsckClose and FsckIoctl2: the partition's file, the threads and the clock.
pub record Kernel (W : Type 0) : Type 0 where
  pub get_type : W → (RetCode × ℕ) × W
  pub type_pfs : ℕ
  pub has_device : W → Bool × W
  pub open_file : W → RetCode × W
  pub close_file : ℕ → W → Unit {0} × W
  pub start_thread : W → RetCode × W
  pub get_time : W → (ℕ × ℕ) × W
  pub usec_part : ℕ × ℕ → ℕ
