-- ===== src/Fsck/Layout.antt =====
-- The structures of a file system that fsck/fsck.c reads and writes, with the fields that it uses.
use hddchecker.Prelude.{ℕ, ◌*◌, ◌%◌, ◌/◌, ◌^◌, Bool, ◌==◌, u32_mod, RetCode}

-- `pfs_super_block_t`
pub record Super : Type 0 where
  pub magic : ℕ
  pub version : ℕ
  pub zone_size : ℕ
  pub num_subs : ℕ
  pub fsck_stat : ℕ
  pub root_sub : ℕ
  pub root_number : ℕ
  pub log_count : ℕ

-- `pfs_mount_t`, with the arrays ZoneSizes and ZoneMap.
pub record Mount : Type 0 where
  pub num_subs : ℕ
  pub zsize : ℕ
  pub sector_scale : ℕ
  pub inode_scale : ℕ
  pub root_sub : ℕ
  pub root_number : ℕ
  pub log_count : ℕ
  pub total_zones : ℕ
  pub zfree : ℕ
  pub zone_sizes : ℕ → ℕ
  pub zone_map : ℕ → ℕ

-- `pfs_blockinfo_t`
pub record BlockInfo : Type 0 where
  pub number : ℕ
  pub subpart : ℕ
  pub count : ℕ

-- `pfs_inode_t`, less its array of segments.
pub record Inode : Type 0 where
  pub mode : ℕ
  pub is_closed : Bool
  pub size : ℕ
  pub subpart : ℕ
  pub number_blocks : ℕ
  pub number_data : ℕ
  pub number_segdesg : ℕ
  pub inode_block : BlockInfo
  pub last_segment : BlockInfo
  pub next_segment : BlockInfo

-- `pfs_dentry_t`, with the first three characters of the path.
pub record Entry : Type 0 where
  pub inode : ℕ
  pub sub : ℕ
  pub p_len : ℕ
  pub a_len : ℕ
  pub path0 : ℕ
  pub path1 : ℕ
  pub path2 : ℕ

-- `pfs_blockpos_t`
pub record BlockPos : Type 0 where
  pub inode : ℕ
  pub block_segment : ℕ
  pub block_offset : ℕ
  pub byte_offset : ℕ

-- `pfs_bitmapInfo_t`
pub record BitmapInfo : Type 0 where
  pub chunk : ℕ
  pub index : ℕ
  pub bit : ℕ

-- What libpfs returns for a buffer of its cache: its number, or an error with NULL.
pub data Fetched : Type 0 where
  fetched : ℕ → Fetched
  failed : RetCode → Fetched

-- How a buffer is asked for.
pub data Load : Type 0 where
  no_load segment_inode plain : Load

-- `n << scale`
abbrev pub shl : ℕ → ℕ → ℕ
shl n scale = n * 2 ^ scale % u32_mod

-- FIO_S_ISDIR, FIO_S_ISREG, and `& FIO_S_IFMT`
abbrev pub is_dir : ℕ → Bool
is_dir mode = mode / 4096 % 16 == 1

abbrev pub is_reg : ℕ → Bool
is_reg mode = mode / 4096 % 16 == 2

abbrev pub type_bits : ℕ → ℕ
type_bits mode = mode / 4096 % 16 * 4096

-- sizeof(pfs_dentry_t)
abbrev pub dentry_size : ℕ
dentry_size = 512
