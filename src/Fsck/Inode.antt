-- ===== src/Fsck/Inode.antt =====
-- pfsInitDirEnt and fsckFillInode of fsck/fsck.c, and the part of fsckCheckDirentryInode that reads
-- the blocks of a directory.
pub mod Kept
use hddchecker.Prelude.{
  ℕ, zero, suc, ◌+◌, ◌-◌, ◌*◌, ◌/◌, ◌%◌, ◌^◌, Bool, true, false, not, ◌&&◌, ◌||◌, ltb, ◌==◌,
  if◌then◌else◌, RetCode, ret, err, eio, enomem, einval, is_neg, is_zero, add32, u32_mod, Errno,
  Option, none, some,
}
use hddchecker.Fsck.Bitmap.{Cache}
use hddchecker.Fsck.Zones.{check_zones}
use hddchecker.Fsck.Layout.{
  Mount, BlockInfo, Inode, Entry, Fetched, Load, shl, is_dir, dentry_size, no_load, segment_inode,
  plain,
}
use hddchecker.Fsck.Device.{Device, Pfs}
use hddchecker.Fsck.FileBitmap.{check_file_bitmap}
use hddchecker.Fsck.Run.{
  Action, Status, pure, io, gives_up, on_option, on_fetched, ◌>>=◌, ◌>>◌, prompt, mark_error,
  set_status, stopped, with_cache,
}

-- The entries that pfsInitDirEnt writes for a directory: FIO_S_IFDIR with the lengths 12 and 500, and
-- the characters of `.` and `..`.
abbrev pub self_entry : ℕ → ℕ → Entry
self_entry number sub = record {
  inode = number;
  sub = sub % 256;
  p_len = 1;
  a_len = 4108;
  path0 = 46;
  path1 = 0;
  path2 = 0;
}

abbrev pub parent_entry : ℕ → ℕ → Entry
parent_entry number sub = record {
  inode = number;
  sub = sub % 256;
  p_len = 2;
  a_len = 4596;
  path0 = 46;
  path1 = 46;
  path2 = 0;
}

abbrev pub is_enomem : RetCode → Bool
is_enomem (err enomem) = true
is_enomem r = false

abbrev pub is_io_error : RetCode → Bool
is_io_error (err eio) = true
is_io_error r = false

-- fsckFillInode's changes, the first `number_segdesg` of which is overwritten.
abbrev pub fill_fields : ℕ → ℕ → ℕ → ℕ → ℕ → Inode → Inode
fill_fields blocks entries segdesg sub number ino = record ino {
  subpart = 0;
  is_closed = if is_dir ino.mode then ino.is_closed else false;
  number_blocks = blocks;
  number_data = entries;
  number_segdesg = segdesg;
  last_segment = record ino.last_segment { subpart = sub; number = number };
}

-- What the loop of fsckCheckDirentryInode carries: the segment's buffer, the blocks and the
-- segment descriptors so far, and the offset in the directory.
pub record Walk : Type 0 where
  pub link : ℕ
  pub blocks : ℕ
  pub segdesg : ℕ
  pub offset : ℕ

abbrev pub no_block : BlockInfo
no_block = record { number = 0; subpart = 0; count = 0 }

module _ {W : Type 0} (pfs : Pfs W) (m : Mount) where
  pub write_self_and_parent : ℕ → ℕ → ℕ → Action W (Unit {0})
  write_self_and_parent link number sub = do
    io (pfs.put_entry link 0 (self_entry number sub))
    io (pfs.put_entry link 12 (parent_entry number sub))

  pub set_length : ℕ → ℕ → Action W (Unit {0})
  set_length link at = do
    e ← io (pfs.get_entry link at)
    io (pfs.put_entry link at (record e { a_len = dentry_size }))

  pub fill_entries : ℕ → ℕ → ℕ → Bool → Action W (Unit {0})
  unfolding write_self_and_parent set_length
  fill_entries link number sub is_first = do
    io (pfs.clear_entries link)
    if is_first then write_self_and_parent link number sub else set_length link 0
    set_length link dentry_size
    io (pfs.mark_dirty link)
    io (pfs.free link)

  -- pfsInitDirEnt. The result of pfsCacheGetData with a buffer is taken to be 0.
  pub init_dir_ent : ℕ → ℕ → ℕ → Bool → Action W RetCode
  unfolding fill_entries
  init_dir_ent sub inode number is_first = do
    agreed ← prompt true
    if not agreed then pure (err eio) else do
      got ← io (pfs.get_block no_load sub number)
      on_fetched got pure (λ link. fill_entries link inode sub is_first >> pure (ret 0))

  -- fsckFillInode of a segment's buffer.
  pub fill_inode : ℕ → ℕ → ℕ → ℕ → ℕ → Action W (Unit {0})
  fill_inode inode link blocks entries segdesg = do
    seg ← io (pfs.get_inode link)
    io (pfs.put_inode link (record seg { next_segment = no_block }))
    sub ← io (pfs.get_sub link)
    block ← io (pfs.get_number link)
    ino ← io (pfs.get_inode inode)
    io (
        pfs.put_inode inode
          (fill_fields blocks entries segdesg sub (block / 2 ^ m.inode_scale) ino))
    io (pfs.mark_dirty link)
    io (pfs.mark_dirty inode)

  -- `Remove rest of file`, and what the caller then returns.
  pub remove_rest : ℕ → ℕ → Walk → RetCode → RetCode → Action W RetCode
  unfolding fill_inode
  remove_rest inode index walk done kept = do
    agreed ← prompt true
    if agreed
        then fill_inode inode walk.link walk.blocks index walk.segdesg >> pure done
        else pure kept

  -- A block of a directory. Where it cannot be read, the call of pfsInitDirEnt passes the block for
  -- the number of the inode, and the number of the inode for the block. `n` sectors from `sector` on. The result is that of the reads, which is 0
  -- where a buffer was had.
  pub read_dir_sectors : Inode → ℕ → ℕ → ℕ → BlockInfo → ℕ → ℕ → ℕ → Action W (RetCode × ℕ)
  unfolding init_dir_ent
  read_dir_sectors ino index i start b zero sector offset = pure (ret 0, offset)
  read_dir_sectors ino index i start b (suc n) sector offset =
      if not (ltb offset ino.size) then pure (ret 0, offset) else do
        let rest = read_dir_sectors ino index i start b n (sector + 1) (add32 offset pfs.meta_size)
        got ← io (pfs.get_block plain b.subpart (add32 start sector))
        on_fetched got
            (λ r. if is_enomem r then pure (r, offset) else do
              let is_first = (index == 1) && (i == 0) && (sector == 0)
              done ← init_dir_ent b.subpart (add32 start sector) ino.inode_block.number is_first
              if is_neg done then pure (done, offset) else rest)
            (λ link. io (pfs.free link) >> rest)

  -- The blocks of a segment of a directory, `n` from `i` on.
  pub read_dir_blocks : Inode → ℕ → ℕ → BlockInfo → ℕ → ℕ → Action W (RetCode × ℕ)
  unfolding read_dir_sectors
  read_dir_blocks ino index i b zero offset = pure (ret 0, offset)
  read_dir_blocks ino index i b (suc n) offset = do
    let start = shl (add32 b.number i) m.inode_scale
    done ← read_dir_sectors ino index i start b (2 ^ m.inode_scale) 0 offset
    if is_neg done.0 then pure done else read_dir_blocks ino index (i + 1) b n done.1
