-- ===== src/Fsck/Files.antt =====
-- fsckCheckFiles, fsckCheckFile and CheckRootDirectory of fsck/fsck.c: the walk over the directories. A pointer to an entry is its
-- offset in a chunk of 1024 bytes. The names that the code keeps for its messages are left out.
pub mod Ending
pub mod Kept
use hddchecker.Prelude.{
  ℕ, zero, suc, ◌+◌, ◌-◌, ◌*◌, ◌/◌, ◌%◌, ◌^◌, Bool, true, false, not, ◌&&◌, ◌||◌, ltb, leb, ◌==◌,
  if◌then◌else◌, RetCode, ret, err, eio, is_neg, is_zero, add32, Option, none, some,
}
use hddchecker.Fsck.Layout.{
  Mount, BlockInfo, Inode, Entry, BlockPos, Fetched, shl, is_dir, is_reg, type_bits, dentry_size,
}
use hddchecker.Fsck.Device.{Device, Pfs}
use hddchecker.Fsck.Inode.{is_io_error}
use hddchecker.Fsck.Segments.{check_dirent_inode}
use hddchecker.Fsck.Entries.{check_link_entry, fix_entry, fix_length}
use hddchecker.Fsck.Run.{
  Action, Status, pure, io, gives_up, on_option, on_fetched, ◌>>=◌, ◌>>◌, prompt, mark_error,
  get_status, set_status, stopped,
}

-- FSCK_MAX_PATH_LEVELS
abbrev pub max_path_levels : ℕ
max_path_levels = 64

abbrev pub deeper : Status → Status
deeper st = record st { level = st.level + 1 }

abbrev pub back_up : Status → Status
back_up st = record st { level = st.level - 1 }

abbrev pub add_directory : Status → Status
add_directory st = record st { directories = add32 st.directories 1 }

abbrev pub add_file : Status → Status
add_file st = record st { files = add32 st.files 1 }

module _ {W : Type 0} (dev : Device W) (pfs : Pfs W) (m : Mount) where
  -- The extended attribute of a file: written anew where it cannot be read.
  pub init_attribute : ℕ → ℕ → Action W (Unit {0})
  init_attribute sub sector = do
    agreed ← prompt true
    if not agreed then mark_error else do
      io dev.fill_attribute
      put ← io (dev.write sub sector (2 ^ pfs.block_size))
      if is_zero put then pure tt else mark_error

  pub check_file_attribute : ℕ → Action W (Unit {0})
  unfolding init_attribute
  check_file_attribute link = do
    sub ← io (pfs.get_sub link)
    block ← io (pfs.get_number link)
    let sector = shl (add32 block 1) pfs.block_size
    got ← io (dev.read sub sector (2 ^ pfs.block_size))
    if is_zero got then pure tt else init_attribute sub sector

  -- fsckCheckFile; `check_dir` is fsckCheckFiles of the directory that the entry names.
  pub check_file : (ℕ → ℕ → Action W (Unit {0})) → ℕ → ℕ → Entry → Action W (Unit {0})
  unfolding check_file_attribute
  check_file check_dir parent link e = do
    st ← get_status
    if not (ltb st.level (max_path_levels - 1)) then mark_error else do
      set_status deeper
      if is_reg e.a_len then check_file_attribute link else pure tt
      check_dirent_inode dev pfs m link
      if is_dir e.a_len
          then set_status add_directory >> check_dir parent link
          else set_status add_file
      set_status back_up

  -- A file that an entry names, or its removal where the file cannot be read.
  pub visit_file : (ℕ → ℕ → Action W (Unit {0})) → ℕ → ℕ → ℕ → Entry → Action W (Unit {0})
  unfolding check_file
  visit_file check_dir inode chunk at e = do
    got ← io (pfs.inode_data e.sub e.inode)
    on_fetched got
        (λ r.
          if not (is_io_error r)
          then mark_error
          else do agreed ← prompt true; if agreed then fix_entry pfs chunk at else pure tt)
        (λ link. check_file check_dir inode link e >> io (pfs.free link))

  -- The part of the loop that looks at the file of an entry.
  pub visit_entry : (ℕ → ℕ → Action W (Unit {0})) → ℕ → ℕ → ℕ → ℕ → Action W (Unit {0})
  unfolding visit_file
  visit_entry check_dir parent inode chunk at = do
    e ← io (pfs.get_entry chunk at)
    if e.inode == 0
        then pure tt
        else if (e.p_len == 1) && (e.path0 == 46)
        then check_link_entry pfs inode chunk at
        else if (e.p_len == 2) && (e.path0 == 46)
        then check_link_entry pfs parent chunk at
        else visit_file check_dir inode chunk at e

  -- The inner loop, over the entries in front of `end`: where it ends, in the chunk and in the
  -- directory, or none for a stop. Each step takes at least one byte off the room.
  pub check_entries :
      ℕ → (ℕ → ℕ → Action W (Unit {0})) → ℕ → ℕ → ℕ → ℕ → ℕ → ℕ → Action W (Option (ℕ × ℕ))
  unfolding visit_entry
  check_entries zero check_dir parent inode chunk end at offset = gives_up
  check_entries (suc fuel) check_dir parent inode chunk end at offset =
      if leb end at then pure (some (at, offset)) else do
        stop ← stopped
        if stop then pure none else do
          size ← fix_length pfs chunk at (end - at)
          visit_entry check_dir parent inode chunk at
          check_entries fuel check_dir parent inode chunk end (at + size) (add32 offset size)

  -- The end of fsckCheckFiles. After a failed sync the chunk, which was released, is released again.
  pub end_files : ℕ → BlockPos → Action W (Unit {0})
  end_files chunk pos = io (pfs.free chunk) >> io (pfs.free pos.inode)

  -- The chunk to go on with, at the entry `at` of the chunk at hand; none is an
  -- error, after which the buffers are released.
  pub next_chunk : Inode → ℕ → ℕ → BlockPos → Action W (Option (ℕ × ℕ × BlockPos))
  unfolding end_files
  next_chunk ino chunk at pos = if ltb at 1024 then pure (some (chunk, at, pos)) else do
    io (pfs.free chunk)
    moved ← io (pfs.sync_position pos 1024 ino.number_data)
    if not (is_zero moved.0) then mark_error >> end_files chunk moved.1 >> pure none else do
      got ← io (pfs.entries_chunk moved.1)
      on_fetched got (λ r. mark_error >> io (pfs.free (moved.1).inode) >> pure none)
          (λ next. pure (some (next, 0, moved.1)))

  -- The outer loop.
  pub check_chunks :
      ℕ → (ℕ → ℕ → Action W (Unit {0})) → ℕ → ℕ → ℕ → ℕ → BlockPos → ℕ → Action W (Unit {0})
  unfolding check_entries next_chunk end_files
  check_chunks zero check_dir parent inode chunk at pos offset = gives_up
  check_chunks (suc fuel) check_dir parent inode chunk at pos offset = do
    ino ← io (pfs.get_inode inode)
    if not (ltb offset ino.size) then end_files chunk pos else do
      found ← next_chunk ino chunk at pos
      on_option found (pure tt) (λ here. do
        let end = here.1 + dentry_size
        seen ← check_entries (suc dentry_size) check_dir parent inode here.0 end here.1 offset
        on_option seen (end_files here.0 here.2) (λ after. do
          stop ← stopped
          if stop
              then end_files here.0 here.2
              else check_chunks fuel check_dir parent inode here.0 after.0 here.2 after.1))

  -- fsckCheckFiles of one directory; each turn of its loop takes 512 bytes off the directory.
  pub check_files_with : (ℕ → ℕ → Action W (Unit {0})) → ℕ → ℕ → Action W (Unit {0})
  unfolding check_chunks
  check_files_with check_dir parent inode = do
    io (pfs.use_link inode)
    ino ← io (pfs.get_inode inode)
    let pos : BlockPos = record {
      inode = inode;
      block_segment = 1;
      block_offset = 0;
      byte_offset = 0;
    }
    got ← io (pfs.entries_chunk pos)
    on_fetched got (λ r. io (pfs.free inode) >> mark_error)
        (λ chunk. check_chunks (suc ino.size) check_dir parent inode chunk 0 pos 0)

  -- fsckCheckFiles, with the levels of directories that it may enter.
  pub check_files : ℕ → ℕ → ℕ → Action W (Unit {0})
  unfolding check_files_with
  check_files zero parent inode = gives_up
  check_files (suc levels) parent inode = check_files_with (check_files levels) parent inode

  -- CheckRootDirectory
  pub check_root : Action W (Option ℕ)
  check_root = do
    got ← io (pfs.inode_data m.root_sub m.root_number)
    on_fetched got (λ r. pure none)
        (λ link. do
          r ← check_dirent_inode dev pfs m link
          if is_zero r then pure (some link) else io (pfs.free link) >> pure none)
