-- ===== src/Fsck/Segments.antt =====
-- fsckCheckDirentryInode of fsck/fsck.c: whether the zones of a file or a directory can be read, and
-- are used once. Codes that the code reaches by `goto` are results.
pub mod Kept
use hddchecker.Prelude.{
  ℕ, zero, suc, ◌+◌, ◌-◌, ◌*◌, ◌/◌, ◌%◌, ◌^◌, Bool, true, false, not, ◌&&◌, ◌||◌, ltb, ◌==◌,
  if◌then◌else◌, RetCode, ret, err, eio, enomem, einval, is_neg, is_zero, add32, u32_mod, Errno,
  Option, none, some,
}
use hddchecker.Fsck.Bitmap.{Cache}
use hddchecker.Fsck.Zones.{check_zones}
use hddchecker.Fsck.Layout.{
  Mount, BlockInfo, Inode, Entry, Fetched, Load, shl, is_dir, dentry_size, no_load, segment_inode,
  plain,
}
use hddchecker.Fsck.Device.{Device, Pfs}
use hddchecker.Fsck.FileBitmap.{check_file_bitmap}
use hddchecker.Fsck.Inode.{Walk, is_io_error, remove_rest, read_dir_blocks}
use hddchecker.Fsck.Run.{
  Action, Status, pure, io, gives_up, on_option, on_fetched, ◌>>=◌, ◌>>◌, prompt, mark_error,
  set_status, stopped, with_cache,
}

-- The test that a segment lies in its sub-partition, behind the first zones.
abbrev pub is_bad_zone : Mount → BlockInfo → Bool
is_bad_zone m b =
    ltb m.num_subs b.subpart
    || (b.count == 0)
    || ltb b.number 2
    || ltb (m.zone_sizes b.subpart) (shl (add32 b.number b.count) m.sector_scale)

module _ {W : Type 0} (dev : Device W) (pfs : Pfs W) (m : Mount) where
  -- The blocks of a segment of a file. False is the jump to the end of the loop.
  pub read_file_blocks : ℕ → ℕ → Walk → BlockInfo → ℕ → ℕ → Action W Bool
  read_file_blocks inode index walk b i zero = pure true
  read_file_blocks inode index walk b i (suc n) = do
    let start = shl (add32 b.number i) m.sector_scale
    got ← io (dev.read b.subpart start (2 ^ m.sector_scale))
    if is_zero got
        then (stopped >>= λ stop.
            if stop then pure false else read_file_blocks inode index walk b (i + 1) n)
        else remove_rest pfs m inode index walk (ret 0) (ret 0) >> pure false

  -- The zones of a segment, of which none may be in use by another.
  pub claim_zones : ℕ → ℕ → Walk → BlockInfo → Action W RetCode
  claim_zones inode index walk b = do
    r ← check_file_bitmap pfs m b
    if is_neg r then pure r else do
      z ← with_cache (check_zones dev.transfer (add32 b.number (m.zone_map b.subpart)) b.count)
      if is_neg z || is_zero z then pure z else remove_rest pfs m inode index walk z z

  -- The part of the loop that reads a segment, with the offset after it; none is a jump out with 0.
  pub read_segment : ℕ → Inode → ℕ → Walk → BlockInfo → Action W (Option (RetCode × ℕ))
  unfolding read_file_blocks
  read_segment inode ino index walk b =
      if pfs.fix_index index == 0
      then pure (some (ret 0, walk.offset))
      else if is_dir ino.mode
      then (read_dir_blocks pfs m ino index 0 b b.count walk.offset >>= λ done. pure (some done))
      else read_file_blocks inode index walk b 0 b.count >>= λ fine.
          pure (if fine then some (ret 0, walk.offset) else none)

  -- The counts at the end of the loop.
  abbrev pub count_blocks : BlockInfo → ℕ → Walk → Walk
  count_blocks b offset walk = record walk { blocks = add32 walk.blocks b.count; offset = offset }

  abbrev pub add_blocks : BlockInfo → Status → Status
  add_blocks b st = record st { block_count = add32 st.block_count b.count }

  -- The middle of the loop. What it gives is the offset to go on with, or a code to jump out with.
  pub check_segment : ℕ → Inode → ℕ → Walk → BlockInfo → Action W (Option Walk × RetCode)
  unfolding read_segment claim_zones
  check_segment inode ino index walk b =
      if is_bad_zone m b
      then (remove_rest pfs m inode index walk (ret 0) (err einval) >>= λ r. pure (none, r))
      else do
        seen ← read_segment inode ino index walk b
        on_option seen (pure (none, ret 0)) (λ done.
            if is_neg done.0 then pure (none, done.0) else do
              r ← claim_zones inode index walk b
              if not (is_zero r) then pure (none, r) else do
                set_status (add_blocks b)
                pure (some (count_blocks b done.1 walk), ret 0))

  -- The buffer of the next segment, where one ends. Removing the rest of the file writes through the
  -- NULL that the fetch returned, so such a run has no value.
  pub next_segment : Walk → Action W (Option Walk × RetCode)
  next_segment walk = do
    seg ← io (pfs.get_inode walk.link)
    io (pfs.free walk.link)
    let next = seg.next_segment
    got ← io (pfs.get_block segment_inode next.subpart (shl next.number m.inode_scale))
    on_fetched got
        (λ r.
          if not (is_io_error r)
          then pure (none, r)
          else do agreed ← prompt true; if agreed then gives_up else pure (none, r))
        (λ link. pure (some (record walk { link = link; segdesg = add32 walk.segdesg 1 }), ret 0))

  -- The last part: an error marks the run, and the buffer is released, unless it is NULL.
  pub end_walk : Option ℕ → RetCode → Action W RetCode
  end_walk link r = do
    if is_neg r then mark_error else pure tt
    on_option link (pure tt) (λ h. io (pfs.free h))
    pure r

  -- The loop over the segments, `n` of them from `index` on.
  pub check_segments : ℕ → Inode → ℕ → ℕ → Walk → Action W RetCode
  unfolding check_segment next_segment end_walk
  check_segments inode ino zero index walk = end_walk (some walk.link) (ret 0)
  check_segments inode ino (suc n) index walk = do
    let is_next = not (index == 0) && (pfs.fix_index index == 0)
    at ← if is_next then next_segment walk else pure (some walk, ret 0)
    on_option at.0 (end_walk none at.1) (λ here. do
      b ← io (pfs.get_data here.link (pfs.fix_index index))
      done ← check_segment inode ino index here b
      on_option done.0 (end_walk (some here.link) done.1) (λ after. do
        stop ← stopped
        if stop
            then end_walk (some after.link) (ret 0)
            else check_segments inode ino n (index + 1) after))

  -- fsckCheckDirentryInode
  pub check_dirent_inode : ℕ → Action W RetCode
  unfolding check_segments
  check_dirent_inode inode = do
    io (pfs.use_link inode)
    ino ← io (pfs.get_inode inode)
    let start : Walk = record { link = inode; blocks = 0; segdesg = 1; offset = 0 }
    check_segments inode ino ino.number_data 0 start
