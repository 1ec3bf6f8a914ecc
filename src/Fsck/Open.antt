-- ===== src/Fsck/Open.antt =====
-- FsckOpen and FsckClose of fsck/fsck.c.
pub mod Opening
use hddchecker.Prelude.{
  ℕ, zero, suc, ◌+◌, ◌-◌, ◌*◌, ◌/◌, ◌%◌, ◌^◌, Bool, true, false, not, ◌&&◌, ◌||◌, ltb, ◌==◌,
  if◌then◌else◌, RetCode, ret, err, eio, enxio, einval, ebusy, is_neg, is_zero, add32, sub32,
  Option, none, some,
}
use hddchecker.Fsck.Bitmap.{part_init}
use hddchecker.Fsck.Zones.{check_zones}
use hddchecker.Fsck.Prompts.{Session}
use hddchecker.Fsck.Layout.{Mount}
use hddchecker.Fsck.Device.{Device, Pfs, Kernel}
use hddchecker.Fsck.Super.{check_super_block}
use hddchecker.Fsck.Run.{
  Env, Action, Status, pure, io, gives_up, ◌>>=◌, ◌>>◌, set_status, get_status, with_cache,
}

-- FSCK_MODE_WRITE and FSCK_MODE_AUTO
abbrev pub mode_write : ℕ → Bool
mode_write mode = mode % 2 == 1

abbrev pub mode_auto : ℕ → Bool
mode_auto mode = mode / 2 % 2 == 1

-- `memset(&fsckRuntimeData, 0, ...)`, and the modes of the next run.
abbrev pub clear_counts : Session → Session
clear_counts c = record c { errors = 0; fixed = 0; has_error = false }

abbrev pub no_status : Status
no_status = record { zone_used = 0; block_count = 0; files = 0; directories = 0; level = 0 }

abbrev pub no_mount : Mount → Mount
no_mount m = record m {
  num_subs = 0;
  zsize = 0;
  sector_scale = 0;
  inode_scale = 0;
  root_sub = 0;
  root_number = 0;
  log_count = 0;
  total_zones = 0;
  zfree = 0;
}

module _ {W : Type 0} where
  pub set_modes : ℕ → Action W (Unit {0})
  set_modes mode s =
      let c : Session = record s.session {
        write_enabled = mode_write mode;
        auto_mode = mode_auto mode;
      } in
      some (tt, record s { session = c })

  pub get_fd : Action W ℕ
  get_fd s = some (s.fd, s)

  pub keep_fd : ℕ → Action W (Unit {0})
  keep_fd fd s = some (tt, record s { fd = fd })

  pub get_mount : Action W Mount
  get_mount s = some (s.mount, s)

  pub set_mount : Mount → Action W (Unit {0})
  set_mount m s = some (tt, record s { mount = m })

  -- The counts and stopFlag are those of a new run.
  pub clear_runtime : Action W (Unit {0})
  clear_runtime s =
      some
        (tt, record s { session = clear_counts s.session; status = no_status; is_stopped = false })

  -- The result of open, where it is a file.
  pub on_fd : RetCode → (ℕ → Action W RetCode) → Action W RetCode
  on_fd (err e) f = pure (err e)
  on_fd (ret n) f = f n

module _ {W : Type 0} (dev : Device W) (pfs : Pfs W) (kernel : Kernel W) where
  -- The zones at the start of a sub-partition that hold its bitmap, the super block and the log.
  abbrev pub reserved_zones : Mount → ℕ → ℕ
  reserved_zones m sub =
      let blocks = pfs.bitmap_blocks m.sector_scale (m.zone_sizes sub) + 1 in
      if sub == 0 then blocks + (8192 / 2 ^ m.sector_scale + m.log_count) else blocks

  abbrev pub add_reserved : ℕ → Status → Status
  add_reserved n st = record st { block_count = add32 st.block_count n }

  -- The loop of FsckOpen, which an error of fsckCheckZones ends, without a word of it.
  pub reserve : Mount → ℕ → ℕ → Action W (Unit {0})
  reserve m zero sub = pure tt
  reserve m (suc n) sub = do
    let count = reserved_zones m sub
    r ← with_cache (check_zones dev.transfer (m.zone_map sub) count)
    if is_neg r then pure tt else set_status (add_reserved count) >> reserve m n (sub + 1)

  abbrev pub set_used : Mount → Status → Status
  set_used m st = record st { zone_used = sub32 m.total_zones m.zfree }

  -- The last part of FsckOpen. An error leaves the partition's file open.
  pub begin_run : Mount → Action W RetCode
  unfolding reserve clear_runtime
  begin_run m = do
    r ← with_cache (λ c w. some (part_init dev.transfer m.total_zones c w))
    if is_neg r
        then keep_fd 0 >> pure r
        else do clear_runtime; set_status (set_used m); reserve m (m.num_subs + 1) 0; pure (ret 0)

  -- The part of FsckOpen that has the partition's file.
  pub open_mount : ℕ → Action W RetCode
  unfolding begin_run
  open_mount fd = do
    old ← get_mount
    keep_fd fd
    done ← check_super_block dev pfs (no_mount old)
    set_mount done.1
    if is_neg done.0 then keep_fd 0 >> pure done.0 else begin_run done.1

  pub open_partition : Action W RetCode
  unfolding open_mount
  open_partition = do
    stat ← io kernel.get_type
    if is_neg stat.0
        then pure stat.0
        else if not (stat.1 == kernel.type_pfs)
        then pure (err einval)
        else do
          known ← io kernel.has_device
          if not known then pure (err enxio) else do fd ← io kernel.open_file; on_fd fd open_mount

  -- FsckOpen
  pub open_fsck : ℕ → Action W RetCode
  unfolding open_partition
  open_fsck mode = do
    set_modes mode
    fd ← get_fd
    if not (fd == 0) then pure (err ebusy) else open_partition

  -- FsckClose
  pub close_fsck : Action W RetCode
  close_fsck = do
    fd ← get_fd
    m ← get_mount
    io (kernel.close_file fd)
    io pfs.close_cache
    keep_fd 0
    set_mount (no_mount m)
    pure (ret 0)
