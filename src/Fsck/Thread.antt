-- ===== src/Fsck/Thread.antt =====
-- FsckThread of fsck/fsck.c: the scan of a file system, in the order of its parts.
pub mod Kept
pub mod ReadOnly
use hddchecker.Prelude.{
  ℕ, zero, suc, ◌+◌, ◌-◌, ◌*◌, ◌/◌, ◌%◌, Bool, true, false, not, ◌&&◌, ◌||◌, ◌==◌, if◌then◌else◌,
  RetCode, ret, err, is_neg, is_zero, Option, none, some, List,
}
use hddchecker.Fsck.Prompts.{Key, Session, check_attribute}
use hddchecker.Fsck.Layout.{Super, Mount}
use hddchecker.Fsck.Device.{Device, Pfs}
use hddchecker.Fsck.Super.{super_sector}
use hddchecker.Fsck.Files.{check_root, check_files, add_directory, max_path_levels}
use hddchecker.Fsck.Compare.{compare_bitmap}
use hddchecker.Fsck.Run.{
  Env, Action, pure, io, on_option, ◌>>=◌, ◌>>◌, has_error, fixed_count, set_status, stopped,
  clear_part_error, set_event,
}

-- PFS_FSCK_STAT_WRITE_ERROR and PFS_FSCK_STAT_ERRORS_FIXED, which are single bits, the lowest two.
abbrev pub has_write_error : ℕ → Bool
has_write_error stat = stat % 2 == 1

abbrev pub without_write_error : ℕ → ℕ
without_write_error stat = stat / 2 * 2

abbrev pub with_errors_fixed : ℕ → ℕ
with_errors_fixed stat = if stat / 2 % 2 == 1 then stat else stat + 2

-- IO_BUFFER_SIZE
abbrev pub buffer_sectors : ℕ
buffer_sectors = 256

abbrev pub attribute_checked :
    {W : Type 0} → Env W → Option (RetCode × Session × List Key × W) → Option (RetCode × Env W)
attribute_checked s none = none
attribute_checked s (some (r, c, ks, w)) = some (r, record s { session = c; keys = ks; world = w })

module _ {W : Type 0} (dev : Device W) (pfs : Pfs W) (m : Mount) where
  -- fsckCheckExtendedAttribute of the run.
  pub attribute_part : Action W RetCode
  attribute_part s =
      attribute_checked s (check_attribute dev.attribute buffer_sectors s.session s.keys s.world)

  -- A change of the super block's state of the checker, where the super block can be read.
  pub change_stat : (ℕ → Bool) → (ℕ → ℕ) → Action W (Unit {0})
  change_stat wanted change = do
    got ← io (dev.read 0 super_sector 1)
    super ← io dev.get_super
    if is_zero got && wanted super.fsck_stat
        then io (dev.put_super (record super { fsck_stat = change super.fsck_stat }))
          >> io (dev.write 0 super_sector 1)
          >> pure tt
        else pure tt

  -- The clearing of the partition's error, of a run without errors.
  pub clear_errors : Action W (Unit {0})
  unfolding change_stat
  clear_errors = do
    failed ← has_error
    stop ← stopped
    if failed || stop then pure tt else do
      change_stat has_write_error without_write_error
      clear_part_error dev.clear_part_error

  -- The comparison of the bitmaps, and what follows it, of a run without errors so far.
  pub compare_part : Action W (Unit {0})
  unfolding clear_errors
  compare_part = do
    failed ← has_error
    if failed then pure tt else do
      stop ← stopped
      if stop then pure tt else compare_bitmap dev m (m.num_subs + 1) 0
      clear_errors

  pub note_fixes : Action W (Unit {0})
  unfolding change_stat
  note_fixes = do
    fixed ← fixed_count
    if fixed == 0 then pure tt else change_stat (λ stat. true) with_errors_fixed

  -- What follows the extended attribute: the root directory and all files.
  pub scan_files : Action W (Unit {0})
  unfolding compare_part note_fixes
  scan_files = do
    root ← check_root dev pfs m
    on_option root (pure tt) (λ link. do
      set_status add_directory
      check_files dev pfs m max_path_levels link link
      io pfs.flush_dirty
      io (pfs.free link)
      compare_part
      note_fixes
      io dev.flush_cache)

  -- FsckThread
  pub thread : Action W (Unit {0})
  unfolding attribute_part scan_files
  thread = do r ← attribute_part; if is_neg r then pure tt else scan_files; set_event
