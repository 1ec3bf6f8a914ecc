-- ===== src/Fsck/Super.antt =====
-- CheckSuperBlock and fsckCheckBitmap of fsck/fsck.c, with which the opening of a file system
-- begins.
pub mod Kept
pub mod Zones
use hddchecker.Prelude.{
  ℕ, zero, suc, ◌+◌, ◌-◌, ◌*◌, ◌/◌, ◌%◌, ◌^◌, Bool, true, false, not, ◌&&◌, ◌||◌, ltb, leb, ◌==◌,
  if◌then◌else◌, RetCode, ret, err, eio, einval, is_neg, is_zero, add32,
}
use Prim.Native.Nat.{bit_and}
use hddchecker.Fsck.Run.{Action, pure, io, ◌>>=◌, ◌>>◌, prompt}
use hddchecker.Fsck.Device.{Device, Pfs}
use hddchecker.Fsck.Layout.{Super, Mount, shl}

-- PFS_SUPER_MAGIC, PFS_FORMAT_VERSION, and the sectors of the super block and of its copy.
abbrev pub super_magic : ℕ
super_magic = 1346786048

abbrev pub format_version : ℕ
format_version = 3

abbrev pub super_sector : ℕ
super_sector = 8192

abbrev pub super_backup_sector : ℕ
super_backup_sector = 8193

-- The sizes of zones that fsck accepts.
abbrev pub is_zone_size : ℕ → Bool
is_zone_size z = (bit_and z (z - 1) == 0) && leb 2048 z && leb z 131072

-- BitmapStart of a block of the bitmap, in zones.
abbrev pub bitmap_start : ℕ → ℕ → ℕ → ℕ
bitmap_start scale sub block = block + 1 + (if sub == 0 then 8192 / 2 ^ scale else 0)

-- What the super block says of the mount, and the clearing of the first four of its ZoneSizes and
-- ZoneMap.
abbrev pub describe : (ℕ → ℕ → ℕ) → Super → Mount → Mount
describe scale super m = record m {
  zsize = super.zone_size;
  sector_scale = scale super.zone_size 512;
  inode_scale = scale super.zone_size 1024;
  root_sub = super.root_sub;
  root_number = super.root_number;
  log_count = super.log_count;
  total_zones = 0;
}

abbrev pub clear_zones : Mount → Mount
clear_zones m = record m {
  zone_sizes = λ i. if ltb i 4 then 0 else m.zone_sizes i;
  zone_map = λ i. if ltb i 4 then 0 else m.zone_map i;
}

-- ZoneSizes[sub] and ZoneMap[sub], in the loop that fills them.
abbrev pub map_zone : ℕ → ℕ → Mount → Mount
map_zone sub size m = record m {
  zone_sizes = λ i. if i == sub then size else m.zone_sizes i;
  zone_map = λ i.
      if (i == sub) && not (sub == 0)
      then add32 (m.zone_sizes (sub - 1) / 2 ^ m.sector_scale) (m.zone_map (sub - 1))
      else m.zone_map i;
}

abbrev pub count_zone : ℕ → ℕ → Mount → Mount
count_zone sub free m = record m {
  total_zones = add32 m.total_zones (m.zone_sizes sub / 2 ^ m.sector_scale);
  zfree = add32 m.zfree free;
}

module _ {W : Type 0} (dev : Device W) where
  -- A copy of the super block in the buffer is written back, if the user agrees.
  pub restore_super : Action W RetCode
  restore_super = do
    agreed ← prompt true
    if agreed then io (dev.write 0 super_sector 1) else pure (err eio)

  pub try_backup : Action W RetCode
  unfolding restore_super
  try_backup = do
    got ← io (dev.read 0 super_backup_sector 1)
    copy ← io dev.get_super
    if is_zero got && (copy.magic == super_magic) then restore_super else pure (err eio)

  -- The first part of CheckSuperBlock: a super block in the buffer.
  pub find_super : Action W RetCode
  unfolding try_backup
  find_super = do
    got ← io (dev.read 0 super_sector 1)
    super ← io dev.get_super
    if is_neg got || not (super.magic == super_magic) then try_backup else pure (ret 0)

  -- The size is that of the partition, if the file system claims more.
  pub fix_size : ℕ → Super → Action W RetCode
  fix_size num_subs super = do
    agreed ← prompt true
    if agreed
        then io (dev.put_super (record super { num_subs = num_subs }))
          >> io (dev.write 0 super_sector 1)
        else pure (err einval)

  -- The checks of the fields.
  pub check_fields : ℕ → Super → Action W RetCode
  unfolding fix_size
  check_fields num_subs super =
      if ltb format_version super.version
      then pure (err einval)
      else if not (is_zone_size super.zone_size)
      then pure (err einval)
      else if ltb num_subs super.num_subs
      then fix_size num_subs super
      else pure (ret 0)

  -- A sector of the bitmap that cannot be read is set to ones.
  pub overwrite_sector : ℕ → ℕ → Action W RetCode
  overwrite_sector sub sector = do io dev.fill_ones; io (dev.write sub sector 1)

  -- The sectors of one block of the bitmap; `result` is what the last of them left.
  pub overwrite_sectors : ℕ → ℕ → ℕ → RetCode → Action W RetCode
  unfolding overwrite_sector
  overwrite_sectors zero sub sector result = pure result
  overwrite_sectors (suc n) sub sector result = do
    got ← io (dev.read sub sector 1)
    put ← if is_neg got then overwrite_sector sub sector else pure result
    if is_neg put then pure put else overwrite_sectors n sub (add32 sector 1) put

  -- What follows a failed read of a block of the bitmap.
  pub overwrite_block : ℕ → ℕ → ℕ → RetCode → Action W RetCode
  unfolding overwrite_sectors
  overwrite_block scale sub start got = do
    agreed ← prompt true
    if agreed then overwrite_sectors (2 ^ scale) sub start (ret 0) else pure got

  -- The blocks of the bitmap of one sub-partition, `n` from `block` on.
  pub check_bitmap_blocks : ℕ → ℕ → ℕ → ℕ → RetCode → Action W RetCode
  unfolding overwrite_block
  check_bitmap_blocks scale sub zero block result = pure result
  check_bitmap_blocks scale sub (suc n) block result = do
    let start = shl (bitmap_start scale sub block) scale
    got ← io (dev.read sub start (2 ^ scale))
    r ← if is_neg got then overwrite_block scale sub start got else pure got
    if is_neg r then pure r else check_bitmap_blocks scale sub n (block + 1) r

  -- The loop that fills ZoneSizes and ZoneMap.
  pub map_zones : ℕ → ℕ → Mount → Action W Mount
  map_zones zero sub m = pure m
  map_zones (suc n) sub m = do
    size ← io (dev.get_size sub)
    map_zones n (sub + 1) (map_zone sub size m)

module _ {W : Type 0} (dev : Device W) (pfs : Pfs W) where
  -- fsckCheckBitmap: sub-partitions from `sub` on. An error of one ends it.
  pub check_bitmap : Mount → ℕ → ℕ → RetCode → Action W RetCode
  unfolding check_bitmap_blocks
  check_bitmap m zero sub result = pure result
  check_bitmap m (suc n) sub result = do
    let blocks = pfs.bitmap_blocks m.sector_scale (m.zone_sizes sub)
    r ← check_bitmap_blocks dev m.sector_scale sub blocks 0 result
    if is_neg r then pure r else check_bitmap m n (sub + 1) r

  -- The loop that adds up the zones.
  pub count_zones : ℕ → ℕ → Mount → Action W Mount
  count_zones zero sub m = pure m
  count_zones (suc n) sub m = do
    free ← io (pfs.calc_free_zones m sub)
    count_zones n (sub + 1) (count_zone sub free m)

  pub map_mount : Mount → Action W (RetCode × Mount)
  unfolding check_bitmap map_zones count_zones
  map_mount m = do
    m1 ← map_zones dev (m.num_subs + 1) 0 (clear_zones m)
    r ← check_bitmap m1 (m1.num_subs + 1) 0 (ret 0)
    if is_neg r then pure (r, m1) else do m2 ← count_zones (m1.num_subs + 1) 0 m1; pure (r, m2)

  -- The last part of CheckSuperBlock.
  pub load_mount : Super → Mount → Action W (RetCode × Mount)
  unfolding map_mount
  load_mount super m = do
    let m0 = describe pfs.scale super m
    log ← io (pfs.restore_journal m0)
    if is_neg log then pure (log, m0) else map_mount m0

  -- CheckSuperBlock of a mount that has its device.
  pub check_super_block : Mount → Action W (RetCode × Mount)
  unfolding find_super check_fields load_mount
  check_super_block m = do
    num_subs ← io dev.get_sub_number
    let m0 : Mount = record m { num_subs = num_subs }
    found ← find_super dev
    super ← io dev.get_super
    if is_neg found then pure (found, m0) else do
      checked ← check_fields dev num_subs super
      if is_neg checked then pure (checked, m0) else load_mount super m0
