-- ===== src/Fsck/Super/Kept.antt =====
-- CheckSuperBlock and fsckCheckBitmap of fsck/fsck.c, and what is stable.
use hddchecker.Prelude.{ℕ, zero, suc, Option, RetCode}
use hddchecker.Fsck.Layout.{Super, Mount}
use hddchecker.Fsck.Device.{Device, Pfs}
use hddchecker.Fsck.Run.{Env}
use hddchecker.Fsck.Run.Keeps.{Keeps, Stable, kept_rules}
use hddchecker.Fsck.Super.{
  restore_super, try_backup, find_super, fix_size, check_fields, overwrite_sector,
  overwrite_sectors, overwrite_block, check_bitmap_blocks, map_zones, check_bitmap, count_zones,
  map_mount, load_mount, check_super_block,
}

module _ {W : Type 0} (dev : Device W) {P : Option (Env W) → Type 0} (st : Stable P) where
  pub restore_super-Keeps : Keeps P (restore_super dev)
  unfolding restore_super
  restore_super-Keeps = search kept_rules depth 40 fits 4000

  pub try_backup-Keeps : Keeps P (try_backup dev)
  unfolding try_backup
  try_backup-Keeps = search (kept_rules, restore_super-Keeps) depth 40 fits 4000

  pub find_super-Keeps : Keeps P (find_super dev)
  unfolding find_super
  find_super-Keeps = search (kept_rules, try_backup-Keeps) depth 40 fits 4000

  pub fix_size-Keeps : (num_subs : ℕ) (super : Super) → Keeps P (fix_size dev num_subs super)
  unfolding fix_size
  fix_size-Keeps num_subs super = search kept_rules depth 40 fits 4000

  pub check_fields-Keeps :
      (num_subs : ℕ) (super : Super) → Keeps P (check_fields dev num_subs super)
  unfolding check_fields
  check_fields-Keeps num_subs super = search (kept_rules, fix_size-Keeps) depth 40 fits 4000

  pub overwrite_sector-Keeps : (sub : ℕ) (sector : ℕ) → Keeps P (overwrite_sector dev sub sector)
  unfolding overwrite_sector
  overwrite_sector-Keeps sub sector = search kept_rules depth 40 fits 4000

  pub overwrite_sectors-Keeps :
      (n : ℕ) (sub : ℕ) (sector : ℕ) (result : RetCode)
      → Keeps P (overwrite_sectors dev n sub sector result)
  unfolding overwrite_sectors
  overwrite_sectors-Keeps zero sub sector result = search kept_rules depth 40 fits 4000
  overwrite_sectors-Keeps (suc n) sub sector result =
      search (kept_rules, overwrite_sector-Keeps, overwrite_sectors-Keeps n) depth 40 fits 4000

  pub overwrite_block-Keeps :
      (scale : ℕ) (sub : ℕ) (start : ℕ) (got : RetCode)
      → Keeps P (overwrite_block dev scale sub start got)
  unfolding overwrite_block
  overwrite_block-Keeps scale sub start got =
      search (kept_rules, overwrite_sectors-Keeps) depth 40 fits 4000

  pub check_bitmap_blocks-Keeps :
      (scale : ℕ) (sub : ℕ) (n : ℕ) (block : ℕ) (result : RetCode)
      → Keeps P (check_bitmap_blocks dev scale sub n block result)
  unfolding check_bitmap_blocks
  check_bitmap_blocks-Keeps scale sub zero block result = search kept_rules depth 40 fits 4000
  check_bitmap_blocks-Keeps scale sub (suc n) block result =
      search
        (kept_rules, overwrite_block-Keeps, (λ (a : ℕ) (b : ℕ). check_bitmap_blocks-Keeps a b n))
        depth 40 fits 4000

  pub map_zones-Keeps : (n : ℕ) (sub : ℕ) (m : Mount) → Keeps P (map_zones dev n sub m)
  unfolding map_zones
  map_zones-Keeps zero sub m = search kept_rules depth 40 fits 4000
  map_zones-Keeps (suc n) sub m = search (kept_rules, map_zones-Keeps n) depth 40 fits 4000

module _ {W : Type 0} (dev : Device W) (pfs : Pfs W) {P : Option (Env W) → Type 0}
    (st : Stable P) where
  pub check_bitmap-Keeps :
      (m : Mount) (n : ℕ) (sub : ℕ) (result : RetCode)
      → Keeps P (check_bitmap dev pfs m n sub result)
  unfolding check_bitmap
  check_bitmap-Keeps m zero sub result = search kept_rules depth 40 fits 4000
  check_bitmap-Keeps m (suc n) sub result =
      search (kept_rules, check_bitmap_blocks-Keeps, (λ (a : Mount). check_bitmap-Keeps a n)) depth
        40 fits 4000

  pub count_zones-Keeps : (n : ℕ) (sub : ℕ) (m : Mount) → Keeps P (count_zones dev pfs n sub m)
  unfolding count_zones
  count_zones-Keeps zero sub m = search kept_rules depth 40 fits 4000
  count_zones-Keeps (suc n) sub m = search (kept_rules, count_zones-Keeps n) depth 40 fits 4000

  pub map_mount-Keeps : (m : Mount) → Keeps P (map_mount dev pfs m)
  unfolding map_mount
  map_mount-Keeps m =
      search (kept_rules, map_zones-Keeps, check_bitmap-Keeps, count_zones-Keeps) depth 40 fits 4000

  pub load_mount-Keeps : (super : Super) (m : Mount) → Keeps P (load_mount dev pfs super m)
  unfolding load_mount
  load_mount-Keeps super m = search (kept_rules, map_mount-Keeps) depth 40 fits 4000

  pub check_super_block-Keeps : (m : Mount) → Keeps P (check_super_block dev pfs m)
  unfolding check_super_block
  check_super_block-Keeps m =
      search (kept_rules, find_super-Keeps, check_fields-Keeps, load_mount-Keeps) depth 40 fits 4000
