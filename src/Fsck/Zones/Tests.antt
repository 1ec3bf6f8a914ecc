-- ===== src/Fsck/Zones/Tests.antt =====
-- Runs of fsckCheckZones over the bitmap in which zone 3 is set.
use hddchecker.Prelude.{
  ℕ, ◌+◌, ◌≤◌, ◌<◌, ◌≡◌, refl, true, false, ◌&&◌, Option, none, some, arith, ltb, leb,
  if◌then◌else◌, RetCode, ret, err, eio,
}
use hddchecker.Fsck.Bitmap.{Words, Cache, read, release, take_slot, unlink}
use hddchecker.Fsck.Bitmap.Coherence.{IsCoherent}
use hddchecker.Fsck.Samples.{
  Disk, disk, broken, stored, disk_laws, empty_disk, clean_cache, marked_bitmap, marked_cache,
  marked-IsCoherent, clean-IsIdle,
}
use hddchecker.Fsck.Zones.{
  check_zones, check_blocks, mark_words, mark_bits, store, set_bit, test_bit,
}
use hddchecker.Fsck.Zones.Check.{zone_set}
use hddchecker.Fsck.Zones.Range.{check_zones_marks, check_zones_overlap}
use hddchecker.Fsck.Zones.Release.{Leaves, check_zones_total}

abbrev outcome : Option (RetCode × Cache × Disk) → RetCode × Cache × Disk
outcome none = (err eio, clean_cache, empty_disk)
outcome (some r) = r

-- Zones 30 to 34 are clear.
abbrev clear_run : RetCode × Cache × Disk
clear_run = outcome (check_zones disk 30 5 marked_cache empty_disk)

clear_run_lem :
    check_zones disk 30 5 marked_cache empty_disk ≡ some (ret 0, clear_run.1, clear_run.2)
unfolding check_zones check_blocks mark_words mark_bits store set_bit test_bit read release
    take_slot unlink
clear_run_lem = refl

check_zones_marks_example :
    (f' : ℕ → Words) × IsCoherent stored f' clear_run.1 clear_run.2
    × ((z : ℕ)
        → zone_set f' z ≡ (if leb 30 z && ltb z (30 + 5) then true else zone_set marked_bitmap z))
    × ((z : ℕ) → 30 ≤ z → z < 30 + 5 → zone_set marked_bitmap z ≡ false)
check_zones_marks_example =
    check_zones_marks stored disk disk_laws marked_bitmap 30 5 marked_cache empty_disk
      marked-IsCoherent (omega arith) (omega arith) clear_run.1 clear_run.2 clear_run_lem

-- Zone 3 is in the range 1 to 5.
abbrev overlap_run : RetCode × Cache × Disk
overlap_run = outcome (check_zones disk 1 5 marked_cache empty_disk)

overlap_run_lem :
    check_zones disk 1 5 marked_cache empty_disk ≡ some (ret 1, overlap_run.1, overlap_run.2)
unfolding check_zones check_blocks mark_words mark_bits store set_bit test_bit read release
    take_slot unlink
overlap_run_lem = refl

check_zones_overlap_example :
    (f' : ℕ → Words) × (k : ℕ) × IsCoherent stored f' overlap_run.1 overlap_run.2
    × ((z : ℕ)
        → zone_set f' z ≡ (if leb 1 z && ltb z (1 + k) then true else zone_set marked_bitmap z))
    × ((z : ℕ) → 1 ≤ z → z < 1 + k → zone_set marked_bitmap z ≡ false)
    × (k < 5)
    × (zone_set marked_bitmap (1 + k) ≡ true)
check_zones_overlap_example =
    check_zones_overlap stored disk disk_laws marked_bitmap 1 5 marked_cache empty_disk
      marked-IsCoherent (omega arith) (omega arith) overlap_run.1 overlap_run.2 overlap_run_lem

check_zones_total_example :
    (r : RetCode) × (c' : Cache) × (w' : Disk) × (check_zones broken 30 5 clean_cache empty_disk
      ≡ some (r, c', w'))
    × Leaves r c'
check_zones_total_example = check_zones_total broken 30 5 clean_cache empty_disk clean-IsIdle
