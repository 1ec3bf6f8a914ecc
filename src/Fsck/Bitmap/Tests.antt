-- ===== src/Fsck/Bitmap/Tests.antt =====
-- Runs of the bitmap's cache on a small device.
use hddchecker.Prelude.{◌<◌, ◌≡◌, refl, true, false, some, arith, RetCode, is_neg, ◌/◌, ◌%◌}
use hddchecker.Fsck.Bitmap.{
  Cache, renumber, transfer_read, transfer_write, take_slot, fill_slot, evict_slot, read, unlink,
  get_entry, release,
}
use hddchecker.Fsck.Bitmap.Entry.{get_entry_points}
use hddchecker.Fsck.Bitmap.Coherence.{IsCoherent, has, read-IsCoherent}
use hddchecker.Fsck.Bitmap.Reads.{read_spares_used}
use hddchecker.Fsck.Samples.{
  Disk, disk, broken, stored, disk_laws, empty_disk, clean_cache, marked_bitmap, marked_cache,
  marked-IsCoherent,
}

-- Block 0 is in buffer 1.
abbrev hit_cache : Cache
hit_cache = take_slot 1 marked_cache

hit_run : read disk 0 marked_cache empty_disk ≡ some (some 1, hit_cache, empty_disk)
unfolding read
hit_run = refl

-- Block 7 is in no buffer; buffer 1 is dirty, and is written back first.
abbrev written : RetCode × Cache × Disk
written = transfer_write disk 1 marked_cache empty_disk

abbrev filled : RetCode × Cache × Disk
filled = transfer_read disk 1 (renumber 7 1 written.1) written.2

abbrev miss_cache : Cache
miss_cache = record filled.1 { free = unlink 1 (filled.1).free }

miss_run : read disk 7 marked_cache empty_disk ≡ some (some 1, miss_cache, filled.2)
unfolding read evict_slot fill_slot transfer_read transfer_write renumber
miss_run = refl

read-IsCoherent_example :
    IsCoherent stored marked_bitmap miss_cache filled.2
    × ((miss_cache.slots 1).index ≡ 7)
    × ((miss_cache.slots 1).bitmap 0 ≡ marked_bitmap 7 0)
read-IsCoherent_example =
    read-IsCoherent stored marked_bitmap disk 7 marked_cache miss_cache empty_disk filled.2 1
      disk_laws (omega arith) marked-IsCoherent miss_run 0

-- Buffer 1 is in use while block 7 is read.
abbrev next_written : Cache
next_written = (transfer_read disk 2 (renumber 7 2 hit_cache) empty_disk).1

next_run :
    read disk 7 hit_cache empty_disk
    ≡ some (some 2, record next_written { free = unlink 2 next_written.free }, empty_disk)
unfolding read evict_slot fill_slot transfer_read transfer_write renumber take_slot unlink
next_run = refl

used : has 1 hit_cache.free ≡ false
unfolding take_slot unlink
used = refl

read_spares_used_example :
    let c' : Cache = record next_written { free = unlink 2 next_written.free } in
    ((c'.slots 1).index ≡ (hit_cache.slots 1).index)
    × ((c'.slots 1).bitmap ≡ (hit_cache.slots 1).bitmap)
read_spares_used_example =
    read_spares_used disk 1 7 hit_cache (record next_written { free = unlink 2 next_written.free })
      empty_disk empty_disk (some 2) used next_run

fails : is_neg (transfer_read broken 1 (renumber 7 1 clean_cache) empty_disk).0 ≡ true
unfolding transfer_read
fails = refl

entry_run :
    get_entry disk 3 marked_cache empty_disk ≡ some (some (1, 0), release 1 hit_cache, empty_disk)
unfolding get_entry read
entry_run = refl

get_entry_points_example :
    IsCoherent stored marked_bitmap (release 1 hit_cache) empty_disk
    × (0 < 32768)
    × (((release 1 hit_cache).slots 1).bitmap 0 ≡ marked_bitmap (3 / 1048576) (3 / 32 % 32768))
get_entry_points_example =
    get_entry_points stored marked_bitmap disk 3 1 0 marked_cache (release 1 hit_cache) empty_disk
      empty_disk disk_laws (omega arith) marked-IsCoherent entry_run
