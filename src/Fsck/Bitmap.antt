-- ===== src/Fsck/Bitmap.antt =====
-- fsck/bitmap.c: the zone bitmap that fsck builds while it scans, kept on the disk in blocks of 256
-- sectors and cached in four buffers. `Transfer` is the block device behind ioctl2(HIOCTRANSFER).
-- The intrusive list of free buffers is the list of their numbers, its head first.
pub mod Coherence
pub mod Counts
pub mod Entry
pub mod Reads
mod Tests
use hddchecker.Prelude.{
  ℕ, zero, suc, ◌+◌, ◌-◌, ◌*◌, ◌/◌, ◌%◌, Bool, true, false, Option, none, some, List, [], ◌∷◌, ◌++◌,
  ltb, leb, ◌==◌, if◌then◌else◌, RetCode, ret, err, enomem, is_neg, u32_mod,
}

-- The 32768 words of a block.
abbrev pub Words : Type 0
Words = ℕ → ℕ

-- pfs_bitmap_t, less its links.
pub record Slot : Type 0 where
  pub is_dirty : Bool
  pub nused : ℕ
  pub index : ℕ
  pub bitmap : Words

-- The device: what a read leaves in the buffer, and what a write does, at a sector number.
pub record Transfer (W : Type 0) : Type 0 where
  pub read : ℕ → Words → W → RetCode × Words × W
  pub write : ℕ → Words → W → RetCode × W

-- pfsBitmapData: the buffers 1 to 4, and the list that hangs on entry 0.
pub record Cache : Type 0 where
  pub slots : ℕ → Slot
  pub free : List ℕ

abbrev pub num_bitmap_entries : ℕ
num_bitmap_entries = 5

abbrev pub update : (ℕ → Slot) → ℕ → Slot → ℕ → Slot
update slots i s j = if j == i then s else slots j

-- pfsCacheUnLink
unfoldable pub unlink : ℕ → List ℕ → List ℕ
unlink i [] = []
unlink i (j ∷ js) = if j == i then js else j ∷ unlink i js

-- `index << 8`
abbrev pub block_sector : ℕ → ℕ
block_sector index = index * 256 % u32_mod

-- The loop of pfsBitmapRead over the buffers.
abbrev pub find_from : ℕ → ℕ → ℕ → (ℕ → Slot) → Option ℕ
find_from zero i index slots = none
find_from (suc n) i index slots =
    if (slots i).index == index then some i else find_from n (i + 1) index slots

abbrev pub find_slot : ℕ → (ℕ → Slot) → Option ℕ
find_slot index slots = find_from 4 1 index slots

-- The hit of pfsBitmapRead.
unfoldable pub take_slot : ℕ → Cache → Cache
take_slot i c =
    let s : Slot = record (c.slots i) { nused = ((c.slots i).nused + 1) % 65536 } in
    record {
      slots = update c.slots i s;
      free = if (c.slots i).nused == 0 then unlink i c.free else c.free;
    }

-- pfsBitmapFree
unfoldable pub release : ℕ → Cache → Cache
release i c =
    let n = (c.slots i).nused in
    let s : Slot = record (c.slots i) { nused = n - 1 } in
    if n == 0 then c else record {
      slots = update c.slots i s;
      free = if n - 1 == 0 then c.free ++ i ∷ [] else c.free;
    }

-- The first loop of pfsBitmapPartInit.
abbrev pub blank_slots : ℕ → Slot
blank_slots i = record { is_dirty = false; nused = 0; index = i - 1; bitmap = λ x. 0 }

-- The blocks that pfsBitmapPartInit reckons for `size` zones.
pub bitmap_count : ℕ → ℕ
bitmap_count size = size / 1048576 + (if ltb 0 (size / 8 % 131072) then 1 else 0)

pub renumber : ℕ → ℕ → Cache → Cache
renumber index i c =
    let s : Slot = record (c.slots i) { index = index; is_dirty = false; nused = 1 } in
    record c { slots = update c.slots i s }

module _ {W : Type 0} (t : Transfer W) where
  -- pfsBitmapTransfer in its two modes; the buffer is clean once the transfer is done.
  pub transfer_read : ℕ → Cache → W → RetCode × Cache × W
  transfer_read i c w =
      let got = t.read (block_sector (c.slots i).index) (c.slots i).bitmap w in
      let dirty = if is_neg got.0 then (c.slots i).is_dirty else false in
      let s : Slot = record (c.slots i) { is_dirty = dirty; bitmap = got.1 } in
      (got.0, record c { slots = update c.slots i s }, got.2)

  pub transfer_write : ℕ → Cache → W → RetCode × Cache × W
  transfer_write i c w =
      let got = t.write (block_sector (c.slots i).index) (c.slots i).bitmap w in
      let dirty = if is_neg got.0 then (c.slots i).is_dirty else false in
      let s : Slot = record (c.slots i) { is_dirty = dirty } in
      (got.0, record c { slots = update c.slots i s }, got.1)

  -- The end of its miss: the buffer `i`, written back if it was dirty, is renumbered and filled.
  pub fill_slot : ℕ → ℕ → Cache → W → Option ℕ × Cache × W
  fill_slot index i c w =
      let done = transfer_read i (renumber index i c) w in
      if is_neg done.0
      then (none, done.1, done.2)
      else (some i, record done.1 { free = unlink i (done.1).free }, done.2)

  pub evict_slot : ℕ → ℕ → Cache → W → Option ℕ × Cache × W
  evict_slot index i c w =
      let done = transfer_write i c w in
      if (c.slots i).is_dirty
      then if is_neg done.0 then (none, done.1, done.2) else fill_slot index i done.1 done.2
      else fill_slot index i c w

  -- pfsBitmapRead: the buffer's number, or none for NULL. With no free buffer the code takes the
  -- list's own head, which has no bitmap, for a buffer; that run is the outer none.
  unfoldable pub read : ℕ → Cache → W → Option (Option ℕ × Cache × W)
  read index c w = elim (find_slot index c.slots) [
    | some i ↦ some (some i, take_slot i c, w)
    | none ↦ elim c.free [ [] ↦ none | i ∷ rest ↦ some (evict_slot index i c w) ]
  ]

  -- pfsGetBitmapEntry: the word that holds the bit of a zone, with the buffer and the offset that
  -- the returned pointer stands for. The buffer is released before the pointer is used.
  pub get_entry : ℕ → Cache → W → Option (Option (ℕ × ℕ) × Cache × W)
  get_entry index c w = elim (read (index / 1048576) c w) [
    | none ↦ none
    | some (none, c', w') ↦ some (none, c', w')
    | some (some i, c', w') ↦ some (some (i, index / 32 % 32768), release i c', w')
  ]

  -- Its loop over the buffers, from `i`, and its loop over the further blocks, which renumbers the
  -- last buffer.
  pub write_slots : ℕ → ℕ → Cache → W → RetCode × Cache × W
  unfolding transfer_write
  write_slots zero i c w = (ret 0, c, w)
  write_slots (suc n) i c w =
      let done = transfer_write i c w in
      let rest = write_slots n (i + 1) done.1 done.2 in if is_neg done.0 then done else rest

  pub write_blocks : ℕ → ℕ → Cache → W → RetCode × Cache × W
  unfolding transfer_write
  write_blocks zero i c w = (ret 0, c, w)
  write_blocks (suc n) i c w =
      let s : Slot = record (c.slots 4) { index = i } in
      let done = transfer_write 4 (record c { slots = update c.slots 4 s }) w in
      let rest = write_blocks n (i + 1) done.1 done.2 in if is_neg done.0 then done else rest

  pub part_init : ℕ → Cache → W → RetCode × Cache × W
  unfolding bitmap_count write_slots write_blocks
  part_init size c w =
      let count = bitmap_count size in
      let c1 : Cache = record c { slots = λ i. if leb 1 i then blank_slots i else c.slots i } in
      let four = write_slots 4 1 c1 w in
      if leb num_bitmap_entries count
      then if is_neg four.0 then four else write_blocks (count - 4) 4 four.1 four.2
      else (ret 0, c1, w)

-- pfsBitmapInit: the results of opening the MBR partition and of the two allocations decide.
pub init : RetCode → Bool → Bool → (ℕ → Words) → RetCode × Option Cache
init opened buffer entries old =
    if is_neg opened
    then (opened, none)
    else if buffer
    then if entries
      then (
        ret 0,
        some (record {
          slots = λ i. record { is_dirty = false; nused = 0; index = 0; bitmap = old i };
          free = 1 ∷ 2 ∷ 3 ∷ 4 ∷ [];
        }),
      )
      else (err enomem, none)
    else (err enomem, none)
