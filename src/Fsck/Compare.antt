-- ===== src/Fsck/Compare.antt =====
-- fsckCompareBitmap of fsck/fsck.c: the bitmap on the disk is compared with the one that fsck built.
pub mod Copies
pub mod Kept
use hddchecker.Prelude.{
  ℕ, zero, suc, ◌+◌, ◌-◌, ◌*◌, ◌/◌, ◌%◌, ◌^◌, Bool, true, false, not, ◌&&◌, ◌||◌, ltb, leb, ◌==◌,
  if◌then◌else◌, RetCode, ret, err, eio, is_neg, is_zero, add32, Option, none, some,
}
use hddchecker.Fsck.Bitmap.{Cache, get_entry}
use hddchecker.Fsck.Layout.{Mount, shl}
use hddchecker.Fsck.Device.{Device}
use hddchecker.Fsck.Super.{bitmap_start}
use hddchecker.Fsck.Run.{Action, pure, io, gives_up, on_option, ◌>>=◌, ◌>>◌, prompt2, with_cache}

-- The zones of one block of the bitmap on the disk, `zsize << 3`.
abbrev pub zones_per_block : Mount → ℕ
zones_per_block m = m.zsize * 8

-- The blocks of a bitmap of `raw` zones: one more for an odd end.
abbrev pub block_number : ℕ → ℕ → ℕ
block_number raw per = raw / per + (if raw % per == 0 then 0 else 1)

-- The zones of one of them.
abbrev pub block_length : ℕ → ℕ → ℕ → ℕ
block_length raw per zone = if zone == raw / per then raw % per else per

-- pfsGetBitmapEntry, whose pointer is a buffer and a word in it, and what stands at such a pointer.
-- The code does not look whether the pointer is NULL; that run has no value.
abbrev pub get_pointer :
    {W : Type 0} → Device W → ℕ → Cache → W → Option (Option (ℕ × ℕ) × Cache × W)
get_pointer dev index c w = get_entry dev.transfer index c w

abbrev pub word_at : {W : Type 0} → ℕ → ℕ → Cache → W → Option (ℕ × Cache × W)
word_at slot at c w = some ((c.slots slot).bitmap at, c, w)

module _ {W : Type 0} (dev : Device W) where
  -- The words of a block, `n` of them from `i` on; `at` is where the built bitmap has them. The
  -- result is hasUpdate.
  pub compare_words : ℕ → ℕ → ℕ → ℕ → Bool → Action W Bool
  compare_words zero i slot at has_update = pure has_update
  compare_words (suc n) i slot at has_update = do
    raw ← io (dev.get_word i)
    built ← with_cache (word_at slot at)
    if raw == built then compare_words n (i + 1) slot (at + 1) has_update else do
      agreed ← prompt2 true
      if agreed
          then io (dev.put_word i built) >> compare_words n (i + 1) slot (at + 1) true
          else compare_words n (i + 1) slot (at + 1) has_update

  -- The block `zone` of the sub-partition `sub`. False is the end of the blocks of that one.
  pub compare_block : Mount → ℕ → ℕ → ℕ → Action W Bool
  unfolding compare_words
  compare_block m sub zone raw = do
    let per = zones_per_block m
    let words = (block_length raw per zone / 8 + 3) / 4
    let start = shl (bitmap_start m.sector_scale sub zone) m.sector_scale
    pointer ← with_cache (get_pointer dev (add32 sub (zone * per)))
    got ← io (dev.read sub start (2 ^ m.sector_scale))
    if is_neg got
        then pure false
        else on_option pointer gives_up (λ p. do
          has_update ← compare_words words 0 p.0 p.1 false
          if has_update
              then io (dev.write sub start (2 ^ m.sector_scale)) >> pure true
              else pure true)

  pub compare_blocks : Mount → ℕ → ℕ → ℕ → ℕ → Action W (Unit {0})
  unfolding compare_block
  compare_blocks m sub raw zero zone = pure tt
  compare_blocks m sub raw (suc n) zone = do
    go_on ← compare_block m sub zone raw
    if go_on then compare_blocks m sub raw n (zone + 1) else pure tt

  -- fsckCompareBitmap: sub-partitions from `sub` on. The built bitmap is read from the zone `sub` on,
  -- since the code's `offset` moves by one for each sub-partition.
  pub compare_bitmap : Mount → ℕ → ℕ → Action W (Unit {0})
  unfolding compare_blocks
  compare_bitmap m zero sub = pure tt
  compare_bitmap m (suc n) sub = do
    let raw = m.zone_sizes sub / 2 ^ m.sector_scale
    compare_blocks m sub raw (block_number raw (zones_per_block m)) 0
    compare_bitmap m n (sub + 1)
