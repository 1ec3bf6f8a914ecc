-- ===== src/Fsck/FileBitmap.antt =====
-- fsckCheckFileBitmap of fsck/fsck.c: the zones of a file must be marked in the bitmap that the file
-- system has on the disk. What a loop leaves is the number of zones that remain, or none where the
-- user refused.
pub mod Ending
pub mod Kept
use hddchecker.Prelude.{
  ℕ, zero, suc, ◌+◌, ◌-◌, Bool, true, false, ◌==◌, if◌then◌else◌, RetCode, ret, err, einval, is_neg,
  Option, none, some,
}
use hddchecker.Fsck.Zones.{test_bit, set_bit}
use hddchecker.Fsck.Layout.{Mount, BlockInfo, BitmapInfo}
use hddchecker.Fsck.Device.{Pfs}
use hddchecker.Fsck.Run.{Action, pure, io, gives_up, on_option, ◌>>=◌, ◌>>◌, prompt}

module _ {W : Type 0} (pfs : Pfs W) where
  -- A zone that is not marked: marked now, if the user agrees.
  pub mark_bit : ℕ → ℕ → ℕ → ℕ → Action W Bool
  mark_bit link word index bit = do
    agreed ← prompt true
    if agreed
        then io (pfs.put_bits link index (set_bit word bit))
          >> io (pfs.mark_dirty link)
          >> pure true
        else pure false

  -- The innermost loop, with the number of bits to the end of the word.
  pub file_bits : ℕ → ℕ → ℕ → ℕ → ℕ → Action W (Option ℕ)
  unfolding mark_bit
  file_bits zero link index bit remaining = pure (some remaining)
  file_bits (suc n) link index bit zero = pure (some zero)
  file_bits (suc n) link index bit (suc remaining) = do
    word ← io (pfs.get_bits link index)
    fine ← if test_bit word bit then pure true else mark_bit link word index bit
    if fine then file_bits n link index (bit + 1) remaining else pure none

  -- The loop over the words of a chunk, `n` of them to its end.
  pub file_words : ℕ → ℕ → ℕ → ℕ → ℕ → Action W (Option ℕ)
  unfolding file_bits
  file_words zero link index bit remaining = pure (some remaining)
  file_words (suc n) link index bit zero = pure (some zero)
  file_words (suc n) link index bit (suc remaining) = do
    scan ← file_bits (32 - bit) link index bit (suc remaining)
    on_option scan (pure none) (file_words n link (index + 1) 0)

  -- The loop over the chunks of 256 words. The return in the middle of it keeps the buffer.
  pub file_chunks : ℕ → Mount → ℕ → ℕ → ℕ → ℕ → ℕ → Action W RetCode
  unfolding file_words
  file_chunks zero m sub chunk index bit remaining = gives_up
  file_chunks (suc fuel) m sub chunk index bit zero = pure (ret 0)
  file_chunks (suc fuel) m sub chunk index bit (suc remaining) = do
    got ← io (pfs.bitmap_chunk sub chunk)
    on_option got (pure (ret 0)) (λ link. do
      scan ← file_words (256 - index) link index bit (suc remaining)
      on_option scan (pure (err einval))
          (λ rest. do io (pfs.free link); file_chunks fuel m sub (chunk + 1) 0 0 rest))

  -- fsckCheckFileBitmap: each chunk takes at least one zone off the count.
  pub check_file_bitmap : Mount → BlockInfo → Action W RetCode
  unfolding file_chunks
  check_file_bitmap m block =
      let info = pfs.setup_info m block.subpart block.number in
      file_chunks (suc block.count) m block.subpart info.chunk info.index info.bit block.count
