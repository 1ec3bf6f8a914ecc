-- ===== src/Fsck/FileBitmap/Kept.antt =====
-- fsckCheckFileBitmap of fsck/fsck.c, and what is stable.
use hddchecker.Prelude.{ℕ, zero, suc, Option, none}
use hddchecker.Fsck.Layout.{Mount, BlockInfo}
use hddchecker.Fsck.Device.{Pfs}
use hddchecker.Fsck.Run.{Env}
use hddchecker.Fsck.Run.Keeps.{Keeps, Stable, kept_rules}
use hddchecker.Fsck.FileBitmap.{mark_bit, file_bits, file_words, file_chunks, check_file_bitmap}

module _ {W : Type 0} (pfs : Pfs W) {P : Option (Env W) → Type 0} (st : Stable P) where
  pub mark_bit-Keeps :
      (link : ℕ) (word : ℕ) (index : ℕ) (bit : ℕ) → Keeps P (mark_bit pfs link word index bit)
  unfolding mark_bit
  mark_bit-Keeps link word index bit = search kept_rules depth 40 fits 4000

  pub file_bits-Keeps :
      (n : ℕ) (link : ℕ) (index : ℕ) (bit : ℕ) (remaining : ℕ)
      → Keeps P (file_bits pfs n link index bit remaining)
  unfolding file_bits
  file_bits-Keeps zero link index bit remaining = search kept_rules depth 40 fits 4000
  file_bits-Keeps (suc n) link index bit zero = search kept_rules depth 40 fits 4000
  file_bits-Keeps (suc n) link index bit (suc remaining) =
      search (kept_rules, mark_bit-Keeps, file_bits-Keeps n) depth 40 fits 4000

  pub file_words-Keeps :
      (n : ℕ) (link : ℕ) (index : ℕ) (bit : ℕ) (remaining : ℕ)
      → Keeps P (file_words pfs n link index bit remaining)
  unfolding file_words
  file_words-Keeps zero link index bit remaining = search kept_rules depth 40 fits 4000
  file_words-Keeps (suc n) link index bit zero = search kept_rules depth 40 fits 4000
  file_words-Keeps (suc n) link index bit (suc remaining) =
      search (kept_rules, file_bits-Keeps, file_words-Keeps n) depth 40 fits 4000

module _ {W : Type 0} (pfs : Pfs W) {P : Option (Env W) → Type 0} (st : Stable P)
    (ends : P none) where
  pub file_chunks-Keeps :
      (fuel : ℕ) (m : Mount) (sub : ℕ) (chunk : ℕ) (index : ℕ) (bit : ℕ) (remaining : ℕ)
      → Keeps P (file_chunks pfs fuel m sub chunk index bit remaining)
  unfolding file_chunks
  file_chunks-Keeps zero m sub chunk index bit remaining = search kept_rules depth 40 fits 4000
  file_chunks-Keeps (suc fuel) m sub chunk index bit zero = search kept_rules depth 40 fits 4000
  file_chunks-Keeps (suc fuel) m sub chunk index bit (suc remaining) =
      search (kept_rules, file_words-Keeps, file_chunks-Keeps fuel) depth 40 fits 4000

  pub check_file_bitmap-Keeps :
      (m : Mount) (block : BlockInfo) → Keeps P (check_file_bitmap pfs m block)
  unfolding check_file_bitmap
  check_file_bitmap-Keeps m block = search (kept_rules, file_chunks-Keeps) depth 40 fits 4000
