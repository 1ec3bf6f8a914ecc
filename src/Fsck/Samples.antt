-- ===== src/Fsck/Samples.antt =====
-- A device that keeps blocks, one that fails, and buffers as pfsBitmapPartInit leaves them.
pub mod Drive
use hddchecker.Prelude.{
  ℕ, ◌*◌, ◌/◌, ◌%◌, ◌≡◌, refl, true, ◌&&◌, [], ◌∷◌, arith, ◌==◌, if◌then◌else◌, ret, err, eio,
}
use hddchecker.Fsck.Bitmap.{Words, Slot, Transfer, Cache, blank_slots}
use hddchecker.Fsck.Bitmap.Coherence.{TransferLaws, IsCoherent}
use hddchecker.Fsck.Bitmap.Counts.{IsIdle}

abbrev pub Disk : Type 0
Disk = ℕ → Words

abbrev pub disk : Transfer Disk
disk = record {
  read = λ s old w. (ret 0, w (s / 256), w);
  write = λ s new w. (ret 0, λ b. if b == s / 256 then new else w b);
}

abbrev pub broken : Transfer Disk
broken = record { read = λ s old w. (err eio, old, w); write = λ s new w. (err eio, w) }

abbrev pub stored : Disk → ℕ → ℕ → ℕ
stored w b x = w b x

pub disk_laws : TransferLaws disk stored
disk_laws = record {
  reads = λ b x old w h ok. let same : b * 256 % 4294967296 / 256 ≡ b = omega arith in rw same refl;
  read_keeps = λ b s x old w. refl;
  writes = λ b b' x new w h h' ok.
      let same : b * 256 % 4294967296 / 256 ≡ b = omega arith in rw same (ground arith);
}

abbrev pub empty_disk : Disk
empty_disk b x = 0

abbrev pub clean_cache : Cache
clean_cache = record { slots = blank_slots; free = 1 ∷ 2 ∷ 3 ∷ 4 ∷ [] }

pub clean-IsCoherent : IsCoherent stored empty_disk clean_cache empty_disk
clean-IsCoherent = record {
  unique = λ i j p q p' q' e. omega arith;
  small = λ i p q. omega arith;
  cached = λ i x p q. refl;
  stored = λ b x h all. refl;
  listed = λ i h. ground arith;
}

-- The zone 3 is marked, in a buffer that is not written yet.
abbrev pub marked_slots : ℕ → Slot
marked_slots i =
    if i == 1
    then record { is_dirty = true; nused = 0; index = 0; bitmap = λ x. if x == 0 then 8 else 0 }
    else blank_slots i

abbrev pub marked_cache : Cache
marked_cache = record { slots = marked_slots; free = 1 ∷ 2 ∷ 3 ∷ 4 ∷ [] }

abbrev pub marked_bitmap : ℕ → Words
marked_bitmap b x = if b == 0 && x == 0 then 8 else 0

pub marked-IsCoherent : IsCoherent stored marked_bitmap marked_cache empty_disk
marked-IsCoherent = record {
  unique = λ i j p q p' q' e. ground arith;
  small = λ i p q. ground arith;
  cached = λ i x p q. ground arith;
  stored = λ b x h all. ground (arith, all 1 (omega arith) (omega arith));
  listed = λ i h. ground arith;
}

pub clean-IsIdle : IsIdle clean_cache
clean-IsIdle = record { unused = λ j. refl; spare = ground arith }
