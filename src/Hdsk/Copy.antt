-- ===== src/Hdsk/Copy.antt =====
-- CopyPartition of hdsk/hdsk.c: the sectors of a partition are copied to another one of its length,
-- by buffers of 256 sectors; the two sectors of the header at its start are left out.
pub mod Sectors
mod Tests
use hddchecker.Prelude.{
  ℕ, zero, suc, ◌+◌, ◌*◌, ◌-◌, ◌/◌, Bool, true, false, Option, none, some, if◌then◌else◌, RetCode,
  ret, err, eio, is_zero, add32,
}

-- A buffer as the contents of its sectors.
abbrev pub Buffer : Type 0
Buffer = ℕ → ℕ

-- ata_device_sector_io of the device: a read into the buffer and a write of it, of a number of
-- sectors at an address; and whether hdskStopFlag is set when it is looked at.
pub record Ata (W : Type 0) : Type 0 where
  pub read : ℕ → ℕ → W → RetCode × Buffer × W
  pub write : ℕ → ℕ → Buffer → W → RetCode × W
  pub stop_flag : W → Bool × W

-- IOBUFFER_SIZE_SECTORS
abbrev pub block_sectors : ℕ
block_sectors = 256

-- The result, hdskProgress, and whether the copy was stopped.
pub record Copied : Type 0 where
  pub result : RetCode
  pub progress : ℕ
  pub is_stopped : Bool

module _ {W : Type 0} (ata : Ata W) where
  -- One transfer: a read at an address, and a write of what was read at another.
  pub move_sectors : ℕ → ℕ → ℕ → W → Bool × W
  move_sectors from to count w =
      let (r, buffer, w1) = ata.read from count w in
      let (r2, w2) = ata.write to count buffer w1 in
      if is_zero r then (is_zero r2, w2) else (false, w1)

  -- The loop over the blocks from the one numbered `i`, of which `left` are left.
  pub copy_blocks : ℕ → ℕ → ℕ → ℕ → ℕ → W → Copied × W
  copy_blocks zero start dest i progress w =
      (record { result = ret 0; progress = progress; is_stopped = false }, w)
  copy_blocks (suc left) start dest i progress w =
      let at = i * block_sectors in
      let (done, w1) = move_sectors (add32 start at) (add32 dest at) block_sectors w in
      elim done [
        | false ↦ (record { result = err eio; progress = progress; is_stopped = false }, w1)
        | true ↦
            let progress' = add32 progress block_sectors in
            let (stops, w2) = ata.stop_flag w1 in
            elim stops [
              | true ↦ (record { result = ret 0; progress = progress'; is_stopped = true }, w2)
              | false ↦ copy_blocks left start dest (i + 1) progress' w2
            ]
      ]

  -- CopyPartition, of a partition of `length` sectors.
  pub copy_partition : ℕ → ℕ → ℕ → ℕ → W → Copied × W
  copy_partition start dest length progress w =
      let (done, w1) = move_sectors (add32 start 2) (add32 dest 2) (block_sectors - 2) w in
      elim done [
        | false ↦ (record { result = err eio; progress = progress; is_stopped = false }, w1)
        | true ↦
            copy_blocks (length / block_sectors - 1) start dest 1 (add32 progress block_sectors) w1
      ]
