-- ===== src/System/ZeroFill.antt =====
-- ZeroFillDisk of system.c. Both counters of its loop are `u32`.
pub mod Sectors
use hddchecker.Prelude.{
  ℕ, zero, suc, ◌+◌, ◌-◌, Bool, true, false, Option, none, some, ltb, ◌==◌, if◌then◌else◌, RetCode,
  ret, err, is_zero, add32,
}
use hddchecker.System.{Panel, zero_filling, zero_fill_abort, zero_fill_done, hdd_fault}
use hddchecker.System.Clock.{Clock, advance, percentage, rate, time_left}

-- fileXioDevctl(HDST_DEVCTL_DEVICE_ERASE_SECTORS) of the unit, with an address and a count.
abbrev pub Eraser : Type 0 → Type 0
Eraser W = ℕ → ℕ → W → RetCode × W

-- `SectorsRemaining > 65536 ? 65536 : SectorsRemaining`
abbrev pub chunk : ℕ → ℕ
chunk remaining = if ltb 65536 remaining then 65536 else remaining

module _ {W : Type 0} (ui : Panel W) (erase : Eraser W) (total : ℕ) where
  -- What a round does before it erases: whether the user stops it.
  pub show_round : ℕ → ℕ → Clock → W → Bool × Clock × W
  show_round lba remaining clock w0 =
      let (now, w1) = ui.ticks w0 in
      let clock' = advance now clock in
      let w2 =
        ui.draw zero_filling (percentage lba total)
          (time_left (rate (total - remaining) clock'.elapsed) remaining) 0 w1 in
      let (pressed, w3) = ui.cancelled w2 in
      let (agreed, w4) = ui.confirm zero_fill_abort w3 in
      if pressed then (agreed, clock', w4) else (false, clock', w3)

  pub fill_loop : ℕ → ℕ → ℕ → Clock → RetCode → W → Option (RetCode × W)
  unfolding show_round
  fill_loop zero lba remaining clock result w = none
  fill_loop (suc fuel) lba remaining clock result w =
      let shown = show_round lba remaining clock w in
      let done = erase lba (chunk remaining) shown.2 in
      let rest =
        fill_loop fuel (add32 lba (chunk remaining)) (remaining - chunk remaining) shown.1 done.0
          done.1 in
      if remaining == 0
      then some (result, w)
      else if shown.0
      then some (ret 1, shown.2)
      else if is_zero done.0
      then rest
      else some (done.0, ui.show_error hdd_fault done.1)

  -- What follows the loop.
  abbrev pub finish : Option (RetCode × W) → Option (RetCode × W)
  finish none = none
  finish (some (r, w)) =
      some (r, ui.unlock (ui.reboot (if is_zero r then ui.inform zero_fill_done w else w)))

  -- The whole job: every round takes a sector off the count at least.
  pub zero_fill_disk : W → Option (RetCode × W)
  zero_fill_disk w0 =
      let w1 = ui.progress_screen zero_filling (ui.lock w0) in
      let (now, w2) = ui.ticks w1 in
      finish (fill_loop (suc total) 0 total (record { elapsed = 0; previous = now }) (ret 0) w2)
