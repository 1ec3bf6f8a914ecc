-- ===== src/System/Surface.antt =====
-- SurfScanDisk of system.c: it verifies the disk in runs of 65536 sectors, and patches or skips the
-- sectors that cannot be read. `lba` and the count are `u32`.
pub mod Checked
use hddchecker.Prelude.{
  ℕ, zero, suc, ◌+◌, ◌-◌, Bool, true, false, Option, none, some, ltb, ◌==◌, if◌then◌else◌, RetCode,
  ret, err, is_zero, add32, sub32,
}
use hddchecker.System.{Panel, surface_scanning, scan_abort, patch_failed, surface_done, ata_error}
use hddchecker.System.Clock.{Clock, advance, percentage, rate, time_left}

-- enum BAD_SECTOR_HANDLING_MODES
pub data BadMode : Type 0 where
  prompt remap skip remap_all skip_all : BadMode

-- The calls of the drive: READ VERIFY of a run, PatchSector, the block mode of fileXio (whether
-- it waits), and GetBadSectorAction.
pub record Drive (W : Type 0) : Type 0 where
  pub verify : ℕ → ℕ → W → RetCode × W
  pub patch : ℕ → W → RetCode × W
  pub set_waiting : Bool → W → W
  pub ask : ℕ → W → BadMode × W

pub record Scan : Type 0 where
  pub lba : ℕ
  pub remaining : ℕ
  pub bad : ℕ
  pub is_retry : Bool
  pub mode : BadMode
  pub clock : Clock
  pub result : RetCode

-- How a round ends: another one, the end of the loop, or the jump over the message after it.
pub data Round : Type 0 where
  again leave jump : Scan → Round

abbrev pub run_length : ℕ → ℕ
run_length remaining = if ltb 65536 remaining then 65536 else remaining

module _ {W : Type 0} (ui : Panel W) (drive : Drive W) (total : ℕ) where
  -- What a round does before it verifies: whether the user stops it.
  unfoldable pub show_scan : Scan → W → Bool × Clock × W
  show_scan s w0 =
      let (now, w1) = ui.ticks w0 in
      let clock' = advance now s.clock in
      let w2 =
        ui.draw surface_scanning (percentage s.lba total)
          (time_left (rate (total - s.remaining) clock'.elapsed) s.remaining) s.bad w1 in
      let (pressed, w3) = ui.cancelled w2 in
      let (agreed, w4) = ui.confirm scan_abort w3 in
      if pressed then (agreed, clock', w4) else (false, clock', w3)

  -- Past the sector at `lba`.
  abbrev pub skip_sector : BadMode → Scan → Scan
  skip_sector mode s = record s {
    lba = add32 s.lba 1;
    remaining = sub32 s.remaining 1;
    mode = mode;
    result = ret 0;
  }

  -- The two cases that patch the sector.
  unfoldable pub patch_round : BadMode → Scan → W → Round × W
  patch_round mode s w0 =
      let (r, w1) = drive.patch s.lba (drive.set_waiting true w0) in
      let (abort, w2) = ui.confirm patch_failed w1 in
      if is_zero r
      then (
        again (record s { is_retry = true; mode = mode; result = r }),
        drive.set_waiting false w1,
      )
      else if abort
      then (jump (record s { mode = mode; result = r }), w2)
      else (again (skip_sector mode s), drive.set_waiting false w2)

  -- The switch, with the mode that the user chose or that holds for all.
  unfoldable pub act : BadMode → Scan → W → Round × W
  unfolding patch_round
  act prompt s w = (again (record s { mode = prompt }), w)
  act remap s w = patch_round prompt s w
  act remap_all s w = patch_round remap_all s w
  act skip s w = (again (skip_sector prompt s), w)
  act skip_all s w = (again (skip_sector skip_all s), w)

  -- The mode for the sector: the user is asked if none holds.
  abbrev pub chosen : BadMode → ℕ → W → BadMode × W
  chosen prompt lba w = drive.ask lba w
  chosen remap lba w = (remap, w)
  chosen skip lba w = (skip, w)
  chosen remap_all lba w = (remap_all, w)
  chosen skip_all lba w = (skip_all, w)

  -- The clock starts again after a bad sector.
  abbrev pub restart : Round × W → Round × W
  restart (again s, w) =
      let (now, w') = ui.ticks w in
      (again (record s { clock = record (s.clock) { previous = now } }), w')
  restart (leave s, w) = (leave s, w)
  restart (jump s, w) = (jump s, w)

  -- What follows a verification of `s`, by its result.
  unfoldable pub verified : RetCode → Scan → W → Round × W
  unfolding act
  verified (ret zero) s w =
      let n = run_length s.remaining in
      (
        again (record s {
          lba = add32 s.lba n;
          remaining = s.remaining - n;
          is_retry = false;
          result = ret 0;
        }),
        w,
      )
  verified (ret (suc n)) s w =
      let s' : Scan = record s {
        lba = add32 s.lba n;
        remaining = sub32 s.remaining n;
        bad = if s.is_retry then s.bad else add32 s.bad 1;
        result = ret n;
      } in
      let (mode, w') = chosen s'.mode s'.lba w in restart (act mode s' w')
  verified (err e) s w =
      let s' : Scan = record s {
        bad = if s.is_retry then s.bad else add32 s.bad 1;
        result = err e;
      } in
      (leave s', ui.show_error ata_error w)

  unfoldable pub scan_round : Scan → W → Round × W
  unfolding show_scan verified
  scan_round s w =
      let shown = show_scan s w in
      let s' : Scan = record s { clock = shown.1 } in
      let done = drive.verify s.lba (run_length s.remaining) shown.2 in
      if shown.0 then (leave (record s' { result = ret 1 }), shown.2) else verified done.0 s' done.1

  abbrev pub go_on : (Scan → W → Option (Bool × Scan × W)) → Round × W → Option (Bool × Scan × W)
  go_on rest (again s, w) = rest s w
  go_on rest (leave s, w) = some (false, s, w)
  go_on rest (jump s, w) = some (true, s, w)

  -- The loop: the last state, and whether it ended with a jump. A sector that is patched is verified
  -- again, so that no number of rounds is enough for every drive.
  unfoldable pub scan_loop : ℕ → Scan → W → Option (Bool × Scan × W)
  scan_loop zero s w = none
  scan_loop (suc fuel) s w = elim (s.remaining == 0) [
    | true ↦ some (false, s, w)
    | false ↦ go_on (λ s' w'. scan_loop fuel s' w') (scan_round s w)
  ]

  abbrev pub after_scan : Option (Bool × Scan × W) → Option (RetCode × W)
  after_scan none = none
  after_scan (some (jumped, s, w)) =
      let told = if jumped then w else if is_zero s.result then ui.inform surface_done w else w in
      some (s.result, ui.unlock (ui.reboot told))

  unfoldable pub surf_scan_disk : ℕ → W → Option (RetCode × W)
  surf_scan_disk fuel w0 =
      let w1 = ui.progress_screen surface_scanning (ui.lock w0) in
      let (now, w2) = ui.ticks w1 in
      after_scan (
        scan_loop fuel
          (record {
            lba = 0;
            remaining = total;
            bad = 0;
            is_retry = false;
            mode = prompt;
            clock = record { elapsed = 0; previous = now };
            result = ret 0;
          })
          w2)
