-- ===== src/System/Tests.antt =====
-- Runs of the jobs on a small disk. A sector is a bit of the table, and the clock stands still.
use hddchecker.Prelude.{
  ℕ, ◌+◌, ◌-◌, ◌<◌, ◌≡◌, refl, Bool, true, false, ◌&&◌, ◌||◌, Option, none, some, arith, ltb, leb,
  if◌then◌else◌, RetCode, ret,
}
use hddchecker.System.{Panel}
use hddchecker.System.Quiet.{PanelLaws}
use hddchecker.System.Clock.{Clock, advance, time_left}
use hddchecker.System.ZeroFill.{Eraser, zero_fill_disk}
use hddchecker.System.ZeroFill.Sectors.{EraseLaws, zero_fill_disk_blanks}
use hddchecker.System.Surface.{
  Drive, skip, surf_scan_disk, show_scan, patch_round, act, verified, scan_round, scan_loop,
}
use hddchecker.System.Surface.Checked.{VerifyMarks, surf_scan_disk_reaches}

abbrev Table : Type 0
Table = ℕ → Bool

abbrev panel : Panel Table
panel = record {
  ticks = λ w. (7, w);
  draw = λ v a b c w. w;
  cancelled = λ w. (false, w);
  confirm = λ m w. (false, w);
  inform = λ m w. w;
  show_error = λ m w. w;
  lock = λ w. w;
  unlock = λ w. w;
  progress_screen = λ v w. w;
  reboot = λ w. w;
}

abbrev bit : Table → ℕ → Bool
bit w s = w s

panel-PanelLaws : PanelLaws panel bit
panel-PanelLaws = record {
  ticks = λ s w. refl;
  draw = λ v a b c s w. refl;
  cancelled = λ s w. refl;
  confirm = λ m s w. refl;
  inform = λ m s w. refl;
  show_error = λ m s w. refl;
  lock = λ s w. refl;
  unlock = λ s w. refl;
  screen = λ v s w. refl;
  reboot = λ s w. refl;
}

abbrev blank_range : ℕ → ℕ → Table → Table
blank_range lba n w s = (leb lba s && ltb s (lba + n)) || w s

abbrev eraser : Eraser Table
eraser lba n w = (ret 0, blank_range lba n w)

eraser-EraseLaws : EraseLaws eraser bit
eraser-EraseLaws = record {
  erases = λ lba n s w e lo hi. ground arith;
  erase_keeps = λ lba n s w e. ground arith;
}

zero_fill_disk_blanks_example :
    (r : RetCode) × (w' : Table) × (zero_fill_disk panel eraser 100000 (λ s. false) ≡ some (r, w'))
    × (r ≡ ret 0 → (s : ℕ) → s < 100000 → bit w' s ≡ true)
zero_fill_disk_blanks_example =
    zero_fill_disk_blanks panel eraser 100000 bit panel-PanelLaws eraser-EraseLaws (λ s. false)
      (omega arith)

-- Sector 3 is bad.
abbrev drive : Drive Table
drive = record {
  verify = λ lba n w.
      if leb lba 3 && ltb 3 (lba + n)
      then (ret (3 - lba + 1), blank_range lba (3 - lba + 1) w)
      else (ret 0, blank_range lba n w);
  patch = λ lba w. (ret 0, w);
  set_waiting = λ b w. w;
  ask = λ lba w. (skip, w);
}

drive-VerifyMarks : VerifyMarks drive bit
drive-VerifyMarks = record {
  reads = λ lba n x w e lo hi. ground arith;
  reports = λ lba n k x w e. (ground arith, λ lo hi. ground arith);
  verify_keeps = λ lba n x w e. ground arith;
  patch_keeps = λ lba x w e. e;
  waiting_keeps = λ b x w e. e;
  ask_keeps = λ lba x w e. e;
}

abbrev scanned : Option (RetCode × Table) → Table
scanned none = λ s. false
scanned (some (r, w)) = w

abbrev scan : Option (RetCode × Table)
scan = surf_scan_disk panel drive 10 5 (λ s. false)

scan_ends : scan ≡ some (ret 0, scanned scan)
unfolding surf_scan_disk scan_loop scan_round show_scan verified act patch_round advance time_left
scan_ends = refl

surf_scan_disk_reaches_example : bit (scanned scan) 3 ≡ true
surf_scan_disk_reaches_example =
    surf_scan_disk_reaches panel drive 10 bit panel-PanelLaws drive-VerifyMarks (omega arith) 5 3
      (λ s. false) (scanned scan) scan_ends (omega arith)

abbrev late : Clock
late = record { elapsed = 9; previous = 4294967000 }
