-- ===== src/System/Fsck.antt =====
-- FsckDisk, ScanDisk and FsckPartition of system.c: the partitions of a disk are checked one after
-- another, after the partition table was.
pub mod Closed
mod Tests
use hddchecker.Prelude.{
  ℕ, zero, suc, ◌+◌, Bool, true, false, not, ◌&&◌, ◌||◌, Option, none, some, ltb, ◌==◌,
  if◌then◌else◌, RetCode, ret, err, is_zero, add32,
}
use hddchecker.System.{Panel, disk_scanning, scan_abort, scan_done, hdd_fault}
use hddchecker.System.Jobs.{
  Dirent, JobStatus, Files, Totals, Progress, is_scanned, begin_watch, count_partitions,
}

abbrev pub add_errors : JobStatus → Totals → Totals
add_errors s t = record t {
  found = add32 t.found s.error_count;
  fixed = add32 t.fixed s.fixed_error_count;
}

-- What is left of the scan of one partition: the result, whether the loop is left, and the totals.
pub record Part : Type 0 where
  pub result : RetCode
  pub leave : Bool
  pub totals : Totals

module _ {W : Type 0} (ui : Panel W) (files : Files W) where
  -- After the scan: the file is closed on every way.
  pub end_part : ℕ → RetCode → Totals → W → Part × W
  end_part fd result t w =
      let (r, s, w1) = files.get_status fd w in
      if is_zero result
      then (if is_zero r && not t.aborted
          then (record { result = r; leave = false; totals = add_errors s t }, files.close fd w1)
          else (record { result = r; leave = true; totals = t }, files.close fd w1))
      else (record { result = result; leave = true; totals = t }, files.close fd w)

  pub fsck_part : ℕ → Progress → ℕ → Totals → W → Option (Part × W)
  fsck_part fuel p name t w = elim (files.open_part name w).0 [
    | err e ↦ some (
      record { result = err e; leave = false; totals = record t { found = add32 t.found 1 } },
      (files.open_part name w).1,
    )
    | ret fd ↦
        let (started, w2) = files.start fd (files.open_part name w).1 in
        elim (is_zero started) [
          | false ↦ some (end_part fd started t w2)
          | true ↦ elim (begin_watch ui files disk_scanning scan_abort fuel fd p w2) [
            | none ↦ none
            | some (stopped, w3) ↦
                some (end_part fd (ret 0) (record t { aborted = t.aborted || stopped }) w3)
          ]
        ]
  ]

  -- The entries of the directory from the one at `p`.
  pub fsck_entries : ℕ → ℕ → Progress → RetCode → Totals → W → Option (RetCode × Totals × W)
  fsck_entries zero bfd p result t w = none
  fsck_entries (suc fuel) bfd p result t w =
      let (found, w1) = files.dread bfd w in
      let next = record p { index = p.index + 1 } in
      elim found [
        | none ↦ some (result, t, w1)
        | some d ↦ elim (is_scanned d) [
          | false ↦ fsck_entries fuel bfd next result t w1
          | true ↦ elim (fsck_part fuel p d.name t w1) [
            | none ↦ none
            | some (part, w2) ↦ elim part.leave [
              | true ↦ some (part.result, part.totals, w2)
              | false ↦ fsck_entries fuel bfd next part.result part.totals w2
            ]
          ]
        ]
      ]

  abbrev close_entries : ℕ → Option (RetCode × Totals × W) → Option (RetCode × Totals × W)
  close_entries bfd none = none
  close_entries bfd (some (r, t, w)) = some (r, t, files.dclose bfd w)

  -- FsckDisk
  pub fsck_all : ℕ → ℕ → Totals → W → Option (RetCode × Totals × W)
  fsck_all fuel partitions t w = elim (files.dopen w).0 [
    | err e ↦ some (err e, t, (files.dopen w).1)
    | ret bfd ↦ close_entries bfd (
        fsck_entries fuel bfd (record { index = 0; partitions = partitions }) (ret 0) t
          (files.dopen w).1)
  ]

  pub fsck_disk : ℕ → Totals → W → Option (RetCode × Totals × W)
  fsck_disk fuel t w =
      elim (count_partitions files fuel (ui.reboot (ui.progress_screen disk_scanning w))) [
        | none ↦ none
        | some (partitions, w1) ↦ elim (partitions == 0) [
          | true ↦ some (ret 0, t, w1)
          | false ↦ fsck_all fuel partitions t w1
        ]
      ]

  -- ScanDisk, with the check of the partition table as a parameter.
  abbrev pub leave_scan : RetCode → Totals → W → Option (RetCode × Totals × W)
  leave_scan r t w =
      let w1 =
        if is_zero r
        then if t.aborted then w else ui.inform scan_done w
        else ui.show_error hdd_fault w in
      some (r, t, ui.unlock (ui.reboot w1))

  pub scan_disk : (W → RetCode × W) → ℕ → Totals → W → Option (RetCode × Totals × W)
  scan_disk hdck fuel t w =
      let t0 = record t { found = 0; fixed = 0 } in
      let (r, w1) = hdck (ui.reboot (ui.lock w)) in
      elim (is_zero r && not t.aborted) [
        | false ↦ leave_scan r t0 w1
        | true ↦ elim (fsck_disk fuel t0 w1) [
          | none ↦ none
          | some (r2, t2, w2) ↦ leave_scan r2 t2 w2
        ]
      ]

  -- FsckPartition, which waits for the scan.
  abbrev part_status : ℕ → Totals → W → RetCode × Totals × W
  part_status fd t w =
      let (r, s, w1) = files.get_status fd w in
      (r, (if is_zero r then add_errors s t else t), files.close fd w1)

  pub fsck_partition : ℕ → Totals → W → RetCode × Totals × W
  fsck_partition name t w0 =
      let w = ui.reboot w0 in
      elim (files.open_part name w).0 [
        | err e ↦ (err e, t, (files.open_part name w).1)
        | ret fd ↦
            let (started, w2) = files.start fd (files.open_part name w).1 in
            let (ended, w3) = files.wait fd w2 in
            if is_zero started
            then (if is_zero ended then part_status fd t w3 else (ended, t, files.close fd w3))
            else (started, t, files.close fd w2)
      ]
