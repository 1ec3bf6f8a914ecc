-- ===== src/System/Optimize.antt =====
-- FsskDisk, HdskDisk and OptimizeDisk of system.c: the file systems of a disk are optimised one after
-- another, and then the disk.
use hddchecker.Prelude.{
  ℕ, zero, suc, ◌+◌, ◌/◌, Bool, true, false, not, ◌&&◌, ◌||◌, Option, none, some, ◌==◌,
  if◌then◌else◌, RetCode, ret, err, is_zero, is_neg, sub32,
}
use hddchecker.System.{Panel, optimizing, optimize_abort, optimize_done, hdd_fault}
use hddchecker.System.Clock.{Clock, advance, percentage, rate, time_left}
use hddchecker.System.Jobs.{Files, Progress, is_one, is_scanned, begin_watch, count_partitions}

-- fileXioDevctl of hdsk with the commands GET_HDD_STAT, whose second value is `total`, START, POLL,
-- GET_PROGRESS, STOP and GET_STATUS.
pub record Optimizer (W : Type 0) : Type 0 where
  pub get_stat : W → RetCode × ℕ × W
  pub start : W → RetCode × W
  pub poll : W → RetCode × W
  pub get_progress : W → ℕ × W
  pub stop : W → W
  pub get_status : W → RetCode × W

-- A job's result and whether UserAborted stands.
pub record Outcome : Type 0 where
  pub result : RetCode
  pub aborted : Bool

module _ {W : Type 0} (ui : Panel W) (files : Files W) where
  -- After the run on one partition: whether the loop is left.
  pub end_fssk : ℕ → Outcome → W → Bool × Outcome × W
  end_fssk fd o w =
      let (r, s, w1) = files.get_status fd w in
      let error = if is_zero r then ret s.has_error else r in
      if is_zero o.result
      then (not (is_zero error) || o.aborted, record o { result = error }, files.close fd w1)
      else (true, o, files.close fd w)

  pub fssk_part : ℕ → Progress → ℕ → Bool → W → Option (Bool × Outcome × W)
  fssk_part fuel p name aborted w = elim (files.open_part name w).0 [
    | err e ↦ some (false, record { result = err e; aborted = aborted }, (files.open_part name w).1)
    | ret fd ↦
        let (started, w2) = files.start fd (files.open_part name w).1 in
        elim (is_zero started) [
          | false ↦ some (end_fssk fd (record { result = started; aborted = aborted }) w2)
          | true ↦ elim (begin_watch ui files optimizing optimize_abort fuel fd p w2) [
            | none ↦ none
            | some (stopped, w3) ↦
                some (end_fssk fd (record { result = ret 0; aborted = aborted || stopped }) w3)
          ]
        ]
  ]

  pub fssk_entries : ℕ → ℕ → Progress → Outcome → W → Option (Outcome × W)
  fssk_entries zero bfd p o w = none
  fssk_entries (suc fuel) bfd p o w =
      let (found, w1) = files.dread bfd w in
      let next = record p { index = p.index + 1 } in
      elim found [
        | none ↦ some (o, w1)
        | some d ↦ elim (is_scanned d) [
          | false ↦ fssk_entries fuel bfd next o w1
          | true ↦ elim (fssk_part fuel p d.name o.aborted w1) [
            | none ↦ none
            | some (leave, o2, w2) ↦ elim leave [
              | true ↦ some (o2, w2)
              | false ↦ fssk_entries fuel bfd next o2 w2
            ]
          ]
        ]
      ]

  abbrev close_fssk : ℕ → Option (Outcome × W) → Option (Outcome × W)
  close_fssk bfd none = none
  close_fssk bfd (some (o, w)) = some (o, files.dclose bfd w)

  pub fssk_all : ℕ → ℕ → Bool → W → Option (Outcome × W)
  fssk_all fuel partitions aborted w = elim (files.dopen w).0 [
    | err e ↦ some (record { result = err e; aborted = aborted }, (files.dopen w).1)
    | ret bfd ↦ close_fssk bfd (
        fssk_entries fuel bfd (record { index = 0; partitions = partitions })
          (record { result = ret 0; aborted = aborted }) (files.dopen w).1)
  ]

  -- FsskDisk
  pub fssk_disk : ℕ → Bool → W → Option (Outcome × W)
  fssk_disk fuel aborted w =
      elim (count_partitions files fuel (ui.reboot (ui.progress_screen optimizing w))) [
        | none ↦ none
        | some (partitions, w1) ↦ elim (partitions == 0) [
          | true ↦ some (record { result = ret 0; aborted = aborted }, w1)
          | false ↦ fssk_all fuel partitions aborted w1
        ]
      ]

module _ {W : Type 0} (ui : Panel W) (hdsk : Optimizer W) where
  -- A round of HdskDisk: whether the user stops it.
  pub show_hdsk : ℕ → Clock → W → Bool × Clock × W
  show_hdsk total clock w0 =
      let (progress, w1) = hdsk.get_progress w0 in
      let (now, w2) = ui.ticks w1 in
      let clock' = advance now clock in
      let done = percentage progress total in
      let w3 =
        ui.draw optimizing done (time_left (rate progress clock'.elapsed) (sub32 total progress))
          (50 + done / 2) w2 in
      let (pressed, w4) = ui.cancelled w3 in
      let (agreed, w5) = ui.confirm optimize_abort w4 in
      if pressed then (agreed, clock', w5) else (false, clock', w4)

  -- The loop, which looks at the status of the thread in each round, but not after the last.
  pub hdsk_loop : ℕ → ℕ → Clock → Outcome → W → Option (Outcome × W)
  hdsk_loop zero total clock o w = none
  hdsk_loop (suc fuel) total clock o w =
      let (r, w1) = hdsk.poll w in
      elim (is_one r) [
        | false ↦ some (o, w1)
        | true ↦
            let (stopped, clock', w2) = show_hdsk total clock w1 in
            elim stopped [
              | true ↦ some (record { result = ret 0; aborted = true }, hdsk.stop w2)
              | false ↦
                  let (s, w3) = hdsk.get_status w2 in
                  elim (is_zero s && not o.aborted) [
                    | true ↦ hdsk_loop fuel total clock' (record o { result = s }) w3
                    | false ↦ some (record o { result = s }, w3)
                  ]
            ]
      ]

  -- HdskDisk
  pub hdsk_disk : ℕ → Bool → W → Option (Outcome × W)
  hdsk_disk fuel aborted w =
      let (r, total, w1) = hdsk.get_stat (ui.reboot (ui.progress_screen optimizing w)) in
      elim (is_neg r || (total == 0)) [
        | true ↦ some (record { result = r; aborted = aborted }, w1)
        | false ↦
            let (s, w2) = hdsk.start w1 in
            let (now, w3) = ui.ticks w2 in
            elim (is_zero s) [
              | false ↦ some (record { result = s; aborted = aborted }, w2)
              | true ↦
                  hdsk_loop fuel total (record { elapsed = 0; previous = now })
                    (record { result = s; aborted = aborted }) w3
            ]
      ]

module _ {W : Type 0} (ui : Panel W) (files : Files W) (hdsk : Optimizer W) where
  abbrev leave_optimize : Outcome → W → Option (Outcome × W)
  leave_optimize o w =
      let w1 =
        if is_zero o.result
        then if o.aborted then w else ui.inform optimize_done w
        else ui.show_error hdd_fault w in
      some (o, ui.unlock (ui.reboot w1))

  -- OptimizeDisk
  pub optimize_disk : ℕ → Bool → W → Option (Outcome × W)
  optimize_disk fuel aborted w = elim (fssk_disk ui files fuel aborted (ui.lock w)) [
    | none ↦ none
    | some (o, w1) ↦ elim (is_zero o.result && not o.aborted) [
      | false ↦ leave_optimize o w1
      | true ↦ elim (hdsk_disk ui hdsk fuel o.aborted w1) [
        | none ↦ none
        | some (o2, w2) ↦ leave_optimize o2 w2
      ]
    ]
  ]
