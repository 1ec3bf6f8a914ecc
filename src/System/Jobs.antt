-- ===== src/System/Jobs.antt =====
-- What the jobs of system.c on all partitions of a disk share: the directory of partitions, the file
-- of a partition by which fsck or fssk is driven, and the loop that polls it.
pub mod Handles
use hddchecker.Prelude.{
  ℕ, zero, suc, ◌+◌, ◌/◌, Bool, true, false, Option, none, some, ◌==◌, if◌then◌else◌, RetCode, ret,
  err, sub32,
}
use hddchecker.System.{Panel, Screen, Message, optimizing}
use hddchecker.System.Clock.{Clock, advance, percentage, rate, time_left}

-- What the jobs read of `iox_dirent_t`: whether the partition is a sub-partition, whether it holds a
-- file system, and its name.
pub record Dirent : Type 0 where
  pub is_sub : Bool
  pub is_pfs : Bool
  pub name : ℕ

-- What the jobs read of `struct fsckStatus` and `struct fsskStatus`.
pub record JobStatus : Type 0 where
  pub error_count : ℕ
  pub fixed_error_count : ℕ
  pub has_error : ℕ

-- fileXioDopen of the unit, fileXioDread and fileXioDclose; fileXioOpen of a partition, fileXioIoctl2
-- with the commands START, POLL, STOP, WAIT and GET_STATUS, and fileXioClose.
pub record Files (W : Type 0) : Type 0 where
  pub dopen : W → RetCode × W
  pub dread : ℕ → W → Option Dirent × W
  pub dclose : ℕ → W → W
  pub open_part : ℕ → W → RetCode × W
  pub start : ℕ → W → RetCode × W
  pub poll : ℕ → W → RetCode × W
  pub stop : ℕ → W → W
  pub wait : ℕ → W → RetCode × W
  pub get_status : ℕ → W → RetCode × JobStatus × W
  pub close : ℕ → W → W

-- ErrorsFound, ErrorsFixed and UserAborted, which are static.
pub record Totals : Type 0 where
  pub found : ℕ
  pub fixed : ℕ
  pub aborted : Bool

abbrev pub is_one : RetCode → Bool
is_one (ret n) = n == 1
is_one (err e) = false

abbrev pub is_scanned : Dirent → Bool
is_scanned d = if d.is_sub then false else d.is_pfs

-- The second bar, which only the screen of the optimisers has: this is its first half.
abbrev pub second_bar : Screen → ℕ → ℕ
second_bar optimizing done = done / 2
second_bar _ done = 0

-- How far a job is: the number of the entry and of all entries.
pub record Progress : Type 0 where
  pub index : ℕ
  pub partitions : ℕ

module _ {W : Type 0} (ui : Panel W) (files : Files W) (screen : Screen) (question : Message) where
  -- A round of the poll: whether the user stops it.
  pub show_progress : Progress → Clock → W → Bool × Clock × W
  show_progress p clock w0 =
      let (now, w1) = ui.ticks w0 in
      let clock' = advance now clock in
      let done = percentage p.index p.partitions in
      let w2 =
        ui.draw screen done (time_left (rate p.index clock'.elapsed) (sub32 p.partitions p.index))
          (second_bar screen done) w1 in
      let (pressed, w3) = ui.cancelled w2 in
      let (agreed, w4) = ui.confirm question w3 in
      if pressed then (agreed, clock', w4) else (false, clock', w3)

  -- The loop: whether the user stopped the scan.
  unfoldable pub watch : ℕ → ℕ → Progress → Clock → W → Option (Bool × W)
  watch zero fd p clock w = none
  watch (suc fuel) fd p clock w =
      let (r, w1) = files.poll fd w in
      elim (is_one r) [
        | false ↦ some (false, w1)
        | true ↦
            let (stopped, clock', w2) = show_progress p clock w1 in
            elim stopped [
              | true ↦ some (true, files.stop fd w2)
              | false ↦ watch fuel fd p clock' w2
            ]
      ]

  unfoldable pub begin_watch : ℕ → ℕ → Progress → W → Option (Bool × W)
  begin_watch fuel fd p w =
      let (now, w1) = ui.ticks w in watch fuel fd p (record { elapsed = 0; previous = now }) w1

module _ {W : Type 0} (files : Files W) where
  -- The entries of the directory are counted.
  unfoldable pub count_entries : ℕ → ℕ → ℕ → W → Option (ℕ × W)
  count_entries zero bfd n w = none
  count_entries (suc fuel) bfd n w =
      let (found, w1) = files.dread bfd w in
      elim found [ none ↦ some (n, w1) | some d ↦ count_entries fuel bfd (n + 1) w1 ]

  abbrev close_dir : ℕ → Option (ℕ × W) → Option (ℕ × W)
  close_dir bfd none = none
  close_dir bfd (some (n, w)) = some (n, files.dclose bfd w)

  unfoldable pub count_partitions : ℕ → W → Option (ℕ × W)
  count_partitions fuel w = elim (files.dopen w).0 [
    | err e ↦ some (0, (files.dopen w).1)
    | ret bfd ↦ close_dir bfd (count_entries fuel bfd 0 (files.dopen w).1)
  ]
