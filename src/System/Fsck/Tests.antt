-- ===== src/System/Fsck/Tests.antt =====
-- A scan of a disk with one partition, whose file is the only one that opens.
use hddchecker.Prelude.{
  ℕ, zero, suc, ◌≡◌, refl, fun_ext, inl, inr, Bool, true, false, Option, none, some, arith, ◌==◌,
  if◌then◌else◌, Bool-cases, RetCode, ret, err, eio,
}
use hddchecker.System.{Panel}
use hddchecker.System.Jobs.{
  Dirent, Files, JobStatus, Totals, watch, begin_watch, count_entries, count_partitions,
}
use hddchecker.System.Jobs.Handles.{Fds, with_fd, without_fd, HandleLaws}
use hddchecker.System.Fsck.{end_part, fsck_part, fsck_entries, fsck_all, fsck_disk}
use hddchecker.System.Fsck.Closed.{fsck_disk_closes}

-- Whether the directory and the file of a partition are open, at the descriptors 5 and 6, and the
-- entries that are left in the directory. A descriptor that is open is not given again.
record Desk : Type 0 where
  has_dir : Bool
  has_part : Bool
  entries : ℕ

abbrev panel : Panel Desk
panel = record {
  ticks = λ w. (0, w);
  draw = λ v a b c w. w;
  cancelled = λ w. (false, w);
  confirm = λ m w. (false, w);
  inform = λ m w. w;
  show_error = λ m w. w;
  lock = λ w. w;
  unlock = λ w. w;
  progress_screen = λ v w. w;
  reboot = λ w. w;
}

abbrev partition : Dirent
partition = record { is_sub = false; is_pfs = true; name = 7 }

abbrev status : JobStatus
status = record { error_count = 3; fixed_error_count = 2; has_error = 0 }

abbrev read_entry : ℕ → Desk → Option Dirent × Desk
read_entry zero w = (none, w)
read_entry (suc n) w = (some partition, record w { entries = n })

abbrev close_fd : ℕ → Desk → Desk
close_fd fd w = record w {
  has_dir = if fd == 5 then false else w.has_dir;
  has_part = if fd == 6 then false else w.has_part;
}

abbrev open_dir : Desk → RetCode × Desk
open_dir w = if w.has_dir then (err eio, w) else (ret 5, record w { has_dir = true; entries = 1 })

abbrev open_file : Desk → RetCode × Desk
open_file w = if w.has_part then (err eio, w) else (ret 6, record w { has_part = true })

abbrev held : Desk → Fds
held w g = if g == 5 then w.has_dir else if g == 6 then w.has_part else false

abbrev files : Files Desk
files = record {
  dopen = open_dir;
  dread = λ bfd w. read_entry w.entries w;
  dclose = close_fd;
  open_part = λ name. open_file;
  start = λ fd w. (ret 0, w);
  poll = λ fd w. (ret 0, w);
  stop = λ fd w. w;
  wait = λ fd w. (ret 0, w);
  get_status = λ fd w. (ret 0, status, w);
  close = close_fd;
}

read_entry_keeps : (n : ℕ) (w : Desk) → held (read_entry n w).1 ≡ held w
read_entry_keeps zero w = refl
read_entry_keeps (suc n) w = refl

close_fd-held : (fd : ℕ) (w : Desk) → held (close_fd fd w) ≡ without_fd fd (held w)
close_fd-held fd w = fun_ext λ g. ground arith

open_dir-held :
    (fd : ℕ) (w : Desk)
    → (open_dir w).0 ≡ ret fd
    → (held w fd ≡ false) × (held (open_dir w).1 ≡ with_fd fd (held w))
open_dir-held fd w e = (ground arith, fun_ext λ g. ground arith)

open_file-held :
    (fd : ℕ) (w : Desk)
    → (open_file w).0 ≡ ret fd
    → (held w fd ≡ false) × (held (open_file w).1 ≡ with_fd fd (held w))
open_file-held fd w e = (ground arith, fun_ext λ g. ground arith)

open_dir-none : (w : Desk) → ((n : ℕ) → (open_dir w).0 ≡ ret n → ⊥) → held (open_dir w).1 ≡ held w
open_dir-none w closed = elim (Bool-cases w.has_dir) [
  | inl is_open ↦ rw is_open refl
  | inr free ↦ absurd (closed 5 (rw free refl))
]

open_file-none :
    (w : Desk) → ((n : ℕ) → (open_file w).0 ≡ ret n → ⊥) → held (open_file w).1 ≡ held w
open_file-none w closed = elim (Bool-cases w.has_part) [
  | inl is_open ↦ rw is_open refl
  | inr free ↦ absurd (closed 6 (rw free refl))
]

desk-HandleLaws : HandleLaws panel files held
desk-HandleLaws = record {
  dopen = open_dir-held;
  no_dir = open_dir-none;
  dread = λ bfd w. read_entry_keeps w.entries w;
  dclose = close_fd-held;
  opened = λ name. open_file-held;
  no_file = λ name. open_file-none;
  start = λ fd w. refl;
  poll = λ fd w. refl;
  stop = λ fd w. refl;
  get_status = λ fd w. refl;
  close = close_fd-held;
  ticks = λ w. refl;
  draw = λ v a b c w. refl;
  cancelled = λ w. refl;
  confirm = λ m w. refl;
}

abbrev desk : Desk
desk = record { has_dir = false; has_part = false; entries = 4 }

abbrev left : Desk
left = record { has_dir = false; has_part = false; entries = 0 }

abbrev none_yet : Totals
none_yet = record { found = 0; fixed = 0; aborted = false }

abbrev found_three : Totals
found_three = record { found = 3; fixed = 2; aborted = false }

scanned : fsck_disk panel files 3 none_yet desk ≡ some (ret 0, found_three, left)
unfolding fsck_disk fsck_all fsck_entries fsck_part end_part count_partitions count_entries
    begin_watch watch
scanned = refl

fsck_disk_closes_example : held left ≡ held desk
fsck_disk_closes_example =
    fsck_disk_closes panel files held desk-HandleLaws 3 none_yet found_three desk left (ret 0)
      scanned
