-- ===== src/Hdsk/Copy/Tests.antt =====
-- A copy of two blocks on a disk in memory.
use hddchecker.Prelude.{
  ℕ, ◌+◌, ◌-◌, ◌≡◌, ◌≤◌, ◌<◌, refl, ap, inl, true, false, arith, if◌then◌else◌, ret,
}
use hddchecker.Hdsk.Copy.{Ata, copy_partition}
use hddchecker.Hdsk.Copy.Sectors.{AtaLaws, IsApart, is_within, copy_partition_copies}

abbrev Disk : Type 0
Disk = ℕ → ℕ

abbrev ata : Ata Disk
ata = record {
  read = λ from count w. (ret 0, λ i. w (from + i), w);
  write = λ to count buffer w. (ret 0, λ s. if is_within to count s then buffer (s - to) else w s);
  stop_flag = λ w. (false, w);
}

abbrev look : Disk → ℕ → ℕ
look w s = w s

back_to : (to i : ℕ) → to + i - to ≡ i
back_to to i = omega arith

in_range : (to count i : ℕ) → i < count → is_within to count (to + i) ≡ true
in_range to count i lt = ground arith

ata-AtaLaws : AtaLaws ata look
ata-AtaLaws = record {
  reads = λ from count i w ok lt. refl;
  read_keeps = λ from count s w. refl;
  writes = λ to count i buffer w ok lt. rw (in_range to count i lt) (ap buffer (back_to to i));
  write_keeps = λ to count s buffer w out. rw out refl;
  flag_keeps = λ s w. refl;
}

-- Each sector holds its own address.
abbrev numbered : Disk
numbered s = s

apart : IsApart 1024 4096 512
apart = (omega arith, omega arith, inl (omega arith))

copy_partition_copies_example :
    let r = copy_partition ata 1024 4096 512 0 numbered in
    ((s : ℕ) → is_within 4098 510 s ≡ false → r.1 s ≡ s)
    × ((r.0).result ≡ ret 0
        → (r.0).is_stopped ≡ false
        → (j : ℕ) → 2 ≤ j
        → j < 512
        → r.1 (4096 + j) ≡ 1024 + j)
copy_partition_copies_example =
    copy_partition_copies ata look ata-AtaLaws 1024 4096 1 0 numbered apart
