-- ===== src/Hdst/Tests.antt =====
-- The theorems about the HDD status driver at concrete drives.
use hddchecker.Prelude.{
  ℕ, ◌+◌, ◌-◌, ◌≡◌, refl, inr, Bool, true, false, ◌&&◌, Option, none, some, arith, ltb, leb,
  if◌then◌else◌, RetCode, ret, err, eio, is_neg,
}
use hddchecker.Hdst.{
  Atad, Buffer, TaskFile, Driver, DevInfo, zero_sectors, erase_loop, erase_sectors, read_verify,
  verify_loop, verify_failed, verify_task,
}
use hddchecker.Hdst.Erase.{WriteLaws, erase_sectors_zeroes, erase_sectors_spares}
use hddchecker.Hdst.Verify.{
  VerifyLaws, Reports, task_lba, task_count, read_verify-IsVerified, read_verify_total,
  verify_failed_locates,
}

-- A drive as the contents of its sectors: writing copies the buffer, verifying marks with a 1.
abbrev Disk : Type 0
Disk = ℕ → ℕ

abbrev copy : Option Buffer → ℕ → ℕ → Disk → Disk
copy none lba n w s = w s
copy (some b) lba n w s = if leb lba s && ltb s (lba + n) then b (s - lba) else w s

abbrev mark : TaskFile → Disk → Disk
mark t w s =
    if leb (task_lba true t) s && ltb s (task_lba true t + task_count true t) then 1 else w s

abbrev drive : Atad Disk
drive = record {
  get_devinfo = λ i w. some (record { exists = true; lba48 = true });
  read_ilink = λ w. w;
  sec_unlock = λ i w. w;
  smart_get_status = λ i w. (ret 0, w);
  flush_cache = λ i w. (err eio, w);
  alloc = λ n w. (some (λ i. 7), w);
  free = λ w. w;
  sector_write = λ i b lba n w. (ret 0, copy b lba n w);
  io_start = λ t w. (ret 0, mark t w);
  io_finish = λ w. (ret 0, w);
  res_err_io = λ r. is_neg r;
  error_ecc = λ w. false;
  r_sector = λ w. 0x34;
  r_lcyl = λ w. 0x12;
  r_hcyl = λ w. 0;
  r_select = λ w. 0;
  set_hob = λ b w. w;
}

-- One whose sector 0x1234 is bad; its state is the HOB bit.
abbrev bad_drive : Atad Bool
bad_drive = record {
  get_devinfo = λ i w. some (record { exists = true; lba48 = false });
  read_ilink = λ w. w;
  sec_unlock = λ i w. w;
  smart_get_status = λ i w. (ret 0, w);
  flush_cache = λ i w. (ret 0, w);
  alloc = λ n w. (none, w);
  free = λ w. w;
  sector_write = λ i b lba n w. (ret 0, w);
  io_start = λ t w. (ret 0, w);
  io_finish = λ w. (err eio, w);
  res_err_io = λ r. is_neg r;
  error_ecc = λ w. true;
  r_sector = λ w. if w then 0 else 0x34;
  r_lcyl = λ w. 0x12;
  r_hcyl = λ w. 0;
  r_select = λ w. 0x45;
  set_hob = λ b w. b;
}

abbrev info48 : DevInfo
info48 = record { exists = true; lba48 = true }

abbrev sixteen : Driver
sixteen = record { io_buffer = some (λ i. 9); io_buffer_size = 16; dev_info = λ i. some info48 }

abbrev written : Disk
written s = 5

drive-WriteLaws : WriteLaws drive 0 (λ w s. w s)
drive-WriteLaws = record {
  inside = λ b lba n s w ok lo hi. ground arith;
  outside = λ b lba n s w out. ground arith;
}

drive-VerifyLaws : VerifyLaws drive true (λ w s. w s ≡ 1)
drive-VerifyLaws = record {
  reads = λ t s w p q lo hi. ground arith;
  keeps = λ t s w v. ground arith;
  reports = λ t w e. absurd (cc e);
}

abbrev blank : Option Buffer
blank = zero_sectors 16 (some (λ i. 9))

abbrev erased : Disk
erased = copy blank 35 8 (copy blank 19 16 (copy blank 3 16 written))

erase_run :
    erase_sectors drive sixteen 0 3 40 written
    ≡ some (ret 0, record sixteen { io_buffer = blank }, erased)
unfolding erase_sectors erase_loop
erase_run = refl

erase_sectors_zeroes_example : erased 42 ≡ 0
erase_sectors_zeroes_example =
    erase_sectors_zeroes drive 0 (λ w s. w s) drive-WriteLaws sixteen (λ i. 9) 3 40 written refl
      (omega arith) (omega arith) (ret 0) (record sixteen { io_buffer = blank }) erased 42 erase_run
      refl (omega arith) (omega arith)

erase_sectors_spares_example : erased 43 ≡ written 43
erase_sectors_spares_example =
    erase_sectors_spares drive 0 (λ w s. w s) drive-WriteLaws sixteen (λ i. 9) 3 40 written refl
      (omega arith) (omega arith) (ret 0) (record sixteen { io_buffer = blank }) erased 43 erase_run
      (inr (omega arith))

abbrev checked_all : Disk
checked_all = mark (verify_task true 0 65546 5) (mark (verify_task true 0 10 65536) written)

verify_run : read_verify drive sixteen 0 10 65541 written ≡ some (ret 0, checked_all)
unfolding read_verify verify_loop
verify_run = refl

read_verify-IsVerified_example : checked_all 65550 ≡ 1
read_verify-IsVerified_example =
    read_verify-IsVerified drive true (λ w s. w s ≡ 1) drive-VerifyLaws 0 10 (omega arith) sixteen
      info48 65541 65550 written checked_all refl refl (omega arith) (omega arith) verify_run
      (omega arith) (omega arith)

read_verify_total_example :
    (r : RetCode) × (w : Bool) × (read_verify bad_drive sixteen 0 0 3 false ≡ some (r, w))
read_verify_total_example = read_verify_total bad_drive sixteen 0 0 3 false info48 refl

bad_drive-Reports : Reports bad_drive false 0x5001234 false
bad_drive-Reports = record { sector = refl; lcyl = refl; hcyl = refl; high = refl }

verify_failed_locates_example :
    (verify_failed bad_drive false 0x5001200 (err eio) false).0 ≡ ret 0x35
verify_failed_locates_example =
    verify_failed_locates bad_drive false 0x5001200 0x5001234 (err eio) false bad_drive-Reports
      (omega arith) (omega arith) (omega arith) refl refl
