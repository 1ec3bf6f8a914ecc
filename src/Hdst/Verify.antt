-- ===== src/Hdst/Verify.antt =====
-- ata_device_read_verify of hdst/main.c, over a drive that carries out what its registers say.
use hddchecker.Prelude.{
  ℕ, zero, suc, ◌+◌, ◌-◌, ◌/◌, ◌%◌, ◌≤◌, ◌<◌, ◌≡◌, refl, Bool, true, false, Option, none, some,
  arith, inl, inr, ◌==◌, if◌then◌else◌, Bool-cases, dec_lt, ap, RetCode, ret, is_zero, is_zero_iff,
  add32,
}
use hddchecker.Hdst.{
  Atad, TaskFile, Driver, DevInfo, join_lba28, join_lba48, verify_task, verify_len, verify_loop,
  verify_failed, error_lba, read_verify,
}

-- How many sectors a device can address, and how it reads a task file: a count of 0 stands for the
-- longest run, 65536 or 256 sectors.
abbrev pub limit : Bool → ℕ
limit true = 4294967296
limit false = 268435456

abbrev pub task_lba : Bool → TaskFile → ℕ
task_lba true t = join_lba48 t.sector t.lcyl t.hcyl (t.sector / 256)
task_lba false t = join_lba28 t.sector t.lcyl t.hcyl t.select

abbrev pub task_count : Bool → TaskFile → ℕ
task_count true t = if t.count == 0 then 65536 else t.count
task_count false t = if t.count == 0 then 256 else t.count

-- The registers of a command say its first sector and the number of sectors, in both addressing
-- modes, for an address that the mode has and a run of at most its longest.
pub verify_task_addresses :
    (lba48 : Bool) (device lba sectors : ℕ)
    → device < 2
    → lba < limit lba48
    → 0 < sectors
    → (task_lba lba48 (verify_task lba48 device lba (verify_len lba48 sectors)) ≡ lba)
      × (task_count lba48 (verify_task lba48 device lba (verify_len lba48 sectors))
          ≡ verify_len lba48 sectors)
verify_task_addresses true device lba sectors dev h pos = (omega arith, ground arith)
verify_task_addresses false device lba sectors dev h pos = (omega arith, ground arith)

-- What READ VERIFY promises: the sectors that a task file names have been read without an error if
-- the command starts and ends with 0; what has been verified stays so.
pub record VerifyLaws {W : Type 0} (a : Atad W) (lba48 : Bool) (IsVerified : W → ℕ → Type 0)
    : Type 0 where
  pub reads :
      (t : TaskFile) (s : ℕ) (w : W)
      → (a.io_start t w).0 ≡ ret 0
      → (a.io_finish (a.io_start t w).1).0 ≡ ret 0
      → task_lba lba48 t ≤ s
      → s < task_lba lba48 t + task_count lba48 t
      → IsVerified (a.io_finish (a.io_start t w).1).1 s
  pub keeps :
      (t : TaskFile) (s : ℕ) (w : W)
      → IsVerified w s
      → IsVerified (a.io_finish (a.io_start t w).1).1 s
  -- A sector that cannot be corrected is one of the command's, and the registers say which.
  pub reports :
      (t : TaskFile) (w : W)
      → let v = (a.io_finish (a.io_start t w).1).1 in
        a.error_ecc (error_lba a lba48 v).1 ≡ true
        → (task_lba lba48 t ≤ (error_lba a lba48 v).0)
          × ((error_lba a lba48 v).0 < task_lba lba48 t + task_count lba48 t)

-- READ VERIFY ends: each round takes at least one sector off the count.
module _ {W : Type 0} (a : Atad W) (lba48 : Bool) (device start : ℕ) where
  pub verify_loop_total :
      (fuel lba sectors : ℕ) (res : RetCode) (w : W)
      → sectors < fuel
      → (r : RetCode) × (w' : W) × (verify_loop a fuel lba48 device start lba sectors res w
          ≡ some (r, w'))
  unfolding verify_loop
  verify_loop_total zero lba sectors res w h = absurd (omega arith)
  verify_loop_total (suc fuel) lba sectors res w h = elim (Bool-cases (sectors == 0)) [
    | inl e ↦ (res, w, rw e)
    | inr e ↦ rw e (elim (Bool-cases (is_zero started.0)) [
      | inr bad ↦ (started.0, started.1, rw bad)
      | inl good ↦ rw good (elim (Bool-cases (is_zero done.0)) [
        | inr bad ↦ (failed.0, failed.1, rw bad)
        | inl ok ↦
            rw ok (
              verify_loop_total fuel (add32 lba len) (sectors - len) done.0 done.1
                (shrinks lba48 e))
      ])
    ])
  ]
    where
      len : ℕ
      len = verify_len lba48 sectors

      started : RetCode × W
      started = a.io_start (verify_task lba48 device lba len) w

      done : RetCode × W
      done = a.io_finish started.1

      failed : RetCode × W
      failed = verify_failed a lba48 start done.0 done.1

      shrinks : (m : Bool) → (sectors == 0) ≡ false → sectors - verify_len m sectors < fuel
      shrinks true e = ground arith
      shrinks false e = ground arith

verify_len_bounds :
    (m : Bool) (sectors : ℕ)
    → 0 < sectors
    → (0 < verify_len m sectors) × (verify_len m sectors ≤ sectors)
verify_len_bounds true sectors h = ground arith
verify_len_bounds false sectors h = ground arith

limit-le : (m : Bool) → limit m ≤ 4294967296
limit-le true = omega arith
limit-le false = omega arith

-- An uncorrectable sector within the 32-bit range gives no 0.
verify_failed-ne_zero :
    {W : Type 0} (a : Atad W) (lba48 : Bool) (start : ℕ) (res : RetCode) (w : W)
    → is_zero res ≡ false
    → (a.error_ecc (error_lba a lba48 w).1 ≡ true
        → (start ≤ (error_lba a lba48 w).0)
          × ((error_lba a lba48 w).0 + 1 < 4294967296 + start)
          × ((error_lba a lba48 w).0 < 4294967296))
    → is_zero (verify_failed a lba48 start res w).0 ≡ false
unfolding verify_failed
verify_failed-ne_zero a lba48 start res w bad found = elim (Bool-cases (a.res_err_io res)) [
  | inr e ↦ rw e bad
  | inl e ↦ rw e (elim (Bool-cases (a.error_ecc (error_lba a lba48 w).1)) [
    | inr q ↦ rw q bad
    | inl q ↦ rw q (let (p1, p2, p3) = found q in ground arith)
  ])
]

module _ {W : Type 0} (a : Atad W) (lba48 : Bool) (IsVerified : W → ℕ → Type 0)
    (laws : VerifyLaws a lba48 IsVerified) (device start : ℕ) (dev : device < 2) where
  -- One round that goes on, and one that stops the loop.
  verify_loop-round :
      (P : Option (RetCode × W) → Type 0) (fuel lba sectors : ℕ) (res : RetCode) (w : W)
      → start ≤ lba
      → lba + sectors ≤ limit lba48
      → lba + sectors < 4294967296
      → (sectors ≡ 0 → P (some (res, w)))
      → ((r : RetCode) (v : W) → is_zero r ≡ false → P (some (r, v)))
      → (let len = verify_len lba48 sectors in
          let task = verify_task lba48 device lba len in
          let v = (a.io_finish (a.io_start task w).1).1 in
          (a.io_start task w).0 ≡ ret 0
          → (a.io_finish (a.io_start task w).1).0 ≡ ret 0
          → 0 < sectors
          → P (verify_loop a fuel lba48 device start (add32 lba len) (sectors - len) (ret 0) v))
      → P (verify_loop a (suc fuel) lba48 device start lba sectors res w)
  unfolding verify_loop
  verify_loop-round P fuel lba sectors res w le room room32 none_left stops goes =
      elim (Bool-cases (sectors == 0)) [
        | inl e ↦ rw e (none_left (ground arith))
        | inr e ↦ rw e (elim (Bool-cases (is_zero started.0)) [
          | inr bad ↦ rw bad (stops _ _ bad)
          | inl good ↦ rw good (elim (Bool-cases (is_zero done.0)) [
            | inr bad ↦ rw bad (stops _ _ (failed (ground arith) bad))
            | inl ok ↦
                rw (ok, is_zero_iff done.0 ok)
                  (goes (is_zero_iff started.0 good) (is_zero_iff done.0 ok) (ground arith))
          ])
        ])
      ]
    where
      len : ℕ
      len = verify_len lba48 sectors

      started : RetCode × W
      started = a.io_start (verify_task lba48 device lba len) w

      done : RetCode × W
      done = a.io_finish started.1

      failed :
          0 < sectors
          → is_zero done.0 ≡ false
          → is_zero (verify_failed a lba48 start done.0 done.1).0 ≡ false
      failed pos bad = verify_failed-ne_zero a lba48 start done.0 done.1 bad λ ecc.
          let (lo, hi) = laws.reports (verify_task lba48 device lba len) w ecc in
          let (at, count) =
            verify_task_addresses lba48 device lba sectors dev (omega (arith)) pos in
          let (_, small) = verify_len_bounds lba48 sectors pos in
          (omega arith, omega arith, omega arith)

  verify_loop_no_fuel :
      (lba sectors : ℕ) (res : RetCode) (w : W)
      → verify_loop a zero lba48 device start lba sectors res w ≡ none
  unfolding verify_loop
  verify_loop_no_fuel lba sectors res w = refl

  verify_loop-keeps :
      (s : ℕ) (w' : W) (fuel lba sectors : ℕ) (res : RetCode) (w : W)
      → start ≤ lba
      → lba + sectors ≤ limit lba48
      → lba + sectors < 4294967296
      → IsVerified w s
      → verify_loop a fuel lba48 device start lba sectors res w ≡ some (ret 0, w')
      → IsVerified w' s
  verify_loop-keeps s w' zero lba sectors res w le room room32 old run =
      absurd (cc (verify_loop_no_fuel lba sectors res w))
  verify_loop-keeps s w' (suc fuel) lba sectors res w le room room32 old run =
      verify_loop-round (λ o. o ≡ some (ret 0, w') → IsVerified w' s) fuel lba sectors res w le room
        room32 (λ _ e. let same : w ≡ w' = cc in rw (← same) old)
        (λ r v bad e. let same : r ≡ ret 0 = cc in cc (ap is_zero same))
        (λ p q pos run'.
          let (_, small) = verify_len_bounds lba48 sectors pos in
          verify_loop-keeps s w' fuel (add32 lba (verify_len lba48 sectors))
            (sectors - verify_len lba48 sectors) (ret 0) _ (omega arith) (omega arith) (omega arith)
            (laws.keeps (verify_task lba48 device lba (verify_len lba48 sectors)) s w old) run')
        run

  verify_loop-IsVerified :
      (s : ℕ) (w' : W) (fuel lba sectors : ℕ) (res : RetCode) (w : W)
      → start ≤ lba
      → lba + sectors ≤ limit lba48
      → lba + sectors < 4294967296
      → lba ≤ s
      → s < lba + sectors
      → verify_loop a fuel lba48 device start lba sectors res w ≡ some (ret 0, w')
      → IsVerified w' s
  verify_loop-IsVerified s w' zero lba sectors res w le room room32 lo hi run =
      absurd (cc (verify_loop_no_fuel lba sectors res w))
  verify_loop-IsVerified s w' (suc fuel) lba sectors res w le room room32 lo hi run =
      verify_loop-round (λ o. o ≡ some (ret 0, w') → IsVerified w' s) fuel lba sectors res w le room
        room32 (λ e _. absurd (omega arith))
        (λ r v bad e. let same : r ≡ ret 0 = cc in cc (ap is_zero same))
        (λ p q pos run'.
          let len : ℕ = verify_len lba48 sectors in
          let (more, small) = verify_len_bounds lba48 sectors pos in
          let (first, many) =
            verify_task_addresses lba48 device lba sectors dev (omega arith) pos in
          elim (dec_lt s (lba + len)) [
            | yes here ↦
                verify_loop-keeps s w' fuel (add32 lba len) (sectors - len) (ret 0) _ (omega arith)
                  (omega arith) (omega arith)
                  (laws.reads (verify_task lba48 device lba len) s w p q (omega arith)
                    (omega arith))
                  run'
            | no later ↦
                verify_loop-IsVerified s w' fuel (add32 lba len) (sectors - len) (ret 0) _
                  (omega arith) (omega arith) (omega arith) (omega arith) (omega arith) run'
          ])
        run

  -- If the verification of a range of the drive's addresses returns 0, each of its sectors has been
  -- read without an error.
  pub read_verify-IsVerified :
      (d : Driver) (info : DevInfo) (sectors s : ℕ) (w w' : W)
      → d.dev_info device ≡ some info
      → info.lba48 ≡ lba48
      → start + sectors ≤ limit lba48
      → start + sectors < 4294967296
      → read_verify a d device start sectors w ≡ some (ret 0, w')
      → start ≤ s
      → s < start + sectors
      → IsVerified w' s
  unfolding read_verify
  read_verify-IsVerified d info sectors s w w' found mode room room32 run lo hi =
      verify_loop-IsVerified s w' (suc sectors) start sectors (ret 0) w (omega arith) room room32 lo
        hi (rw (← mode) (ground arith))

-- READ VERIFY ends and returns a code, for every device whose information has been read.
pub read_verify_total :
    {W : Type 0} (a : Atad W) (d : Driver) (device lba sectors : ℕ) (w : W) (info : DevInfo)
    → d.dev_info device ≡ some info
    → (r : RetCode) × (w' : W) × (read_verify a d device lba sectors w ≡ some (r, w'))
unfolding read_verify
read_verify_total a d device lba sectors w info found =
    let (r, w', run) =
      verify_loop_total a info.lba48 device lba (suc sectors) lba sectors (ret 0) w (omega arith) in
    (r, w', rw (found, read_verify) run)

-- The registers as a drive sets them when sector `bad` cannot be corrected: bits 24 and up are in
-- the sector register under HOB in the 48-bit mode, and in the select register in the 28-bit one.
pub record Reports {W : Type 0} (a : Atad W) (lba48 : Bool) (bad : ℕ) (w : W) : Type 0 where
  pub sector : a.r_sector w % 256 ≡ bad % 256
  pub lcyl : a.r_lcyl w % 256 ≡ bad / 256 % 256
  pub hcyl : a.r_hcyl w % 256 ≡ bad / 65536 % 256
  pub high :
      (if lba48 then a.r_sector (a.set_hob true w) % 256 else a.r_select w % 16) ≡ bad / 16777216

-- If the registers hold the address of an uncorrectable sector the way a drive sets them in the
-- addressing mode, bits 24 and up under HOB in the 48-bit mode and in the select register in the
-- 28-bit one, the result is its offset in the range plus one, in both modes, for offsets up to
-- 2 ^ 31 - 2.
pub verify_failed_locates :
    {W : Type 0} (a : Atad W) (lba48 : Bool) (start bad : ℕ) (res : RetCode) (w : W)
    → Reports a lba48 bad w
    → bad < limit lba48
    → start ≤ bad
    → bad < start + 2147483647
    → a.res_err_io res ≡ true
    → a.error_ecc (error_lba a lba48 w).1 ≡ true
    → (verify_failed a lba48 start res w).0 ≡ ret (bad - start + 1)
unfolding verify_failed
verify_failed_locates a true start bad res w regs small le near io ecc = ground arith
verify_failed_locates a false start bad res w regs small le near io ecc = ground arith
