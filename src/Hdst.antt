-- ===== src/Hdst.antt =====
-- hdst/main.c: the HDD status driver, which verifies and erases ranges of sectors. The ATA driver,
-- the allocator and the drive's registers are the parameter `Atad`; `W` is the state of what is
-- outside the driver. `none` is a read through a NULL pointer or, in a loop, fuel that ran out.
pub mod Devctls
pub mod Erase
mod Tests
pub mod Verify
use hddchecker.Prelude.{
  ℕ, zero, suc, ◌+◌, ◌-◌, ◌*◌, ◌/◌, ◌%◌, Bool, true, false, Option, none, some, ltb, ◌==◌,
  if◌then◌else◌, RetCode, ret, err, enomem, enodev, einval, is_zero, add32, sub32, of_u32,
}

-- What the driver reads of `ata_devinfo_t`.
pub record DevInfo : Type 0 where
  pub exists : Bool
  pub lba48 : Bool

-- A buffer as the contents of its sectors; 0 stands for the sector that is all zeros.
abbrev pub Buffer : Type 0
Buffer = ℕ → ℕ

pub data AtaCommand : Type 0 where
  identify_device read_verify_sector read_verify_sector_ext : AtaCommand

-- The registers that a command is issued with.
pub record TaskFile : Type 0 where
  pub count : ℕ
  pub sector : ℕ
  pub lcyl : ℕ
  pub hcyl : ℕ
  pub select : ℕ
  pub command : AtaCommand

-- The functions and registers of the system that the driver uses.
pub record Atad (W : Type 0) : Type 0 where
  pub get_devinfo : ℕ → W → Option DevInfo
  pub read_ilink : W → W
  pub sec_unlock : ℕ → W → W
  pub smart_get_status : ℕ → W → RetCode × W
  pub flush_cache : ℕ → W → RetCode × W
  pub alloc : ℕ → W → Option Buffer × W
  pub free : W → W
  pub sector_write : ℕ → Option Buffer → ℕ → ℕ → W → RetCode × W
  pub io_start : TaskFile → W → RetCode × W
  pub io_finish : W → RetCode × W
  pub res_err_io : RetCode → Bool
  pub error_ecc : W → Bool
  pub r_sector : W → ℕ
  pub r_lcyl : W → ℕ
  pub r_hcyl : W → ℕ
  pub r_select : W → ℕ
  pub set_hob : Bool → W → W

pub record Driver : Type 0 where
  pub io_buffer : Option Buffer
  pub io_buffer_size : ℕ
  pub dev_info : ℕ → Option DevInfo

abbrev pub max_supported_units : ℕ
max_supported_units = 2

abbrev pub default_io_buffer_size : ℕ
default_io_buffer_size = 16

-- memset(IOBuffer, 0, n * HDD_SECTOR_SIZE)
abbrev pub zero_sectors : ℕ → Option Buffer → Option Buffer
zero_sectors n none = none
zero_sectors n (some b) = some (λ i. if ltb i n then 0 else b i)

-- What the driver reads back from the registers after an error. The fields do not overlap, so that
-- the source's `|` is a sum; `(x & 0xFF) << 8` is `x % 256 * 256`.
abbrev pub join_lba28 : ℕ → ℕ → ℕ → ℕ → ℕ
join_lba28 sector lcyl hcyl select =
    sector % 256 + lcyl % 256 * 256 + hcyl % 256 * 65536 + select % 16 * 16777216

abbrev pub join_lba48 : ℕ → ℕ → ℕ → ℕ → ℕ
join_lba48 sector lcyl hcyl high =
    sector % 256 + lcyl % 256 * 256 + hcyl % 256 * 65536 + high % 256 * 16777216

-- The 48-bit case: bits 24-31 of the address go above bits 0-7 in the sector register.
abbrev pub task48 : ℕ → ℕ → ℕ → TaskFile
task48 device lba len = record {
  count = len % 65536;
  sector = lba / 65536 / 256 % 256 * 256 + lba % 256;
  lcyl = lba / 256 % 256;
  hcyl = lba / 65536 % 256;
  select = (device * 16 + 64) % 65536;
  command = read_verify_sector_ext;
}

-- The 28-bit case: bits 24-27 go into the select register.
abbrev pub task28 : ℕ → ℕ → ℕ → TaskFile
task28 device lba len = record {
  count = len % 65536;
  sector = lba % 256;
  lcyl = lba / 256 % 256;
  hcyl = lba / 65536 % 256;
  select = (device * 16 + lba / 16777216 % 16 + 64) % 65536;
  command = read_verify_sector;
}

-- The command and the longest run that it can verify.
abbrev pub verify_len : Bool → ℕ → ℕ
verify_len true sectors = if ltb 65536 sectors then 65536 else sectors
verify_len false sectors = if ltb 256 sectors then 256 else sectors

abbrev pub verify_task : Bool → ℕ → ℕ → ℕ → TaskFile
verify_task true device lba len = task48 device lba len
verify_task false device lba len = task28 device lba len

module _ {W : Type 0} (a : Atad W) where
  -- The loop of hdst_EraseSectors. Each round writes at least one sector if the buffer has one.
  pub erase_loop : ℕ → Option Buffer → ℕ → ℕ → ℕ → ℕ → RetCode → W → Option (RetCode × W)
  erase_loop zero buffer size device lba sectors result w = none
  erase_loop (suc fuel) buffer size device lba sectors result w =
      let nsectors = if ltb size sectors then size else sectors in
      let written = a.sector_write device buffer lba nsectors w in
      let rest =
        erase_loop fuel buffer size device (add32 lba nsectors) (sectors - nsectors) written.0
          written.1 in
      if sectors == 0 then some (result, w) else if is_zero written.0 then rest else some written

  pub erase_sectors : Driver → ℕ → ℕ → ℕ → W → Option (RetCode × Driver × W)
  unfolding erase_loop
  erase_sectors d device lba sectors w =
      let size = d.io_buffer_size in
      let d' : Driver = record d {
        io_buffer = zero_sectors (if ltb size sectors then size else sectors) d.io_buffer;
      } in
      elim (erase_loop (suc sectors) d'.io_buffer size device lba sectors (ret 0) w) [
        | none ↦ none
        | some (r, w') ↦ some (r, d', w')
      ]

  -- SetIOBufferSize, for a size that is not negative: the parameter is a signed `int`.
  pub set_io_buffer_size : Driver → ℕ → W → RetCode × Driver × W
  set_io_buffer_size d size w =
      let freed : W = elim d.io_buffer [ none ↦ w | some _ ↦ a.free w ] in
      let got = a.alloc size freed in
      elim got.0 [
        | none ↦ (err enomem, record d { io_buffer = none; io_buffer_size = 0 }, got.1)
        | some b ↦ (ret 0, record d { io_buffer = some b; io_buffer_size = size }, got.1)
      ]

  -- One round of the loop of hdst_init.
  unlock_unit : ℕ → W → Option W
  unlock_unit i w = elim (a.get_devinfo i w) [
    | none ↦ none
    | some info ↦ some (if info.exists then a.sec_unlock i w else w)
  ]

  pub init : Driver → W → Option (RetCode × Driver × W)
  unfolding unlock_unit set_io_buffer_size
  init d w =
      let w0 = a.read_ilink w in
      elim (unlock_unit 0 w0) [
        | none ↦ none
        | some w1 ↦ elim (unlock_unit 1 w1) [
          | none ↦ none
          | some w2 ↦
              let d' : Driver = record d {
                dev_info = λ i.
                    if i == 0
                    then a.get_devinfo 0 w0
                    else if i == 1
                    then a.get_devinfo 1 w1
                    else d.dev_info i;
              } in
              let (_, d'', w3) = set_io_buffer_size d' default_io_buffer_size w2 in
              some (ret 0, d'', w3)
        ]
      ]

  -- The address of the sector that failed; reading bits 24-31 toggles the HOB bit.
  abbrev pub error_lba : Bool → W → ℕ × W
  error_lba true w =
      let w1 = a.set_hob true w in
      (join_lba48 (a.r_sector w) (a.r_lcyl w) (a.r_hcyl w) (a.r_sector w1), a.set_hob false w1)
  error_lba false w = (join_lba28 (a.r_sector w) (a.r_lcyl w) (a.r_hcyl w) (a.r_select w), w)

  -- What follows a failed ata_io_finish: an uncorrectable sector gives its offset, plus one.
  pub verify_failed : Bool → ℕ → RetCode → W → RetCode × W
  verify_failed lba48 start res w =
      let found = error_lba lba48 w in
      if a.res_err_io res
      then if a.error_ecc found.1
        then (of_u32 (add32 (sub32 found.0 start) 1), found.1)
        else (res, found.1)
      else (res, w)

  -- The loop of ata_device_read_verify; each round verifies at least one sector.
  pub verify_loop : ℕ → Bool → ℕ → ℕ → ℕ → ℕ → RetCode → W → Option (RetCode × W)
  unfolding verify_failed
  verify_loop zero lba48 device start lba sectors res w = none
  verify_loop (suc fuel) lba48 device start lba sectors res w =
      let len = verify_len lba48 sectors in
      let started = a.io_start (verify_task lba48 device lba len) w in
      let done = a.io_finish started.1 in
      let rest =
        verify_loop fuel lba48 device start (add32 lba len) (sectors - len) done.0 done.1 in
      if sectors == 0
      then some (res, w)
      else if is_zero started.0
      then if is_zero done.0 then rest else some (verify_failed lba48 start done.0 done.1)
      else some started

  pub read_verify : Driver → ℕ → ℕ → ℕ → W → Option (RetCode × W)
  unfolding verify_loop
  read_verify d device lba sectors w = elim (d.dev_info device) [
    | none ↦ none
    | some info ↦ verify_loop (suc sectors) info.lba48 device lba lba sectors (ret 0) w
  ]

  pub identify : ℕ → W → RetCode × W
  identify device w =
      let started =
        a.io_start
          (record {
            count = 0;
            sector = 0;
            lcyl = 0;
            hcyl = 0;
            select = device * 16 % 65536;
            command = identify_device;
          })
          w in
      if is_zero started.0 then a.io_finish started.1 else started

  pub ps2_detect_device : ℕ → W → RetCode × Option DevInfo
  ps2_detect_device device w = elim (a.get_devinfo device w) [
    | none ↦ (err enodev, none)
    | some info ↦ (ret 0, some info)
  ]

-- The devctl commands with their arguments; `no_arg` is a NULL argument pointer.
pub data Devctl : Type 0 where
  ps2_detect identify_cmd smart_status : Devctl
  verify_sectors erase : ℕ → ℕ → Devctl
  flush : Option ℕ → Devctl
  set_buffer_size : Option ℕ → Devctl
  unknown : Devctl

module _ {W : Type 0} (a : Atad W) where
  abbrev resize : Driver → Option ℕ → W → Option (RetCode × Driver × W)
  unfolding set_io_buffer_size
  resize d none w = none
  resize d (some size) w = some (set_io_buffer_size a d size w)

  -- The switch. The case of the cache flush has no `break`: it falls into the next case, which
  -- reads the command's argument as a buffer size.
  dispatch : Driver → ℕ → Devctl → W → Option (RetCode × Driver × W)
  unfolding ps2_detect_device identify read_verify erase_sectors set_io_buffer_size
  dispatch d unit ps2_detect w = some ((ps2_detect_device a unit w).0, d, w)
  dispatch d unit identify_cmd w = let done = identify a unit w in some (done.0, d, done.1)
  dispatch d unit smart_status w = let done = a.smart_get_status unit w in some (done.0, d, done.1)
  dispatch d unit (verify_sectors lba sectors) w = elim (read_verify a d unit lba sectors w) [
    | none ↦ none
    | some (r, w') ↦ some (r, d, w')
  ]
  dispatch d unit (erase lba sectors) w = erase_sectors a d unit lba sectors w
  dispatch d unit (flush arg) w = let flushed = a.flush_cache unit w in resize d arg flushed.1
  dispatch d unit (set_buffer_size arg) w = resize d arg w
  dispatch d unit unknown w = some (err einval, d, w)

  pub devctl : Driver → ℕ → Devctl → W → Option (RetCode × Driver × W)
  unfolding dispatch
  devctl d unit cmd w =
      if ltb unit max_supported_units
      then elim (d.dev_info unit) [
        | none ↦ none
        | some info ↦ if info.exists then dispatch d unit cmd w else some (err enodev, d, w)
      ]
      else some (err enodev, d, w)
