-- ===== src/Hdlog.antt =====
-- hdlog/main.c: the "tty" driver that sends the IOP's output to a file. The file calls of the I/O
-- manager are the parameter `Files`. A descriptor that is -1 in the code is `none`.
pub mod Handles
mod Tests
use hddchecker.Prelude.{
  ℕ, zero, suc, Bool, true, false, Option, none, some, List, [], ◌∷◌, ltb, leb, ◌==◌, if◌then◌else◌,
  RetCode, ret, err, other, enxio, ebusy,
}

-- open of the log file, of "tty00:", close and write.
pub record Files (W : Type 0) : Type 0 where
  pub open_block : W → RetCode × W
  pub open_tty : W → W
  pub close : ℕ → W → W
  pub write : ℕ → ℕ → W → RetCode × W

abbrev pub num_tty : ℕ
num_tty = 1

-- ttyFds
abbrev pub TtyFds : Type 0
TtyFds = ℕ → Option ℕ

abbrev pub set_fd : ℕ → Option ℕ → TtyFds → TtyFds
set_fd u v fds i = if i == u then v else fds i

pub init : TtyFds → RetCode × TtyFds
init fds = (ret 0, set_fd 0 none fds)

-- hdlog_open: the result, and what becomes the file's private data.
pub open_unit : TtyFds → ℕ → RetCode × Option ℕ
open_unit fds unit =
    if ltb unit num_tty
    then elim (fds unit) [ none ↦ (err enxio, none) | some fd ↦ (ret unit, some fd) ]
    else (err enxio, none)

module _ {W : Type 0} (io : Files W) where
  -- hdlog_write, with the 32-bit pattern of its size.
  pub write : ℕ → ℕ → W → RetCode × W
  write fd size w =
      if size == 0
      then (ret 0, w)
      else if leb 2147483648 size
      then (err (other 1), w)
      else io.write fd size w

  -- What a mount of unit 0 does to the standard descriptors.
  pub redirect : W → W
  redirect w = io.open_tty (io.open_tty (io.close 1 (io.close 0 w)))

  -- What follows the opening of the log file.
  abbrev pub attach : TtyFds → ℕ → RetCode → W → RetCode × TtyFds × W
  attach fds unit (err e) w = (err e, fds, w)
  attach fds unit (ret fd) w =
      (ret fd, set_fd unit (some fd) fds, if unit == 0 then redirect w else w)

  pub mount : TtyFds → ℕ → W → RetCode × TtyFds × W
  unfolding redirect
  mount fds unit w =
      if ltb unit num_tty
      then elim (fds unit) [
        | some fd ↦ (err ebusy, fds, w)
        | none ↦ let opened = io.open_block w in attach fds unit opened.0 opened.1
      ]
      else (err enxio, fds, w)

  -- _unmount
  pub unmount : TtyFds → ℕ → W → RetCode × TtyFds × W
  unmount fds unit w =
      if ltb unit num_tty
      then elim (fds unit) [
        | none ↦ (err enxio, fds, w)
        | some fd ↦ (ret 0, set_fd unit none fds, io.close fd w)
      ]
      else (err enxio, fds, w)

  pub deinit : TtyFds → W → RetCode × TtyFds × W
  unfolding unmount
  deinit fds w = let done = unmount fds 0 w in (ret 0, done.1, done.2)

-- The units, and the private data of the files that are open on "tty", the newest first: the
-- descriptor that ttyFds had when the file was opened.
pub record Logger : Type 0 where
  pub fds : TtyFds
  pub opened : List ℕ

-- The private data of file `k`.
pub private_data : ℕ → List ℕ → Option ℕ
private_data k [] = none
private_data zero (fd ∷ fds) = some fd
private_data (suc k) (fd ∷ fds) = private_data k fds

-- The calls that change the driver's state or write: a write of `n` bytes names the file.
pub data Call : Type 0 where
  mounts unmounts opens : ℕ → Call
  writes : ℕ → ℕ → Call

module _ {W : Type 0} (io : Files W) where
  -- A write goes to the descriptor that the file got when it was opened, whatever was mounted or
  -- unmounted since.
  pub call : Call → Logger → W → Logger × W
  unfolding mount unmount write open_unit private_data
  call (mounts u) t w = let done = mount io t.fds u w in (record t { fds = done.1 }, done.2)
  call (unmounts u) t w = let done = unmount io t.fds u w in (record t { fds = done.1 }, done.2)
  call (opens u) t w = elim (open_unit t.fds u).1 [
    | none ↦ (t, w)
    | some fd ↦ (record t { opened = fd ∷ t.opened }, w)
  ]
  call (writes k n) t w = elim (private_data k t.opened) [
    | none ↦ (t, w)
    | some fd ↦ (t, (write io fd n w).1)
  ]

  pub calls : List Call → Logger → W → Logger × W
  unfolding call
  calls [] t w = (t, w)
  calls (c ∷ cs) t w = let done = call c t w in calls cs done.0 done.1
