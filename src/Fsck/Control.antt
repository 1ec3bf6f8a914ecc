-- ===== src/Fsck/Control.antt =====
-- FsckIoctl2 and fsckGetEstimatedTime of fsck/fsck.c. The thread that FSCK_IOCTL2_CMD_START starts
-- runs between the calls; a wait for its event flag has no value before the flag is set.
pub mod Estimate
pub mod Signals
use hddchecker.Prelude.{
  ℕ, zero, suc, ◌+◌, ◌-◌, ◌*◌, ◌/◌, ◌%◌, ◌^◌, Bool, true, false, not, ◌&&◌, ◌||◌, ltb, ◌==◌,
  if◌then◌else◌, RetCode, ret, err, eio, enxio, einval, ebusy, is_neg, is_zero, add32, sub32,
  Option, none, some,
}
use hddchecker.Fsck.Bitmap.{part_init}
use hddchecker.Fsck.Zones.{check_zones}
use hddchecker.Fsck.Prompts.{Session}
use hddchecker.Fsck.Layout.{Mount}
use hddchecker.Fsck.Device.{Device, Pfs, Kernel}
use hddchecker.Fsck.Super.{check_super_block}
use hddchecker.Fsck.Run.{
  Env, Action, Status, pure, io, gives_up, ◌>>=◌, ◌>>◌, set_status, get_status, with_cache,
}
use hddchecker.Fsck.Open.{get_mount}

-- The commands of FsckIoctl2.
pub data Command : Type 0 where
  get_estimate start wait poll status stop : Command
  unknown : ℕ → Command

-- The output buffer of FsckIoctl2, where a command fills it.
pub data Output : Type 0 where
  no_output : Output
  estimate_of : ℕ → Output
  status_of : Session → Status → Output

-- The difference of two times of the clock, in two halves; the borrow is taken off the high one.
abbrev pub clock_diff : ℕ × ℕ → ℕ × ℕ → ℕ × ℕ
clock_diff t1 t2 = (sub32 t2.0 t1.0, sub32 (sub32 t2.1 t1.1) (if ltb t2.0 t1.0 then 1 else 0))

-- What fsckGetEstimatedTime makes of it, in seconds.
abbrev pub estimate_seconds : ℕ → ℕ → ℕ
estimate_seconds clock zones =
    let n = (clock + 400) * zones % 18446744073709551616 / 1000000 % 4294967296 in
    if n == 0 then 1 else n

module _ {W : Type 0} where
  pub set_stop : Action W (Unit {0})
  set_stop s = some (tt, record s { is_stopped = true })

  -- WaitEventFlag and PollEventFlag, with WEF_CLEAR; KE_EVF_COND of a poll is made 1.
  pub wait_event : Action W RetCode
  wait_event s = if s.is_done then some (ret 0, record s { is_done = false }) else none

  pub poll_event : Action W RetCode
  poll_event s = if s.is_done then some (ret 0, record s { is_done = false }) else some (ret 1, s)

  pub read_status : Action W Output
  read_status s = some (status_of s.session s.status, s)

module _ {W : Type 0} (dev : Device W) (kernel : Kernel W) where
  -- The shortest of `n` reads, in microseconds; the whole seconds of a read are dropped.
  pub shortest : Mount → ℕ → ℕ → Action W ℕ
  shortest m zero clock = pure clock
  shortest m (suc n) clock = do
    t1 ← io kernel.get_time
    io (dev.read 0 (2 ^ m.sector_scale) (2 ^ m.sector_scale))
    t2 ← io kernel.get_time
    let usec = kernel.usec_part (clock_diff t1 t2)
    shortest m n (if ltb usec clock then usec else clock)

  -- fsckGetEstimatedTime
  pub estimate : Action W ℕ
  unfolding shortest
  estimate = do
    m ← get_mount
    clock ← shortest m 4 1000000
    st ← get_status
    pure (estimate_seconds clock st.zone_used)

  -- FsckIoctl2
  pub control : Command → Action W (RetCode × Output)
  unfolding estimate
  control get_estimate = estimate >>= λ n. pure (ret 0, estimate_of n)
  control start = io kernel.start_thread >>= λ r. pure (r, no_output)
  control wait = wait_event >>= λ r. pure (r, no_output)
  control poll = poll_event >>= λ r. pure (r, no_output)
  control status = read_status >>= λ out. pure (ret 0, out)
  control stop = set_stop >> pure (ret 0, no_output)
  control (unknown n) = pure (ret 0, no_output)
