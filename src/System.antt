-- ===== src/System.antt =====
-- system.c: the jobs that the menu starts, which drive the IOP's modules and the screen. The user
-- interface, the clock and the reboots of the IOP are the parameter `Panel`; a job's calls of the
-- drivers are a parameter of the job.
pub mod Clock
pub mod Fsck
pub mod Jobs
pub mod Optimize
pub mod Quiet
pub mod ZeroFill
pub mod Surface
mod Tests
use hddchecker.Prelude.{ℕ, Bool}

pub data Screen : Type 0 where
  zero_filling surface_scanning disk_scanning optimizing : Screen

pub data Message : Type 0 where
  zero_fill_abort scan_abort optimize_abort patch_failed zero_fill_done surface_done scan_done
        optimize_done hdd_fault ata_error :
      Message

-- ReadCombinedPadStatus with the mask of the cancel button, DisplayPromptMessage as whether its
-- second answer was chosen, the messages, the lock InstallLockSema, and the steps with which each
-- job returns to the main modules.
pub record Panel (W : Type 0) : Type 0 where
  pub ticks : W → ℕ × W
  pub draw : Screen → ℕ → ℕ → ℕ → W → W
  pub cancelled : W → Bool × W
  pub confirm : Message → W → Bool × W
  pub inform : Message → W → W
  pub show_error : Message → W → W
  pub lock : W → W
  pub unlock : W → W
  pub progress_screen : Screen → W → W
  pub reboot : W → W
