-- ===== src/Hdst/Devctls.antt =====
-- The devctl commands of hdst/main.c: which command reaches which function.
use hddchecker.Prelude.{ℕ, ◌<◌, ◌≡◌, true, some, arith}
use hddchecker.Hdst.{Atad, Driver, DevInfo, flush, set_buffer_size, dispatch, devctl}

module _ {W : Type 0} (a : Atad W) (d : Driver) (unit : ℕ) (info : DevInfo) (w : W) where
  -- On an existing unit the command that flushes the cache also resizes the buffer, by the number
  -- that its argument points to, and returns what the resizing returns: the flush's own code is lost.
  pub devctl_flush_resizes :
      (arg : ℕ)
      → unit < 2
      → d.dev_info unit ≡ some info
      → info.exists ≡ true
      → devctl a d unit (flush (some arg)) w
        ≡ devctl a d unit (set_buffer_size (some arg)) (a.flush_cache unit w).1
  unfolding devctl dispatch
  devctl_flush_resizes arg small found there = ground arith
