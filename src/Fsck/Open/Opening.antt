-- ===== src/Fsck/Open/Opening.antt =====
-- On FsckOpen of fsck/fsck.c.
use hddchecker.Prelude.{
  ℕ, zero, suc, ◌≡◌, refl, true, false, not, ◌==◌, RetCode, ret, err, ebusy, einval, enxio, is_neg,
  not_both, Option, none, some,
}
use hddchecker.Fsck.Layout.{Mount}
use hddchecker.Fsck.Device.{Device, Pfs, Kernel}
use hddchecker.Fsck.Run.{Env, Action, pure}
use hddchecker.Fsck.Run.Keeps.{Holds, Within, Keeps, keeps_rules}
use hddchecker.Fsck.Run.Modes.{IsFresh, set_status-IsFresh, with_cache-IsFresh}
use hddchecker.Fsck.Run.Leads.{Ends, Leads, Leads-pure, Leads-if, Leads-after, Leads-bind}
use hddchecker.Fsck.Open.{
  get_mount, get_fd, clear_runtime, reserve, begin_run, open_mount, open_partition, open_fsck,
  on_fd,
}

module _ {W : Type 0} {P : Option (Env W) → Type 0} where
  pub Keeps-get_mount : Keeps P get_mount
  unfolding get_mount
  Keeps-get_mount = record { at = λ s h. h }

  pub Keeps-get_fd : Keeps P get_fd
  unfolding get_fd
  Keeps-get_fd = record { at = λ s h. h }

-- Nothing is asked of a state.
abbrev Anything : {W : Type 0} → Env W → Type 0
Anything s = Unit {0}

-- A result without an error comes with a run that has found nothing.
abbrev pub IsBegun : {W : Type 0} → RetCode → Env W → Type 0
IsBegun r s = is_neg r ≡ false → IsFresh s

module _ {W A : Type 0} where
  any-Holds : (o : Option (A × Env W)) → Holds (Within Anything) o
  any-Holds none = tt
  any-Holds (some (a, s)) = tt

  any-Keeps : (m : Action W A) → Keeps (Within Anything) m
  any-Keeps m = record { at = λ s h. any-Holds (m s) }

module _ {W : Type 0} {P : Env W → Type 0} where
  failed-Leads : (r : RetCode) → is_neg r ≡ true → Leads {W = W} (Unit {0}) P IsBegun (pure r)
  failed-Leads r e = Leads-pure r (λ s q k. elim (not_both (is_neg r) e k) [ ])

  clear_runtime-IsFresh : Leads {W = W} (Unit {0}) P (λ a. IsFresh) clear_runtime
  unfolding clear_runtime
  clear_runtime-IsFresh = record { goes = λ s h. (refl, refl, refl, refl) }

module _ {W : Type 0} (dev : Device W) (pfs : Pfs W) (kernel : Kernel W) where
  reserve-IsFresh :
      (m : Mount) (n sub : ℕ) → Keeps (Within IsFresh) (reserve dev pfs kernel m n sub)
  unfolding reserve
  reserve-IsFresh m zero sub = search keeps_rules
  reserve-IsFresh m (suc n) sub =
      search (keeps_rules, set_status-IsFresh, with_cache-IsFresh, reserve-IsFresh m n)

  begin_run-Leads : (m : Mount) → Leads (Unit {0}) Anything IsBegun (begin_run dev pfs kernel m)
  unfolding begin_run
  begin_run-Leads m = Leads-after _ _ (any-Keeps _) (λ r.
      Leads-if (is_neg r) _ _ (λ e. Leads-after _ _ (any-Keeps _) (λ u. failed-Leads r e))
        (λ e. Leads-bind _ _ _ clear_runtime-IsFresh (λ u.
          Leads-after _ _ (set_status-IsFresh _)
            (λ v. Leads-after _ _ (reserve-IsFresh m _ 0) (λ w. Leads-pure (ret 0) (λ s q k. q))))))

  open_mount-Leads : (fd : ℕ) → Leads (Unit {0}) Anything IsBegun (open_mount dev pfs kernel fd)
  unfolding open_mount
  open_mount-Leads fd = Leads-after _ _ (any-Keeps _) (λ old. Leads-after _ _ (any-Keeps _) (λ u.
      Leads-after _ _ (any-Keeps _) (λ done. Leads-after _ _ (any-Keeps _) (λ v.
        Leads-if (is_neg done.0) _ _
          (λ e. Leads-after _ _ (any-Keeps _) (λ w. failed-Leads done.0 e))
          (λ e. begin_run-Leads done.1)))))

  on_fd-Leads :
      (fd : RetCode) → Leads (Unit {0}) Anything IsBegun (on_fd fd (open_mount dev pfs kernel))
  unfolding on_fd
  on_fd-Leads (err e) = failed-Leads (err e) refl
  on_fd-Leads (ret n) = open_mount-Leads n

  open_partition-Leads : Leads (Unit {0}) Anything IsBegun (open_partition dev pfs kernel)
  unfolding open_partition
  open_partition-Leads = Leads-after _ _ (any-Keeps _) (λ stat.
      Leads-if (is_neg stat.0) _ _ (failed-Leads stat.0) (λ e.
        Leads-if (not (stat.1 == kernel.type_pfs)) _ _ (λ f. failed-Leads (err einval) refl)
          (λ f. Leads-after _ _ (any-Keeps _) (λ known.
            Leads-if (not known) _ _ (λ g. failed-Leads (err enxio) refl)
              (λ g. Leads-after _ _ (any-Keeps _) on_fd-Leads)))))

  -- If FsckOpen has a value and returns no error, no error has been counted as found or repaired,
  -- the error flag does not stand, and no stop is requested.
  pub open_fsck-IsBegun :
      (mode : ℕ) (s : Env W) → Ends (Unit {0}) IsBegun (open_fsck dev pfs kernel mode s)
  unfolding open_fsck
  open_fsck-IsBegun mode s =
      (Leads-after _ _ (any-Keeps _) (λ u. Leads-after _ _ (any-Keeps _) (λ fd.
          Leads-if (not (fd == 0)) _ _ (λ e. failed-Leads (err ebusy) refl)
            (λ e. open_partition-Leads)))).goes
        s tt
