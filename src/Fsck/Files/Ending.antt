-- ===== src/Fsck/Files/Ending.antt =====
-- On a request to stop in fsckCheckFiles of fsck/fsck.c.
use hddchecker.Prelude.{ℕ, suc, ◌+◌, ◌≡◌, true, false, not, ltb, leb, none, arith, not_both, refl}
use hddchecker.Fsck.Layout.{Mount, BlockPos, dentry_size}
use hddchecker.Fsck.Device.{Device, Pfs}
use hddchecker.Fsck.Run.{Env, Action}
use hddchecker.Fsck.Run.Keeps.{Holds, Always, Keeps, keeps_rules}
use hddchecker.Fsck.Run.Leads.{
  Ends, Leads, Leads-pure, Leads-if, Leads-after, Leads-bind, Leads-Keeps, Leads-given,
  Leads-on_option, Leads-on_none, Leads-on_fetched,
}
use hddchecker.Fsck.Run.Settled.{IsStopped}
use hddchecker.Fsck.Run.Modes.{stopped-IsStopped, mark_error-IsStopped, io-IsStopped}
use hddchecker.Fsck.Files.{
  check_entries, next_chunk, end_files, check_chunks, check_files_with, check_files,
}

pub ruleset stop_rules = (keeps_rules, mark_error-IsStopped, io-IsStopped)

module _ {W : Type 0} (dev : Device W) (pfs : Pfs W) (m : Mount)
    (check_dir : ℕ → ℕ → Action W (Unit {0})) where
  -- No entry is looked at.
  check_entries-Leads :
      (fuel parent inode chunk end at offset : ℕ)
      → leb end at ≡ false
      → Leads ⊥ IsStopped
          (λ r s. IsStopped s × (r ≡ none))
          (check_entries dev pfs m (suc fuel) check_dir parent inode chunk end at offset)
  unfolding check_entries
  check_entries-Leads fuel parent inode chunk end at offset h =
      Leads-if (leb end at) _ _ (λ e. elim (not_both _ e h) [ ])
        (λ e. Leads-bind _ _ _ stopped-IsStopped (λ stop.
          Leads-given {P = IsStopped} (stop ≡ true) _ (λ g.
            Leads-if stop _ _ (λ f. Leads-pure none (λ s q. (q, refl)))
              (λ f. elim (not_both _ g f) [ ]))))

  check_chunks-Leads :
      (fuel parent inode chunk at : ℕ) (pos : BlockPos) (offset : ℕ)
      → Leads ⊥ IsStopped
          (λ a. IsStopped)
          (check_chunks dev pfs m (suc fuel) check_dir parent inode chunk at pos offset)
  unfolding check_chunks end_files next_chunk
  check_chunks-Leads fuel parent inode chunk at pos offset =
      Leads-after _ _ (search stop_rules) (λ ino.
        Leads-if (not (ltb offset ino.size)) _ _
          (λ e. Leads-Keeps _ (search stop_rules) (λ a s q. q))
          (λ e. Leads-after _ _ (search stop_rules depth 20) (λ found.
            Leads-on_option found _ _ (Leads-pure tt (λ s q. q)) (λ here.
              Leads-bind _ _ _
                (check_entries-Leads dentry_size parent inode here.0 (here.1 + dentry_size) here.1
                  offset (ground arith))
                (λ seen. Leads-given {P = IsStopped} (seen ≡ none) _ (λ n.
                  Leads-on_none seen _ _ n (Leads-Keeps _ (search stop_rules) (λ a s q. q))))))))

  check_files_with-Leads :
      (parent inode : ℕ)
      → Leads ⊥ IsStopped (λ a. IsStopped) (check_files_with dev pfs m check_dir parent inode)
  unfolding check_files_with
  check_files_with-Leads parent inode = Leads-after _ _ (search stop_rules) (λ u.
      Leads-after _ _ (search stop_rules) (λ ino. Leads-after _ _ (search stop_rules) (λ got.
        Leads-on_fetched got _ _ (λ r. Leads-Keeps _ (search stop_rules) (λ a s q. q))
          (λ chunk. check_chunks-Leads ino.size parent inode chunk 0 _ 0))))

module _ {W : Type 0} (dev : Device W) (pfs : Pfs W) (m : Mount) where
  -- Once a stop was requested, fsckCheckFiles ends, whatever the directories hold and however large
  -- they are, and the request still stands.
  pub check_files-IsStopped :
      (levels parent inode : ℕ) (s : Env W)
      → IsStopped s
      → Ends ⊥ (λ a. IsStopped) (check_files dev pfs m (suc levels) parent inode s)
  unfolding check_files
  check_files-IsStopped levels parent inode s h =
      (check_files_with-Leads dev pfs m (check_files dev pfs m levels) parent inode).goes s h
