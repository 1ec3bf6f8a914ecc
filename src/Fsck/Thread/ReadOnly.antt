-- ===== src/Fsck/Thread/ReadOnly.antt =====
-- On runs of FsckThread of fsck/fsck.c without write mode.
use hddchecker.Prelude.{ℕ, ◌≡◌, refl, sym, subst, Bool, false, Option, none, some, List, RetCode}
use hddchecker.Fsck.Prompts.{Key, Session, prompt_action, check_attribute}
use hddchecker.Fsck.Prompts.Modes.{action-locked}
use hddchecker.Fsck.Prompts.Settled.{AnswersIn, ResultIn, attribute-ResultIn}
use hddchecker.Fsck.Layout.{Mount}
use hddchecker.Fsck.Device.{Device, Pfs}
use hddchecker.Fsck.Run.{Env}
use hddchecker.Fsck.Run.Keeps.{Holds, Within, Keeps, kept_rules}
use hddchecker.Fsck.Run.Settled.{IsReadOnly}
use hddchecker.Fsck.Run.Modes.{
  IsReadOnly-Stable, IsReadOnly-OnCache, set_event-IsReadOnly, clear-IsReadOnly,
}
use hddchecker.Fsck.Files.Kept.{check_root-Keeps, check_files-Keeps}
use hddchecker.Fsck.Compare.Kept.{compare_bitmap-Keeps}
use hddchecker.Fsck.Thread.Kept.{change_stat-Keeps}
use hddchecker.Fsck.Thread.{
  attribute_checked, attribute_part, change_stat, clear_errors, compare_part, note_fixes,
  scan_files, thread, buffer_sectors,
}

-- The same of the counts alone.
abbrev LockedAt : ℕ → Session → Type 0
LockedAt n c = (c.write_enabled ≡ false) × (c.fixed ≡ n)

answer-LockedAt :
    {n : ℕ} (mode : Bool) (c : Session) (ks : List Key)
    → LockedAt n c
    → AnswersIn (LockedAt n) (prompt_action mode c ks)
answer-LockedAt {n = n} mode c ks h =
    subst (AnswersIn (LockedAt n)) (sym (action-locked mode c ks h.0)) h

module _ {W : Type 0} (n : ℕ) where
  checked-ReadOnly :
      (s : Env W) (o : Option (RetCode × Session × List Key × W))
      → ResultIn (LockedAt n) o
      → Holds (Within (IsReadOnly n)) (attribute_checked s o)
  checked-ReadOnly s none h = tt
  checked-ReadOnly s (some (r, c, ks, w)) h = h

module _ {W : Type 0} (dev : Device W) (pfs : Pfs W) (m : Mount) {n : ℕ} where
  attribute-Keeps : Keeps (Within (IsReadOnly n)) (attribute_part dev pfs m)
  unfolding attribute_part
  attribute-Keeps = record {
    at = λ s h.
        checked-ReadOnly n s (check_attribute dev.attribute buffer_sectors s.session s.keys s.world)
          (attribute-ResultIn dev.attribute buffer_sectors (LockedAt n) answer-LockedAt s.session
            s.keys s.world h);
  }

  change-Keeps :
      (wanted : ℕ → Bool) (change : ℕ → ℕ)
      → Keeps (Within (IsReadOnly n)) (change_stat dev pfs m wanted change)
  change-Keeps wanted change =
      change_stat-Keeps dev pfs m wanted change (λ A f. search (kept_rules, IsReadOnly-Stable))

  compare-Keeps : Keeps (Within (IsReadOnly n)) (compare_part dev pfs m)
  unfolding compare_part clear_errors
  compare-Keeps =
      search
        (
          kept_rules, IsReadOnly-Stable, IsReadOnly-OnCache, compare_bitmap-Keeps, change-Keeps,
          clear-IsReadOnly,
        )
        depth 30

  scan-Keeps : Keeps (Within (IsReadOnly n)) (scan_files dev pfs m)
  unfolding scan_files note_fixes
  scan-Keeps =
      search
        (
          kept_rules, IsReadOnly-Stable, IsReadOnly-OnCache, check_root-Keeps, check_files-Keeps,
          compare-Keeps, change-Keeps,
        )
        depth 30

  thread-Keeps : Keeps (Within (IsReadOnly n)) (thread dev pfs m)
  unfolding thread
  thread-Keeps = search (kept_rules, attribute-Keeps, scan-Keeps, set_event-IsReadOnly) depth 30

module _ {W : Type 0} (dev : Device W) (pfs : Pfs W) (m : Mount) where
  -- In a run of the thread without write mode that has a value, the count of repaired errors is at
  -- the end what it was at the start.
  pub thread-IsReadOnly :
      (s : Env W)
      → (s.session).write_enabled ≡ false
      → Holds (Within (IsReadOnly (s.session).fixed)) (thread dev pfs m s)
  thread-IsReadOnly s h = (thread-Keeps dev pfs m).at s (h, refl)
