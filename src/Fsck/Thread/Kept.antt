-- ===== src/Fsck/Thread/Kept.antt =====
-- On the counts and the error record in a run of FsckThread of fsck/fsck.c.
use hddchecker.Prelude.{
  ℕ, ◌+◌, ◌≡◌, refl, ap, ◌∙◌, ◌⊎◌, inl, inr, Bool, true, false, ◌||◌, Option, none, some, List,
  RetCode, is_neg, arith,
}
use hddchecker.Fsck.Prompts.{Key, Session, check_attribute}
use hddchecker.Fsck.Prompts.Settled.{IsSettled, ResultIn, action-Settles, attribute-ResultIn}
use hddchecker.Fsck.Layout.{Mount}
use hddchecker.Fsck.Device.{Device, Pfs}
use hddchecker.Fsck.Run.{Env, io}
use hddchecker.Fsck.Run.Keeps.{Within, Keeps-any_io, Holds, Keeps, kept_rules}
use hddchecker.Fsck.Run.Leads.{
  Ends, Leads, Leads-if, Leads-pure, Leads-after, Leads-bind, Leads-Keeps, Leads-weaken,
  Leads-on_option, has_error-Leads, stopped-Leads, clear-Leads, set_event-Leads,
}
use hddchecker.Fsck.Run.Settled.{Settled, Settled-Stable, Settled-OnCache}
use hddchecker.Fsck.Files.Kept.{check_root-Keeps, check_files-Keeps}
use hddchecker.Fsck.Compare.Kept.{compare_bitmap-Keeps}
use hddchecker.Fsck.Thread.{
  attribute_checked, attribute_part, change_stat, clear_errors, compare_part, note_fixes,
  scan_files, thread, buffer_sectors,
}

-- What stands at the end of a run: the counts agree, and where the partition's record was asked for
-- once more, the error flag does not stand and no stop was requested.
abbrev pub IsCleared : {W : Type 0} → ℕ → Env W → Type 0
IsCleared k s = (s.clears ≡ k + 1) × ((s.session).has_error ≡ false) × (s.is_stopped ≡ false)

abbrev pub IsEnded : {W : Type 0} → ℕ → Env W → Type 0
IsEnded k s = IsSettled s.session × ((s.clears ≡ k) ⊎ IsCleared k s)

module _ {W : Type 0} {k : ℕ} where
  checked-Holds :
      (s : Env W) (o : Option (RetCode × Session × List Key × W))
      → ResultIn IsSettled o
      → s.clears ≡ k
      → Holds (Within (Settled k)) (attribute_checked s o)
  checked-Holds s none h e = tt
  checked-Holds s (some (r, c, ks, w)) h e = (h, e)

module _ {W : Type 0} (dev : Device W) (pfs : Pfs W) (m : Mount) {k : ℕ} where
  attribute-Keeps : Keeps (Within (Settled k)) (attribute_part dev pfs m)
  unfolding attribute_part
  attribute-Keeps = record {
    at = λ s h.
        checked-Holds s (check_attribute dev.attribute buffer_sectors s.session s.keys s.world)
          (attribute-ResultIn dev.attribute buffer_sectors IsSettled action-Settles s.session s.keys
            s.world h.0)
          h.1;
  }

-- A run whose error flag does not stand and that nobody stopped.
abbrev IsClean : {W : Type 0} → ℕ → Env W → Type 0
IsClean k s = Settled k s × ((s.session).has_error ≡ false) × (s.is_stopped ≡ false)

or_false : (a b : Bool) → (a || b) ≡ false → (a ≡ false) × (b ≡ false)
or_false a b h = (ground arith, ground arith)

module _ {W A : Type 0} {k : ℕ} where
  IsClean-io : (f : W → A × W) → Keeps (Within (IsClean k)) (io f)
  IsClean-io f = Keeps-any_io f (λ s w h. h)

  IsEnded-io : (f : W → A × W) → Keeps (Within (IsEnded k)) (io f)
  IsEnded-io f = Keeps-any_io f (λ s w h. h)

module _ {W : Type 0} (dev : Device W) (pfs : Pfs W) (m : Mount) where
  pub change_stat-Keeps :
      {P : Option (Env W) → Type 0} (wanted : ℕ → Bool) (change : ℕ → ℕ)
      → ((A : Type 0) (f : W → A × W) → Keeps P (io f))
      → Keeps P (change_stat dev pfs m wanted change)
  unfolding change_stat
  change_stat-Keeps wanted change h = search kept_rules depth 40 fits 4000

module _ {W : Type 0} (dev : Device W) (pfs : Pfs W) (m : Mount) {k : ℕ} where
  clear_errors-Leads : Leads (Unit {0}) (Settled k) (λ a. IsEnded k) (clear_errors dev pfs m)
  unfolding clear_errors
  clear_errors-Leads = Leads-bind _ _ _ has_error-Leads (λ failed.
      Leads-bind _ _ _ (stopped-Leads (λ s b h. h)) (λ stop.
        Leads-if (failed || stop) _ _ (λ e. Leads-pure tt (λ s h. ((h.0).0.0, inl (h.0).0.1)))
          (λ e.
            Leads-weaken (IsClean k) _
              (Leads-after _ _ (change_stat-Keeps dev pfs m _ _ (λ A. IsClean-io)) (λ u.
                clear-Leads dev.clear_part_error
                  (λ s h. (h.0.0, inr (ap (λ n. n + 1) h.0.1, h.1, h.2)))))
              (λ s h. (
                (h.0).0,
                (h.0).1 ∙ (or_false failed stop e).0,
                h.1 ∙ (or_false failed stop e).1,
              )))))

  compare_part-Leads : Leads (Unit {0}) (Settled k) (λ a. IsEnded k) (compare_part dev pfs m)
  unfolding compare_part
  compare_part-Leads = Leads-after _ _ (search kept_rules) (λ failed.
      Leads-if failed _ _ (λ e. Leads-pure tt (λ s h. (h.0, inl h.1)))
        (λ e. Leads-after _ _ (search (kept_rules, Settled-Stable)) (λ stop.
          Leads-after _ _
            (search (kept_rules, Settled-Stable, Settled-OnCache, compare_bitmap-Keeps))
            (λ u. clear_errors-Leads))))

  note_fixes-Keeps : Keeps (Within (IsEnded k)) (note_fixes dev pfs m)
  unfolding note_fixes
  note_fixes-Keeps = search (kept_rules, change_stat-Keeps, IsEnded-io)

  scan_files-Leads : Leads (Unit {0}) (Settled k) (λ a. IsEnded k) (scan_files dev pfs m)
  unfolding scan_files
  scan_files-Leads =
      Leads-after _ _ (search (kept_rules, Settled-Stable, Settled-OnCache, check_root-Keeps))
        (λ root. Leads-on_option root _ _ (Leads-pure tt (λ s h. (h.0, inl h.1))) (λ link.
          Leads-after _ _ (search (kept_rules, Settled-Stable)) (λ a.
            Leads-after _ _
              (search (kept_rules, Settled-Stable, Settled-OnCache, check_files-Keeps))
              (λ b. Leads-after _ _ (search (kept_rules, Settled-Stable)) (λ c.
                Leads-after _ _ (search (kept_rules, Settled-Stable)) (λ d.
                  Leads-bind (λ a. IsEnded k) _ _ compare_part-Leads
                    (λ e.
                      Leads-after _ _ note_fixes-Keeps
                        (λ f. Leads-Keeps _ (IsEnded-io _) (λ a s h. h)))))))))

  thread-Leads :
      Leads (Unit {0}) (Settled k) (λ a s. IsEnded k s × (s.is_done ≡ true)) (thread dev pfs m)
  unfolding thread
  thread-Leads = Leads-after _ _ (attribute-Keeps dev pfs m) (λ r.
      Leads-bind (λ a. IsEnded k) _ _
        (Leads-if (is_neg r) _ _ (λ e. Leads-pure tt (λ s h. (h.0, inl h.1)))
          (λ e. scan_files-Leads))
        (λ u. set_event-Leads (λ s h. h)))

module _ {W : Type 0} (dev : Device W) (pfs : Pfs W) (m : Mount) where
  -- In a run of the thread that has a value and begins with counts that agree (as many errors found
  -- as repaired unless the error flag stands), the counts agree at its end, the event flag is set,
  -- and HIOCGETPARTERROR is called at most once, and only if at the end the error flag does not
  -- stand and no stop was requested.
  pub thread-IsEnded :
      (s : Env W)
      → IsSettled s.session
      → Ends (Unit {0}) (λ a s'. IsEnded s.clears s' × (s'.is_done ≡ true)) (thread dev pfs m s)
  thread-IsEnded s h = (thread-Leads dev pfs m).goes s (h, refl)
