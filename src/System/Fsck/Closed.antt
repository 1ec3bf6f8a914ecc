-- ===== src/System/Fsck/Closed.antt =====
-- FsckDisk closes what it opens.
use hddchecker.Prelude.{
  ℕ, zero, suc, ◌+◌, ◌≡◌, ◌∙◌, refl, ap, subst, inl, inr, Bool, true, false, not, ◌&&◌, ◌||◌,
  Option, none, some, ◌==◌, Bool-cases, RetCode, ret, err, is_zero, add32,
}
use hddchecker.System.{Panel, disk_scanning, scan_abort}
use hddchecker.System.Jobs.{
  Dirent, Files, Totals, Progress, is_scanned, begin_watch, count_partitions,
}
use hddchecker.System.Jobs.Handles.{
  Fds, with_fd, without_fd, without_fd-with_fd, HandleLaws, Leaves, not_ret, begin_watch-Leaves,
  closed, count_partitions-Leaves,
}
use hddchecker.System.Fsck.{
  Part, end_part, fsck_part, fsck_entries, close_entries, fsck_all, fsck_disk,
}

module _ {W : Type 0} (ui : Panel W) (files : Files W) (held : W → Fds)
    (laws : HandleLaws ui files held) where
  -- The same for a run that gives a result and the totals.
  abbrev Scans : Fds → Option (RetCode × Totals × W) → Type 0
  Scans n none = Unit {0}
  Scans n (some (r, t, w)) = held w ≡ n

  end_part-held :
      (n : Fds) (fd : ℕ) (result : RetCode) (t : Totals) (w : W)
      → n fd ≡ false
      → held w ≡ with_fd fd n
      → held (end_part ui files fd result t w).1 ≡ n
  unfolding end_part
  end_part-held n fd result t w fresh h =
      let (r, s, w1) = files.get_status fd w in
      let after : held (files.close fd w1) ≡ n =
        laws.close fd w1
        ∙ ap (without_fd fd) (laws.get_status fd w ∙ h)
        ∙ without_fd-with_fd fd n fresh in
      elim (Bool-cases (is_zero result)) [
        | inr bad ↦
            rw (bad, end_part)
              (laws.close fd w ∙ ap (without_fd fd) h ∙ without_fd-with_fd fd n fresh)
        | inl ok ↦ elim (Bool-cases (is_zero r && not t.aborted)) [
          | inl on ↦ rw (ok, end_part, on) after
          | inr leave ↦ rw (ok, end_part, leave) after
        ]
      ]

  fsck_part-Leaves :
      (fuel : ℕ) (p : Progress) (name : ℕ) (t : Totals) (w : W)
      → Leaves held (held w) (fsck_part ui files fuel p name t w)
  unfolding fsck_part
  fsck_part-Leaves fuel p name t w = opened (files.open_part name w).0 refl
    where
      w1 : W
      w1 = (files.open_part name w).1

      watched :
          (fd : ℕ) (o : Option (Bool × W))
          → held w fd ≡ false
          → Leaves held (with_fd fd (held w)) o
          → Leaves held (held w) (elim o [
            | none ↦ none
            | some (stopped, w3) ↦
                some (end_part ui files fd (ret 0) (record t { aborted = t.aborted || stopped }) w3)
          ])
      watched fd none fresh h = tt
      watched fd (some (stopped, w3)) fresh h =
          end_part-held (held w) fd (ret 0) (record t { aborted = t.aborted || stopped }) w3 fresh h

      started :
          (fd : ℕ)
          → held w fd ≡ false
          → held w1 ≡ with_fd fd (held w)
          → (r : RetCode) (w2 : W) → held w2 ≡ held w1
          → Leaves held (held w) (elim (is_zero r) [
            | false ↦ some (end_part ui files fd r t w2)
            | true ↦ elim (begin_watch ui files disk_scanning scan_abort fuel fd p w2) [
              | none ↦ none
              | some (stopped, w3) ↦
                  some
                    (end_part ui files fd (ret 0) (record t { aborted = t.aborted || stopped }) w3)
            ]
          ])
      started fd fresh h r w2 same = elim (Bool-cases (is_zero r)) [
        | inr bad ↦ rw bad (end_part-held (held w) fd r t w2 fresh (same ∙ h))
        | inl ok ↦ rw ok (
            watched fd (begin_watch ui files disk_scanning scan_abort fuel fd p w2) fresh (
              subst
                (λ n. Leaves held n (begin_watch ui files disk_scanning scan_abort fuel fd p w2))
                (same ∙ h)
                (begin_watch-Leaves ui files held laws disk_scanning scan_abort fuel fd p w2)))
      ]

      opened :
          (r : RetCode)
          → (files.open_part name w).0 ≡ r
          → Leaves held (held w) (elim r [
            | err e ↦ some (
              record {
                result = err e;
                leave = false;
                totals = record t { found = add32 t.found 1 };
              },
              w1,
            )
            | ret fd ↦
                let (started, w2) = files.start fd w1 in
                elim (is_zero started) [
                  | false ↦ some (end_part ui files fd started t w2)
                  | true ↦ elim (begin_watch ui files disk_scanning scan_abort fuel fd p w2) [
                    | none ↦ none
                    | some (stopped, w3) ↦ some (
                        end_part ui files fd
                          (ret 0)
                          (record t { aborted = t.aborted || stopped })
                          w3)
                  ]
                ]
          ])
      opened (err e) eq = laws.no_file name w (not_ret (files.open_part name w).0 e eq)
      opened (ret fd) eq =
          let (fresh, same) = laws.opened name fd w eq in
          started fd fresh same (files.start fd w1).0 (files.start fd w1).1 (laws.start fd w1)

  fsck_entries-Scans :
      (fuel bfd : ℕ) (p : Progress) (result : RetCode) (t : Totals) (w : W)
      → Scans (held w) (fsck_entries ui files fuel bfd p result t w)
  unfolding fsck_entries
  fsck_entries-Scans zero bfd p result t w = tt
  fsck_entries-Scans (suc fuel) bfd p result t w = found (files.dread bfd w).0 (λ r t' w2 same.
      subst (λ n. Scans n (rest r t' w2)) same
        (fsck_entries-Scans fuel bfd (record p { index = p.index + 1 }) r t' w2))
    where
      w1 : W
      w1 = (files.dread bfd w).1

      rest : RetCode → Totals → W → Option (RetCode × Totals × W)
      rest r t' w2 = fsck_entries ui files fuel bfd (record p { index = p.index + 1 }) r t' w2

      scanned :
          (o : Option (Part × W))
          → Leaves held (held w) o
          → ((r : RetCode) (t' : Totals) (w2 : W)
              → held w2 ≡ held w
              → Scans (held w) (rest r t' w2))
          → Scans (held w) (elim o [
            | none ↦ none
            | some (part, w2) ↦ elim part.leave [
              | true ↦ some (part.result, part.totals, w2)
              | false ↦ rest part.result part.totals w2
            ]
          ])
      scanned none h on = tt
      scanned (some (part, w2)) h on = elim (Bool-cases part.leave) [
        | inl leaves ↦ rw leaves h
        | inr stays ↦ rw stays (on part.result part.totals w2 h)
      ]

      found :
          (o : Option Dirent)
          → ((r : RetCode) (t' : Totals) (w2 : W)
              → held w2 ≡ held w
              → Scans (held w) (rest r t' w2))
          → Scans (held w) (elim o [
            | none ↦ some (result, t, w1)
            | some d ↦ elim (is_scanned d) [
              | false ↦ rest result t w1
              | true ↦ elim (fsck_part ui files fuel p d.name t w1) [
                | none ↦ none
                | some (part, w2) ↦ elim part.leave [
                  | true ↦ some (part.result, part.totals, w2)
                  | false ↦ rest part.result part.totals w2
                ]
              ]
            ]
          ])
      found none on = laws.dread bfd w
      found (some d) on = elim (Bool-cases (is_scanned d)) [
        | inr skipped ↦ rw skipped (on result t w1 (laws.dread bfd w))
        | inl main ↦ rw main (
            scanned (fsck_part ui files fuel p d.name t w1)
              (subst (λ n. Leaves held n (fsck_part ui files fuel p d.name t w1)) (laws.dread bfd w)
                (fsck_part-Leaves fuel p d.name t w1))
              on)
      ]

  fsck_all-Scans :
      (fuel partitions : ℕ) (t : Totals) (w : W)
      → Scans (held w) (fsck_all ui files fuel partitions t w)
  unfolding fsck_all
  fsck_all-Scans fuel partitions t w = opened (files.dopen w).0 refl
    where
      w1 : W
      w1 = (files.dopen w).1

      entries : ℕ → Option (RetCode × Totals × W)
      entries bfd =
          fsck_entries ui files fuel bfd (record { index = 0; partitions = partitions }) (ret 0) t
            w1

      ended :
          (bfd : ℕ) (o : Option (RetCode × Totals × W))
          → held w bfd ≡ false
          → Scans (with_fd bfd (held w)) o
          → Scans (held w) (close_entries ui files bfd o)
      ended bfd none fresh h = tt
      ended bfd (some (r, t', w2)) fresh h = closed ui files held laws (held w) bfd r w2 fresh h

      opened :
          (r : RetCode)
          → (files.dopen w).0 ≡ r
          → Scans (held w) (elim r [
            | err e ↦ some (err e, t, w1)
            | ret bfd ↦ close_entries ui files bfd (entries bfd)
          ])
      opened (err e) eq = laws.no_dir w (not_ret (files.dopen w).0 e eq)
      opened (ret bfd) eq =
          let (fresh, same) = laws.dopen bfd w eq in
          ended bfd (entries bfd) fresh (
            subst (λ n. Scans n (entries bfd)) same
              (fsck_entries-Scans fuel bfd (record { index = 0; partitions = partitions }) (ret 0) t
                w1))

  fsck_disk-Scans :
      (fuel : ℕ) (t : Totals) (w : W)
      → Scans (held (ui.reboot (ui.progress_screen disk_scanning w))) (fsck_disk ui files fuel t w)
  unfolding fsck_disk
  fsck_disk-Scans fuel t w =
      counted (count_partitions files fuel w0) (count_partitions-Leaves ui files held laws fuel w0)
    where
      w0 : W
      w0 = ui.reboot (ui.progress_screen disk_scanning w)

      counted :
          (o : Option (ℕ × W))
          → Leaves held (held w0) o
          → Scans (held w0) (elim o [
            | none ↦ none
            | some (partitions, w1) ↦ elim (partitions == 0) [
              | true ↦ some (ret 0, t, w1)
              | false ↦ fsck_all ui files fuel partitions t w1
            ]
          ])
      counted none h = tt
      counted (some (partitions, w1)) h = elim (Bool-cases (partitions == 0)) [
        | inl nothing ↦ rw nothing h
        | inr something ↦ rw something (
            subst (λ n. Scans n (fsck_all ui files fuel partitions t w1)) h
              (fsck_all-Scans fuel partitions t w1))
      ]

  -- If FsckDisk ends, the same descriptors of files and directories are open as after it brought up
  -- its modules, whether the scan was stopped, an opening or a command failed, or all partitions
  -- were scanned.
  pub fsck_disk_closes :
      (fuel : ℕ) (t t' : Totals) (w w' : W) (r : RetCode)
      → fsck_disk ui files fuel t w ≡ some (r, t', w')
      → held w' ≡ held (ui.reboot (ui.progress_screen disk_scanning w))
  fsck_disk_closes fuel t t' w w' r run =
      let h : Scans (held (ui.reboot (ui.progress_screen disk_scanning w))) (some (r, t', w')) =
        rw run at (fsck_disk-Scans fuel t w) in
      h
