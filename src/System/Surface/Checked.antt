-- ===== src/System/Surface/Checked.antt =====
-- SurfScanDisk reaches every sector of the disk.
use hddchecker.Prelude.{
  ℕ, zero, suc, ◌+◌, ◌-◌, ◌≤◌, ◌<◌, ◌≡◌, ◌∙◌, refl, inl, inr, Bool, true, false, Option, none, some,
  arith, ltb, ◌==◌, if◌then◌else◌, Bool-cases, RetCode, ret, err, is_zero, add32, sub32, u32_mod,
}
use hddchecker.System.{Panel, surface_scanning, scan_abort, patch_failed, surface_done}
use hddchecker.System.Clock.{Clock, advance, percentage, rate, time_left}
use hddchecker.System.Quiet.{PanelLaws}
use hddchecker.System.Surface.{
  BadMode, prompt, remap, skip, remap_all, skip_all, Drive, Scan, Round, again, leave, jump,
  run_length, show_scan, skip_sector, patch_round, act, chosen, restart, verified, scan_round,
  go_on, scan_loop, after_scan, surf_scan_disk,
}

-- A sector is marked when READ VERIFY has read it, or has reported it as bad, which it does with
-- its offset in the run plus one, once the sectors before it were read. No call takes a mark away.
pub record VerifyMarks {W : Type 0} (drive : Drive W) (is_marked : W → ℕ → Bool) : Type 0 where
  pub reads :
      (lba n x : ℕ) (w : W)
      → (drive.verify lba n w).0 ≡ ret 0
      → lba ≤ x
      → x < lba + n
      → is_marked (drive.verify lba n w).1 x ≡ true
  pub reports :
      (lba n k x : ℕ) (w : W)
      → (drive.verify lba n w).0 ≡ ret (suc k)
      → (k < n) × (lba ≤ x → x ≤ lba + k → is_marked (drive.verify lba n w).1 x ≡ true)
  pub verify_keeps :
      (lba n x : ℕ) (w : W) → is_marked w x ≡ true → is_marked (drive.verify lba n w).1 x ≡ true
  pub patch_keeps :
      (lba x : ℕ) (w : W) → is_marked w x ≡ true → is_marked (drive.patch lba w).1 x ≡ true
  pub waiting_keeps :
      (b : Bool) (x : ℕ) (w : W) → is_marked w x ≡ true → is_marked (drive.set_waiting b w) x ≡ true
  pub ask_keeps :
      (lba x : ℕ) (w : W) → is_marked w x ≡ true → is_marked (drive.ask lba w).1 x ≡ true

module _ {W : Type 0} (ui : Panel W) (drive : Drive W) (total : ℕ) (is_marked : W → ℕ → Bool)
    (quiet : PanelLaws ui is_marked) (laws : VerifyMarks drive is_marked)
    (small : total < u32_mod) where
  -- The sectors before `n` are marked.
  abbrev Reached : ℕ → W → Type 0
  Reached n w = (x : ℕ) → x < n → is_marked w x ≡ true

  -- A round goes on from where all before it is marked, or ends with a result that is not 0.
  abbrev RoundEnds : Round × W → Type 0
  RoundEnds (again s, w) = (s.lba + s.remaining ≡ total) × Reached s.lba w
  RoundEnds (leave s, w) = s.result ≡ ret 0 → ⊥
  RoundEnds (jump s, w) = s.result ≡ ret 0 → ⊥

  show_keeps :
      (s : Scan) (w : W) (x : ℕ) → is_marked (show_scan ui drive total s w).2 x ≡ is_marked w x
  unfolding show_scan
  show_keeps s w x = ground (
    arith,
    quiet.ticks x w,
    quiet.draw surface_scanning (percentage s.lba total)
        (time_left (rate (total - s.remaining) clock'.elapsed) s.remaining) s.bad x w1,
    quiet.cancelled x w2,
    quiet.confirm scan_abort x (ui.cancelled w2).1,
  )
    where
      clock' : Clock
      clock' = advance (ui.ticks w).0 s.clock

      w1 : W
      w1 = (ui.ticks w).1

      w2 : W
      w2 =
          ui.draw surface_scanning (percentage s.lba total)
            (time_left (rate (total - s.remaining) clock'.elapsed) s.remaining) s.bad w1

  -- At a bad sector: it and all before it are marked, and it is inside the disk.
  module _ (s : Scan) (at : s.lba + s.remaining ≡ total) (pos : 0 < s.remaining) where
    skipped :
        (mode : BadMode) (w : W)
        → Reached (s.lba + 1) w
        → RoundEnds (again (skip_sector ui drive total mode s), w)
    skipped mode w h = (ground arith, λ x lt. h x (ground arith))

    patched :
        (mode : BadMode) (w : W)
        → Reached (s.lba + 1) w
        → RoundEnds (patch_round ui drive total mode s w)
    unfolding patch_round
    patched mode w h = elim (Bool-cases (is_zero r)) [
      | inl ok ↦ rw ok (at, λ x lt. laws.waiting_keeps false x w1 (h1 x (omega arith)))
      | inr bad ↦ rw bad (elim (Bool-cases (ui.confirm patch_failed w1).0) [
        | inl abort ↦ rw abort (λ z. ground arith)
        | inr on ↦ rw on (
            skipped mode (drive.set_waiting false w2)
              (λ x lt. laws.waiting_keeps false x w2 (quiet.confirm patch_failed x w1 ∙ h1 x lt)))
      ])
    ]
      where
        w0 : W
        w0 = drive.set_waiting true w

        r : RetCode
        r = (drive.patch s.lba w0).0

        w1 : W
        w1 = (drive.patch s.lba w0).1

        w2 : W
        w2 = (ui.confirm patch_failed w1).1

        h1 : Reached (s.lba + 1) w1
        h1 x lt = laws.patch_keeps s.lba x w0 (laws.waiting_keeps true x w (h x lt))

    acted :
        (mode : BadMode) (w : W) → Reached (s.lba + 1) w → RoundEnds (act ui drive total mode s w)
    unfolding act
    acted prompt w h = (at, λ x lt. h x (omega arith))
    acted remap w h = patched prompt w h
    acted remap_all w h = patched remap_all w h
    acted skip w h = skipped prompt w h
    acted skip_all w h = skipped skip_all w h

  restarted : (r : Round × W) → RoundEnds r → RoundEnds (restart ui drive total r)
  restarted (again s, w) (at, h) = (at, λ x lt. quiet.ticks x w ∙ h x lt)
  restarted (leave s, w) h = h
  restarted (jump s, w) h = h

  chosen_keeps :
      (mode : BadMode) (lba x : ℕ) (w : W)
      → is_marked w x ≡ true
      → is_marked (chosen ui drive total mode lba w).1 x ≡ true
  chosen_keeps prompt lba x w h = laws.ask_keeps lba x w h
  chosen_keeps remap lba x w h = h
  chosen_keeps skip lba x w h = h
  chosen_keeps remap_all lba x w h = h
  chosen_keeps skip_all lba x w h = h

  verified-RoundEnds :
      (r : RetCode) (s : Scan) (w : W)
      → s.lba + s.remaining ≡ total
      → 0 < s.remaining
      → (drive.verify s.lba (run_length s.remaining) w).0 ≡ r
      → Reached s.lba w
      → RoundEnds (verified ui drive total r s (drive.verify s.lba (run_length s.remaining) w).1)
  unfolding verified
  verified-RoundEnds (ret zero) s w at pos e h = (
    ground arith,
    λ x lt. elim (Bool-cases (ltb x s.lba)) [
      | inl before ↦ laws.verify_keeps s.lba (run_length s.remaining) x w (h x (ground arith))
      | inr after ↦ laws.reads s.lba (run_length s.remaining) x w e (ground arith) (ground arith)
    ],
  )
  verified-RoundEnds (ret (suc k)) s w at pos e h =
      restarted (act ui drive total picked.0 s' picked.1) (
        acted s' (ground (arith, inside)) (ground (arith, inside)) picked.0 picked.1
          (λ x lt. chosen_keeps s.mode s'.lba x w1 (marked x (ground (arith, inside)))))
    where
      n : ℕ
      n = run_length s.remaining

      w1 : W
      w1 = (drive.verify s.lba n w).1

      s' : Scan
      s' = record s {
        lba = add32 s.lba k;
        remaining = sub32 s.remaining k;
        bad = if s.is_retry then s.bad else add32 s.bad 1;
        result = ret k;
      }

      picked : BadMode × W
      picked = chosen ui drive total s.mode s'.lba w1

      inside : k < n
      inside = (laws.reports s.lba n k 0 w e).0

      marked : (x : ℕ) → x < s.lba + k + 1 → is_marked w1 x ≡ true
      marked x lt = elim (Bool-cases (ltb x s.lba)) [
        | inl before ↦ laws.verify_keeps s.lba n x w (h x (ground arith))
        | inr after ↦ (laws.reports s.lba n k x w e).1 (ground arith) (omega arith)
      ]
  verified-RoundEnds (err c) s w at pos e h = λ z. ground arith

  round-RoundEnds :
      (s : Scan) (w : W)
      → s.lba + s.remaining ≡ total
      → 0 < s.remaining
      → Reached s.lba w
      → RoundEnds (scan_round ui drive total s w)
  unfolding scan_round
  round-RoundEnds s w at pos h = elim (Bool-cases shown.0) [
    | inl stop ↦ rw stop (λ z. ground arith)
    | inr go ↦ rw go (
        verified-RoundEnds (drive.verify s.lba (run_length s.remaining) shown.2).0
          (record s { clock = shown.1 }) shown.2 at pos refl (λ x lt. show_keeps s w x ∙ h x lt))
  ]
    where
      shown : Bool × Clock × W
      shown = show_scan ui drive total s w

  abbrev ScanEnds : Option (Bool × Scan × W) → Type 0
  ScanEnds none = Unit {0}
  ScanEnds (some (jumped, s, w)) = s.result ≡ ret 0 → Reached total w

  loop-ScanEnds :
      (fuel : ℕ) (s : Scan) (w : W)
      → s.lba + s.remaining ≡ total
      → Reached s.lba w
      → ScanEnds (scan_loop ui drive total fuel s w)
  unfolding scan_loop
  loop-ScanEnds zero s w at h = tt
  loop-ScanEnds (suc fuel) s w at h = elim (Bool-cases (s.remaining == 0)) [
    | inl e ↦ rw (e, scan_loop) (λ z x lt. h x (ground arith))
    | inr e ↦
        rw (e, scan_loop)
          (onward (λ s' w' at' h'. loop-ScanEnds fuel s' w' at' h') (scan_round ui drive total s w)
            (round-RoundEnds s w at (ground arith) h))
  ]
    where
      onward :
          ((s' : Scan) (w' : W)
            → s'.lba + s'.remaining ≡ total
            → Reached s'.lba w'
            → ScanEnds (scan_loop ui drive total fuel s' w'))
          → (r : Round × W) → RoundEnds r
          → ScanEnds (go_on ui drive total (λ s' w'. scan_loop ui drive total fuel s' w') r)
      onward rest (again s', w') (at', h') = rest s' w' at' h'
      onward rest (leave s', w') other = λ z. absurd (other z)
      onward rest (jump s', w') other = λ z. absurd (other z)

  -- If the job ends with 0, each sector of the disk has been read or has been reported as bad: none
  -- is passed over, whether bad sectors are patched or skipped.
  pub surf_scan_disk_reaches :
      (fuel x : ℕ) (w w' : W)
      → surf_scan_disk ui drive total fuel w ≡ some (ret 0, w')
      → x < total
      → is_marked w' x ≡ true
  unfolding surf_scan_disk
  surf_scan_disk_reaches fuel x w w' run lt =
      ended (scan_loop ui drive total fuel first begun)
        (loop-ScanEnds fuel first begun (omega arith) (λ y low. absurd (omega arith))) run
    where
      shown : W
      shown = ui.progress_screen surface_scanning (ui.lock w)

      begun : W
      begun = (ui.ticks shown).1

      first : Scan
      first = record {
        lba = 0;
        remaining = total;
        bad = 0;
        is_retry = false;
        mode = prompt;
        clock = record { elapsed = 0; previous = (ui.ticks shown).0 };
        result = ret 0;
      }

      ended :
          (o : Option (Bool × Scan × W))
          → ScanEnds o
          → after_scan ui drive total o ≡ some (ret 0, w')
          → is_marked w' x ≡ true
      ended none h e = ground arith
      ended (some (jumped, s, v)) h e =
          let good : s.result ≡ ret 0 = cc in
          let same : ui.unlock (ui.reboot told) ≡ w' = cc in
          rw (← same) (
            quiet.unlock x (ui.reboot told)
            ∙ quiet.reboot x told
            ∙ ground (arith, quiet.inform surface_done x v, h good x lt))
        where
          told : W
          told = if jumped then v else if is_zero s.result then ui.inform surface_done v else v
