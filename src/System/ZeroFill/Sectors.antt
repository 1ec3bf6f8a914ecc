-- ===== src/System/ZeroFill/Sectors.antt =====
-- ZeroFillDisk erases the whole disk.
use hddchecker.Prelude.{
  ℕ, zero, suc, ◌+◌, ◌-◌, ◌≤◌, ◌<◌, ◌≡◌, ◌∙◌, refl, inl, inr, Bool, true, Option, none, some, arith,
  ltb, ◌==◌, if◌then◌else◌, Bool-cases, RetCode, ret, is_zero, is_zero_iff, add32, u32_mod,
}
use hddchecker.System.{Panel, zero_filling, zero_fill_abort, zero_fill_done}
use hddchecker.System.Clock.{Clock, advance, percentage, rate, time_left}
use hddchecker.System.Quiet.{PanelLaws}
use hddchecker.System.ZeroFill.{Eraser, chunk, show_round, fill_loop, finish, zero_fill_disk}

-- An erasure that returns 0 has zeroed its range, and every erasure keeps what was zero.
pub record EraseLaws {W : Type 0} (erase : Eraser W) (is_blank : W → ℕ → Bool) : Type 0 where
  pub erases :
      (lba n s : ℕ) (w : W)
      → (erase lba n w).0 ≡ ret 0
      → lba ≤ s
      → s < lba + n
      → is_blank (erase lba n w).1 s ≡ true
  pub erase_keeps :
      (lba n s : ℕ) (w : W) → is_blank w s ≡ true → is_blank (erase lba n w).1 s ≡ true

module _ {W : Type 0} (ui : Panel W) (erase : Eraser W) (total : ℕ) where
  -- The result of a run that ends: with 0, the sectors from 0 to the disk's end are blank.
  abbrev Fills : (W → ℕ → Bool) → Option (RetCode × W) → Type 0
  Fills is_blank none = ⊥
  Fills is_blank (some (r, w)) = r ≡ ret 0 → (s : ℕ) → s < total → is_blank w s ≡ true

  module _ (is_blank : W → ℕ → Bool) (quiet : PanelLaws ui is_blank)
      (laws : EraseLaws erase is_blank) where
    round_keeps :
        (lba remaining s : ℕ) (clock : Clock) (w : W)
        → is_blank (show_round ui erase total lba remaining clock w).2 s ≡ is_blank w s
    unfolding show_round
    round_keeps lba remaining s clock w = ground (
      arith,
      quiet.ticks s w,
      quiet.draw zero_filling (percentage lba total)
          (time_left (rate (total - remaining) clock'.elapsed) remaining) 0 s w1,
      quiet.cancelled s w2,
      quiet.confirm zero_fill_abort s w3,
    )
      where
        clock' : Clock
        clock' = advance (ui.ticks w).0 clock

        w1 : W
        w1 = (ui.ticks w).1

        w2 : W
        w2 =
            ui.draw zero_filling (percentage lba total)
              (time_left (rate (total - remaining) clock'.elapsed) remaining) 0 w1

        w3 : W
        w3 = (ui.cancelled w2).1

    fill_loop-Fills :
        (fuel lba remaining : ℕ) (clock : Clock) (result : RetCode) (w : W)
        → remaining < fuel
        → lba + remaining ≡ total
        → total < u32_mod
        → ((s : ℕ) → s < lba → is_blank w s ≡ true)
        → Fills is_blank (fill_loop ui erase total fuel lba remaining clock result w)
    unfolding fill_loop
    fill_loop-Fills zero lba remaining clock result w enough at small blank = absurd (omega arith)
    fill_loop-Fills (suc fuel) lba remaining clock result w enough at small blank =
        elim (Bool-cases (remaining == 0)) [
          | inl e ↦ rw e (λ ok s lt. blank s (ground arith))
          | inr e ↦ rw e (elim (Bool-cases shown.0) [
            | inl stop ↦ rw stop (λ ok s lt. ground arith)
            | inr go ↦ rw go (elim (Bool-cases (is_zero done.0)) [
              | inr bad ↦ rw bad (λ ok s lt. ground arith)
              | inl ok ↦ rw ok (
                  fill_loop-Fills fuel (add32 lba (chunk remaining)) (remaining - chunk remaining)
                    shown.1 done.0 done.1 (ground arith) (ground arith) small
                    (next ok (ground arith)))
            ])
          ])
        ]
      where
        shown : Bool × Clock × W
        shown = show_round ui erase total lba remaining clock w

        done : RetCode × W
        done = erase lba (chunk remaining) shown.2

        next :
            is_zero done.0 ≡ true
            → 0 < remaining
            → (s : ℕ) → s < add32 lba (chunk remaining)
            → is_blank done.1 s ≡ true
        next ok pos s lt = elim (Bool-cases (ltb s lba)) [
          | inl e ↦
              laws.erase_keeps lba (chunk remaining) s shown.2
                (round_keeps lba remaining s clock w ∙ blank s (ground arith))
          | inr e ↦
              laws.erases lba (chunk remaining) s shown.2 (is_zero_iff done.0 ok) (ground arith)
                (ground arith)
        ]

    -- The job ends; and if it returns 0, each sector of the disk is blank.
    pub zero_fill_disk_blanks :
        (w : W)
        → total < u32_mod
        → (r : RetCode) × (w' : W) × (zero_fill_disk ui erase total w ≡ some (r, w'))
          × (r ≡ ret 0 → (s : ℕ) → s < total → is_blank w' s ≡ true)
    unfolding zero_fill_disk
    zero_fill_disk_blanks w small =
        ended (fill_loop ui erase total (suc total) 0 total clock (ret 0) begun) (
          fill_loop-Fills (suc total) 0 total clock (ret 0) begun (omega arith) (omega arith) small
            (λ s lt. absurd (omega arith)))
      where
        shown : W
        shown = ui.progress_screen zero_filling (ui.lock w)

        begun : W
        begun = (ui.ticks shown).1

        clock : Clock
        clock = record { elapsed = 0; previous = (ui.ticks shown).0 }

        end : RetCode → W → W
        end r v = ui.unlock (ui.reboot (if is_zero r then ui.inform zero_fill_done v else v))

        ended :
            (o : Option (RetCode × W))
            → Fills is_blank o
            → (r : RetCode) × (w' : W) × (finish ui erase total o ≡ some (r, w'))
              × (r ≡ ret 0 → (s : ℕ) → s < total → is_blank w' s ≡ true)
        ended none v = absurd v
        ended (some (r, v)) h = (
          r,
          end r v,
          refl,
          λ ok s lt. ground (
            arith,
            h ok s lt,
            quiet.inform zero_fill_done s v,
            quiet.reboot s (ui.inform zero_fill_done v),
            quiet.reboot s v,
            quiet.unlock s (ui.reboot (ui.inform zero_fill_done v)),
            quiet.unlock s (ui.reboot v),
          ),
        )
