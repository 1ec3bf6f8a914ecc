-- ===== src/Hdck/Rounds.antt =====
-- HdckDevctl of hdck/hdck.c: the repairs follow the check of the links until it finds nothing, and at
-- most nine partitions are given up.
mod Tests
use hddchecker.Prelude.{
  ℕ, zero, suc, ◌+◌, Bool, true, false, not, ◌&&◌, ◌||◌, Option, none, some, ltb, ◌==◌,
  if◌then◌else◌, RetCode, err, enxio, is_zero, sub32,
}
use hddchecker.Hdck.{ErrorPart, check_links}
use hddchecker.Hdck.Empty.{mark_empty}
use hddchecker.Hdck.Maps.{delete_free}
use hddchecker.Hdck.Partitions.{check_partitions}
use hddchecker.Hdck.Repairs.{Library, erase_sector, remove_bad, recover_if_sub}

module _ {W : Type 0} (lib : Library W) where
  -- What is left after the recovery becomes empty, or is cut off where it is the last partition.
  pub give_up : ℕ → Bool → ErrorPart → W → Option (ErrorPart × W)
  give_up fuel is_last e w =
      if is_last
      then some (remove_bad lib e w)
      else mark_empty lib fuel e.lba e.prev_lba (sub32 e.prev_lba2 e.lba) e w

  -- The recovery, and whether a partition was given up.
  abbrev pub is_unrecovered : ErrorPart → Bool
  is_unrecovered e = not (e.lba == 0) && not (e.lba2 == 0)

  abbrev pub is_last : Bool → ErrorPart → W → Bool
  is_last is_one e w =
      let last = (lib.peek 0 w).prev in (last == e.lba) || (not is_one && (last == e.lba2))

  pub recover_round : ℕ → Bool → ErrorPart → W → Option (Bool × W)
  recover_round fuel is_one e w = elim (recover_if_sub lib fuel e w) [
    | none ↦ none
    | some (e1, w1) ↦ elim (is_unrecovered e1) [
      | false ↦ some (false, w1)
      | true ↦ elim (give_up fuel (is_last is_one e1 w1) e1 w1) [
        | none ↦ none
        | some (e2, w2) ↦ some (true, w2)
      ]
    ]
  ]

  pub repair_round : ℕ → ErrorPart → W → Option (Bool × W)
  repair_round fuel e w =
      if (e.lba == e.lba2) || ltb e.lba e.lba2
      then recover_round fuel (e.lba == e.lba2) e w
      else some (true, (remove_bad lib e w).1)

  -- The loop; true says that the check of the links found nothing, false that it was left.
  pub repair_loop : ℕ → ℕ → ℕ → W → Option (Bool × W)
  repair_loop fuel zero bad_parts w = none
  repair_loop fuel (suc rounds) bad_parts w = elim (check_links lib.apa fuel (lib.peek 0 w) w) [
    | none ↦ none
    | some (e, mbr, w1) ↦ elim (e.lba == 0) [
      | true ↦ some (true, w1)
      | false ↦ elim (repair_round fuel e w1) [
        | none ↦ none
        | some (counted, w2) ↦ elim counted [
          | false ↦ repair_loop fuel rounds bad_parts w2
          | true ↦ elim (bad_parts + 1 == 9) [
            | true ↦ some (false, w2)
            | false ↦ repair_loop fuel rounds (bad_parts + 1) w2
          ]
        ]
      ]
    ]
  ]

  -- What follows the loop.
  pub finish_repair : ℕ → W → Option (RetCode × W)
  finish_repair fuel w =
      let w1 = erase_sector lib 6 w in
      elim (delete_free lib.apa lib.delete_fix_prev fuel (lib.peek 0 w1).next w1) [
        | none ↦ none
        | some w2 ↦ check_partitions lib fuel w2
      ]

  pub hdck_devctl : ℕ → ℕ → RetCode → W → Option (RetCode × W)
  hdck_devctl fuel rounds status w = elim (is_zero status) [
    | false ↦ some (err enxio, w)
    | true ↦
        let (r, found, w1) = (lib.apa).get 0 w in
        elim found [
          | none ↦ some (r, w1)
          | some h ↦ elim (repair_loop fuel rounds 0 w1) [
            | none ↦ none
            | some (is_clean, w2) ↦ if is_clean then finish_repair fuel w2 else some (r, w2)
          ]
        ]
  ]
