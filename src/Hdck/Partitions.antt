-- ===== src/Hdck/Partitions.antt =====
-- CheckPartitions of hdck/hdck.c: the relation of the main partitions and the sub-partitions.
pub mod Kept
pub mod Trim
use hddchecker.Prelude.{
  ℕ, zero, suc, ◌+◌, Bool, true, false, Option, none, some, List, [], ◌∷◌, ltb, ◌==◌, if◌then◌else◌,
  RetCode, is_zero, is_neg,
}
use hddchecker.Hdck.{Header, listed, save}
use hddchecker.Hdck.Maps.{PartMap, read_map}
use hddchecker.Hdck.Repairs.{Library, sub_at}

-- The count at which the search of a sub-partition's address in a main partition's entries stops.
abbrev pub find_entry : ℕ → ℕ → ℕ → List (ℕ × ℕ) → ℕ
find_entry zero count start subs = count
find_entry (suc left) count start subs =
    if (sub_at count subs).0 == start then count else find_entry left (count + 1) start subs

module _ {W : Type 0} (lib : Library W) where
  -- A sub-partition that is listed behind a missing one.
  pub delete_follower : ℕ → W → RetCode × W
  delete_follower start w =
      let (r, found, w1) = (lib.apa).get start w in
      elim found [ none ↦ (r, w1) | some h ↦ lib.delete start w1 ]

  -- The entries of one main partition, from the one numbered `sub`; a round for each and one to end.
  -- The first entry that is missing becomes the end of the list.
  pub main_subs : ℕ → List ℕ → ℕ → ℕ → Bool → RetCode → W → RetCode × W
  main_subs zero map lba sub missing result w = (result, w)
  main_subs (suc fuel) map lba sub missing result w =
      let h = lib.peek lba w in
      elim (ltb sub h.nsub) [
        | false ↦ (result, w)
        | true ↦ elim (listed (sub_at sub h.subs).0 map) [
          | true ↦ elim missing [
            | false ↦ main_subs fuel map lba (sub + 1) false result w
            | true ↦
                let (r, w1) = delete_follower (sub_at sub h.subs).0 w in
                main_subs fuel map lba (sub + 1) true r w1
          ]
          | false ↦ elim missing [
            | true ↦ main_subs fuel map lba (sub + 1) true result w
            | false ↦
                main_subs fuel map lba (sub + 1) true result
                  (save lib.apa lba (record h { nsub = sub }) w)
          ]
        ]
      ]

  pub check_mains : List ℕ → List ℕ → RetCode → W → RetCode × W
  check_mains map [] result w = (result, w)
  check_mains map (lba ∷ mains) result w = elim (is_zero result) [
    | false ↦ (result, w)
    | true ↦
        let (r, found, w1) = (lib.apa).get lba w in
        elim found [
          | none ↦ check_mains map mains r w1
          | some h ↦
              let (r2, w2) = main_subs (h.nsub + 1) map lba 0 false r w1 in
              check_mains map mains r2 w2
        ]
  ]

  -- Whether the main partition of a sub-partition lists it. The search counts up to the number of
  -- entries of the sub-partition itself.
  pub check_entry : ℕ → Header → W → RetCode × W
  check_entry lba h w =
      let (r, found, w1) = (lib.apa).get h.main w in
      elim found [
        | none ↦ (r, w1)
        | some m ↦
            if m.nsub == find_entry h.nsub 0 lba m.subs then (r, (lib.delete lba w1).1) else (r, w1)
      ]

  pub check_subs : List ℕ → List ℕ → RetCode → W → RetCode × W
  check_subs mains [] result w = (result, w)
  check_subs mains (lba ∷ subs) result w = elim (is_zero result) [
    | false ↦ (result, w)
    | true ↦
        let (r, found, w1) = (lib.apa).get lba w in
        elim found [
          | none ↦ (r, w1)
          | some h ↦
              let (r2, w2) =
                if listed h.main mains then check_entry lba h w1 else lib.delete lba w1 in
              check_subs mains subs r2 w2
        ]
  ]

  -- CheckPartitions
  pub second_half : ℕ → RetCode → W → Option (RetCode × W)
  second_half fuel result w =
      if is_neg result then some (result, w) else elim (read_map lib.apa fuel (lib.peek 0 w) w) [
        | none ↦ none
        | some (r, m, w1) ↦ some (if is_zero r then check_subs m.mains m.subs r w1 else (r, w1))
      ]

  pub check_partitions : ℕ → W → Option (RetCode × W)
  check_partitions fuel w = elim (read_map lib.apa fuel (lib.peek 0 w) w) [
    | none ↦ none
    | some (r, m, w1) ↦
        if is_zero r
        then second_half fuel (check_mains m.subs m.mains r w1).0
            (check_mains m.subs m.mains r w1).1
        else some (r, w1)
  ]
