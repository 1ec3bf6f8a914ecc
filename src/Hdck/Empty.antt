-- ===== src/Hdck/Empty.antt =====
-- MarkUnreadablePartionAsEmpty and apaCreateAlignedEmptyPartition of hdck/hdck.c: the sectors of an
-- unreadable partition become empty ones. A header that was freed keeps its contents here.
pub mod Rounds
use hddchecker.Prelude.{
  ℕ, zero, suc, ◌/◌, ◌%◌, Bool, true, false, Option, none, some, ltb, ◌==◌, if◌then◌else◌, add32,
  sub32,
}
use hddchecker.Hdck.{ErrorPart, save}
use hddchecker.Hdck.Repairs.{Library, top_bit}

module _ {W : Type 0} (lib : Library W) where
  -- apaRemovePartition behind the header `parent`, which is then linked to it.
  abbrev pub append_empty : ℕ → ℕ → ℕ → W → Bool × W
  append_empty parent lba length w =
      let (found, w1) =
        lib.remove_partition lba (add32 lba length) (lib.peek parent w).start length w in
      (found, save lib.apa parent (record (lib.peek parent w1) { next = lba }) w1)

  -- apaCreateAlignedEmptyPartition, with a round for each bit of a length: whether it gives an
  -- entry, which is the one at `lba`.
  pub create_aligned : ℕ → ℕ → ℕ → ℕ → W → Bool × W
  create_aligned zero parent lba length w = (false, w)
  create_aligned (suc fuel) parent lba length w =
      let half = length / 2 in
      elim (ltb 262143 half) [
        | false ↦ (false, w)
        | true ↦ elim (lba % half == 0) [
          | true ↦ append_empty parent lba half w
          | false ↦ create_aligned fuel parent lba half w
        ]
      ]

  -- One round: the header that it goes on with and the length that is left.
  pub mark_round : ℕ → ℕ → ℕ → W → Option (ℕ × ℕ × W)
  mark_round parent lba length w =
      let size = top_bit 31 length in
      elim (lba % size == 0) [
        | true ↦
            let (found, w1) = append_empty parent lba size w in
            some (parent, sub32 length (lib.peek parent w1).length, w1)
        | false ↦
            let (found, w1) = create_aligned 32 parent lba size w in
            if found then some (lba, sub32 length (lib.peek lba w1).length, w1) else none
      ]

  pub mark_loop : ℕ → ℕ → ℕ → ℕ → W → Option W
  mark_loop zero parent lba length w = none
  mark_loop (suc fuel) parent lba length w = elim (length == 0) [
    | true ↦ some w
    | false ↦ elim (mark_round parent lba length w) [
      | none ↦ none
      | some (parent', left, w1) ↦ mark_loop fuel parent' lba left w1
    ]
  ]

  -- MarkUnreadablePartionAsEmpty
  pub mark_empty : ℕ → ℕ → ℕ → ℕ → ErrorPart → W → Option (ErrorPart × W)
  mark_empty fuel lba parent length e w =
      let (r, found, w1) = (lib.apa).get parent w in
      elim found [
        | none ↦ some (e, w1)
        | some h ↦ elim (mark_loop fuel parent lba length w1) [
          | none ↦ none
          | some w2 ↦ some (record e { lba = 0; lba2 = 0 }, w2)
        ]
      ]
