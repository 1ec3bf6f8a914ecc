-- ===== src/Hdsk/Sim.antt =====
-- hdsk/sim.c: the list of partitions that the optimiser moves about. The entries stand in the array
-- `hdskBitmap`; an entry is named by its number in it plus one, so that 1 is the head of the list and
-- 0 is NULL.
pub mod Find
pub mod Split
use hddchecker.Prelude.{
  ℕ, zero, suc, ◌+◌, ◌*◌, ◌-◌, ◌/◌, ◌%◌, Bool, true, false, not, ◌&&◌, ◌||◌, Option, none, some,
  ltb, ◌==◌, if◌then◌else◌, add32, sub32,
}

-- struct hdskBitmap
pub record PartSlot : Type 0 where
  pub next : ℕ
  pub prev : ℕ
  pub start : ℕ
  pub length : ℕ
  pub kind : ℕ

abbrev pub Slots : Type 0
Slots = ℕ → PartSlot

abbrev pub head : ℕ
head = 1

-- HDSK_BITMAP_SIZE less the head
abbrev pub spare_slots : ℕ
spare_slots = 16384

-- apaCacheLink, of an entry behind another, and apaCacheUnLink.
pub record Chains : Type 0 where
  pub link : ℕ → ℕ → Slots → Slots
  pub unchain : ℕ → Slots → Slots

abbrev pub put_slot : ℕ → PartSlot → Slots → Slots
put_slot i v s j = if j == i then v else s j

-- hdskSimClearHeader
pub clear_header : ℕ → Slots → Slots
clear_header i s = put_slot i (record { next = 0; prev = 0; start = 0; length = 0; kind = 0 }) s

-- `(length & (length - 1)) == 0`
pub is_power : ℕ → ℕ → Bool
is_power zero n = false
is_power (suc bits) n =
    if n == 0 then true else if n == 1 then true else (n % 2 == 0) && is_power bits (n / 2)

-- hdskSimFindEmptyPartition, from an entry; the last entry of the list is not looked at.
pub find_empty : ℕ → ℕ → ℕ → Slots → Option ℕ
find_empty zero size part s = none
find_empty (suc fuel) size part s = elim ((s part).next == head) [
  | true ↦ some 0
  | false ↦ elim (((s part).length == size) && ((s part).kind == 0)) [
    | true ↦ some part
    | false ↦ find_empty fuel size (s part).next s
  ]
]

-- hdskCheckIfPrevPartEmpty and hdskCheckIfNextPartEmpty
abbrev pub is_empty_of : ℕ → PartSlot → Bool
is_empty_of size v = (v.length == size) && (v.kind == 0)

abbrev pub prev_empty : ℕ → ℕ → Slots → Bool
prev_empty part size s = is_empty_of size (s (s part).prev)

abbrev pub next_empty : ℕ → ℕ → Slots → Bool
next_empty part size s = is_empty_of size (s (s part).next)

-- The second mode takes a partition only where moving it leaves an empty one of twice the size.
pub is_chosen : ℕ → Bool → ℕ → Slots → Bool
is_chosen size mode part s =
    if mode
    then (if (s part).start % (size * 2) == 0
        then (part == (s head).prev) || next_empty part size s
        else prev_empty part size s)
    else true

-- hdskSimFindLastUsedPartition, from an entry backwards.
pub find_last_used : ℕ → ℕ → ℕ → Bool → ℕ → Slots → Option ℕ
find_last_used zero size start mode part s = none
find_last_used (suc fuel) size start mode part s =
    elim (ltb start (s part).start && not (part == head)) [
      | false ↦ some 0
      | true ↦
          elim (((s part).length == size)
            && not ((s part).kind == 0)
            && is_chosen size mode part s) [
              | true ↦ some part
              | false ↦ find_last_used fuel size start mode (s part).prev s
            ]
    ]

-- hdskCheckIsLastPart: the entries from `part` on that make up the size, and the last of them.
pub block_end : ℕ → ℕ → ℕ → ℕ → Slots → Option (ℕ × ℕ)
block_end zero size current sectors s = none
block_end (suc fuel) size current sectors s = elim (ltb sectors size && not (current == head)) [
  | false ↦ some (current, sectors)
  | true ↦
      let following = (s current).next in
      elim ((s following).kind == 0) [
        | true ↦ some (following, sectors)
        | false ↦ block_end fuel size following (add32 sectors (s following).length) s
      ]
]

pub is_last_part : ℕ → ℕ → ℕ → Bool → Slots → Option Bool
is_last_part fuel part size mode s = elim (block_end fuel size part (s part).length s) [
  | none ↦ none
  | some (current, sectors) ↦ some (
      if sectors == size
      then (if mode
          then (if (s part).start % (size * 2) == 0
              then (current == (s head).prev) || next_empty current size s
              else prev_empty part size s)
          else true)
      else false)
]

-- hdskSimFindLastUsedBlock, from an entry backwards.
pub find_last_block : ℕ → ℕ → ℕ → Bool → ℕ → Slots → Option ℕ
find_last_block zero size start mode part s = none
find_last_block (suc fuel) size start mode part s =
    elim (ltb start (s part).start && not (part == head)) [
      | false ↦ some 0
      | true ↦
          elim (((s part).start % size == 0)
            && ltb (s part).length size
            && not ((s part).kind == 0)) [
              | false ↦ find_last_block fuel size start mode (s part).prev s
              | true ↦ elim (is_last_part (suc fuel) part size mode s) [
                | none ↦ none
                | some chosen ↦ elim chosen [
                  | true ↦ some part
                  | false ↦ find_last_block fuel size start mode (s part).prev s
                ]
              ]
            ]
    ]

-- hdskBitmapAlloc, from an entry; 0 where none of the rest is free.
pub bitmap_alloc : ℕ → ℕ → Slots → ℕ
bitmap_alloc zero part s = 0
bitmap_alloc (suc rest) part s =
    if (s part).length == 0 then part else bitmap_alloc rest (part + 1) s

-- The whole search: all entries but the head.
pub find_free : Slots → ℕ
find_free s = bitmap_alloc spare_slots 2 s

module _ (chains : Chains) where
  -- A round of hdskSimSplitEmptyPartition, and the loop; none where no entry is free.
  abbrev pub halve : ℕ → ℕ → Slots → Slots
  halve part free s =
      let half = (s part).length / 2 in
      let s1 = put_slot part (record (s part) { length = half }) s in
      let s2 =
        put_slot free
          (record (s1 free) { start = add32 (s1 part).start half; kind = 0; length = half }) s1 in
      chains.link part free s2

  pub split_empty : ℕ → ℕ → ℕ → Slots → Option Slots
  split_empty zero part length s = none
  split_empty (suc fuel) part length s = elim ((s part).length == length) [
    | true ↦ some s
    | false ↦
        let free = find_free s in
        elim (free == 0) [ true ↦ none | false ↦ split_empty fuel part length (halve part free s) ]
  ]

  -- The tests of a merge: the sum of the lengths, if the first begins at a multiple of it and it is a
  -- power of two.
  abbrev pub merged : ℕ → ℕ → Slots → Option ℕ
  merged first second s =
      let length = add32 (s first).length (s second).length in
      if length == 0
      then none
      else if ((s first).start % length == 0) && is_power 32 length
      then some length
      else none

  -- hdskSimDeleteFixPrev: the entry that it ends at.
  pub delete_fix_prev : ℕ → ℕ → Slots → Option (ℕ × Slots)
  delete_fix_prev zero part s = none
  delete_fix_prev (suc fuel) part s = elim ((s head).next == part) [
    | true ↦ some (part, s)
    | false ↦
        let before = (s part).prev in
        elim ((s before).kind == 0) [
          | false ↦ some (part, s)
          | true ↦ elim (merged before part s) [
            | none ↦ some (part, s)
            | some length ↦
                let s1 = put_slot before (record (s before) { length = length }) s in
                delete_fix_prev fuel before (clear_header part (chains.unchain part s1))
          ]
        ]
  ]

  -- hdskSimDeleteFixNext, which takes the entry itself out of the list, not the one behind it.
  pub delete_fix_next : ℕ → ℕ → Slots → Option (ℕ × Slots)
  delete_fix_next zero part s = none
  delete_fix_next (suc fuel) part s = elim ((s head).prev == part) [
    | true ↦ some (part, s)
    | false ↦
        let following = (s part).next in
        elim ((s following).kind == 0) [
          | false ↦ some (part, s)
          | true ↦ elim (merged part following s) [
            | none ↦ some (part, s)
            | some length ↦
                let s1 = put_slot part (record (s part) { length = length; kind = 0 }) s in
                delete_fix_next fuel part (clear_header part (chains.unchain part s1))
          ]
        ]
  ]

  -- hdskSimSwapPartition
  pub drop_last : ℕ → ℕ → Slots → Option Slots
  drop_last zero part s = none
  drop_last (suc fuel) part s =
      let s1 = clear_header part (chains.unchain part s) in
      let last = (s1 head).prev in
      elim ((last == 0) || ((s1 last).kind == 0)) [
        | true ↦ some s1
        | false ↦ drop_last fuel last s1
      ]

  abbrev pub merge_both : ℕ → ℕ → Slots → Option (ℕ × Slots)
  merge_both fuel part s = elim (delete_fix_prev fuel part s) [
    | none ↦ none
    | some (part1, s1) ↦ delete_fix_next fuel part1 s1
  ]

  pub swap_partition : ℕ → ℕ → Slots → Option Slots
  swap_partition fuel part s = elim ((s head).prev == part) [
    | true ↦ drop_last fuel part s
    | false ↦ elim (merge_both fuel part s) [
      | none ↦ none
      | some (part1, s1) ↦ elim (merge_both fuel part1 s1) [
        | none ↦ none
        | some (part2, s2) ↦ some (
            if ((s2 part2).start == (s part).start) && ((s2 part2).length == (s part).length)
            then put_slot part2 (record (s2 part2) { kind = 0 }) s2
            else s2)
      ]
    ]
  ]

  -- hdskSimMovePartition, with TotalCopied.
  pub move_partition : ℕ → ℕ → ℕ → ℕ × Slots → Option (ℕ × Slots)
  move_partition fuel dest part (copied, s) =
      elim (swap_partition fuel part (put_slot dest (record (s dest) { kind = (s part).kind }) s)) [
        | none ↦ none
        | some s1 ↦ some (add32 copied (s part).length, s1)
      ]

  -- The loop of hdskSimMovePartitionsBlock.
  pub move_block : ℕ → ℕ → ℕ → ℕ → ℕ × Slots → Option (ℕ × Slots)
  move_block zero dest src size (copied, s) = none
  move_block (suc fuel) dest src size (copied, s) = elim (split_empty 32 dest (s src).length s) [
    | none ↦ none
    | some s1 ↦ elim ((s1 src).next == head) [
      | true ↦ some (copied, s1)
      | false ↦ elim (move_partition (suc fuel) dest src (copied, s1)) [
        | none ↦ none
        | some (copied2, s2) ↦
            let dest2 = (s2 dest).next in
            let left = sub32 size (s2 dest2).length in
            elim ((left == 0) || (dest2 == head)) [
              | true ↦ some (copied2, s2)
              | false ↦ move_block fuel dest2 (s2 src).next left (copied2, s2)
            ]
      ]
    ]
  ]
