-- ===== src/Hdsk/Stat.antt =====
-- hdskGetStat of hdsk/hdsk.c, with hdskBitmapInit, and hdskSimGetFreeSectors of hdsk/sim.c: how much
-- the optimiser would copy, and how much can be installed. apaGetNextHeader is the list of headers.
pub mod Filling
use Prim.Native.Nat.{bit_and}
use hddchecker.Prelude.{
  ℕ, zero, suc, ◌+◌, ◌*◌, ◌/◌, ◌%◌, Bool, true, false, not, ◌&&◌, ◌||◌, Option, none, some, List,
  [], ◌∷◌, ltb, ◌==◌, if◌then◌else◌, add32, u32_mod,
}
use hddchecker.Hdsk.Sim.{
  PartSlot, Slots, Chains, head, put_slot, find_empty, find_last_used, find_last_block,
  move_partition, move_block,
}

-- HDSK_MIN_PART_SIZE, and the least size that the free sectors are counted in.
abbrev pub min_part_size : ℕ
min_part_size = 262144

-- What is read of apa_device_t.
pub record Device : Type 0 where
  pub partition_max_size : ℕ
  pub total_lba : ℕ

-- struct hdskStat
pub record Stat : Type 0 where
  pub free : ℕ
  pub total : ℕ

-- `sectors` and `stat->free`
pub record Room : Type 0 where
  pub sectors : ℕ
  pub free : ℕ

-- A length is added to the free sectors if it is large or its bits are not among them yet.
abbrev pub add_free : ℕ → ℕ → ℕ
add_free length free =
    if ltb 2097151 length || (bit_and free length == 0) then add32 free length else free

-- The loop over the array, which adds the length of an empty partition twice.
pub sum_slots : ℕ → ℕ → Room → Slots → Room
sum_slots zero i r s = r
sum_slots (suc rest) i r s = elim ((s i).next == head) [
  | true ↦ r
  | false ↦
      let v = s i in
      let r1 =
        if v.kind == 0
        then record { free = add_free v.length r.free; sectors = add32 r.sectors v.length }
        else r in
      sum_slots rest (i + 1) (record r1 { sectors = add32 r1.sectors v.length }) s
]

-- The inner loop: the largest size that fits behind the sectors, from `size` down, or 0.
pub fitting_size : ℕ → ℕ → ℕ → ℕ → ℕ
fitting_size zero size sectors total = 0
fitting_size (suc bits) size sectors total =
    if ltb 262143 size
    then (if (sectors % size == 0) && ltb (sectors + size) total
        then size
        else fitting_size bits (size / 2) sectors total)
    else 0

pub fill_room : ℕ → Device → Room → Option Room
fill_room zero d r = none
fill_room (suc fuel) d r =
    let size = fitting_size 32 d.partition_max_size r.sectors d.total_lba in
    elim (size == 0) [
      | true ↦ some r
      | false ↦
          fill_room fuel d (record { sectors = add32 r.sectors size; free = add_free size r.free })
    ]

-- hdskSimGetFreeSectors
pub free_sectors : ℕ → Device → Slots → Option ℕ
free_sectors fuel d s =
    elim (fill_room fuel d (sum_slots 16385 1 (record { sectors = 0; free = 0 }) s)) [
      | none ↦ none
      | some r ↦ some r.free
    ]

-- memset of the array and its head, and hdskBitmapInit's loop over the headers.
abbrev pub no_slots : Slots
no_slots =
    put_slot head (record { next = head; prev = head; start = 0; length = 0; kind = 0 })
      (λ i. record { next = 0; prev = 0; start = 0; length = 0; kind = 0 })

module _ (chains : Chains) where
  pub bitmap_init : List PartSlot → ℕ → Slots → Slots
  bitmap_init [] used s = s
  bitmap_init (h ∷ headers) used s =
      let i = used + 2 in
      let s1 = put_slot i (record (s i) { start = h.start; length = h.length; kind = h.kind }) s in
      bitmap_init headers (used + 1) (chains.link (s1 head).prev i s1)

  -- `a` if it is an entry, and otherwise `b`.
  abbrev pub or_else : Option ℕ → Option ℕ → Option ℕ
  or_else none b = none
  or_else (some zero) b = b
  or_else (some (suc a)) b = some (suc a)

  -- The partition that is moved into the empty one: alone, where one of the first three searches
  -- finds it, or with those behind it.
  pub find_single : ℕ → ℕ → ℕ → Slots → Option ℕ
  find_single fuel size part s =
      let start = (s part).start in
      let last = (s head).prev in
      or_else (find_last_used fuel size start true last s) (
        or_else
          (if ltb min_part_size size then find_last_block fuel size start true last s else some 0)
          (find_last_used fuel size start false last s))

  pub find_block : ℕ → ℕ → ℕ → Slots → Option ℕ
  find_block fuel size part s =
      if ltb min_part_size size
      then find_last_block fuel size (s part).start false (s head).prev s
      else some 0

  abbrev pub move_round : ℕ → ℕ → ℕ → ℕ × Slots → Option (Bool × ℕ × Slots)
  move_round fuel size part (copied, s) = elim (find_single fuel size part s) [
    | none ↦ none
    | some (suc src) ↦ elim (move_partition chains fuel part (suc src) (copied, s)) [
      | none ↦ none
      | some (c, s1) ↦ some (true, c, s1)
    ]
    | some zero ↦ elim (find_block fuel size part s) [
      | none ↦ none
      | some zero ↦ some (false, copied, s)
      | some (suc src) ↦ elim (move_block chains fuel part (suc src) (s part).length (copied, s)) [
        | none ↦ none
        | some (c, s1) ↦ some (true, c, s1)
      ]
    ]
  ]

  -- The loop over the empty partitions of one size.
  pub fill_size : ℕ → ℕ → ℕ × Slots → Option (ℕ × Slots)
  fill_size zero size (copied, s) = none
  fill_size (suc fuel) size (copied, s) = elim (find_empty (suc fuel) size head s) [
    | none ↦ none
    | some zero ↦ some (copied, s)
    | some (suc part) ↦ elim (move_round (suc fuel) size (suc part) (copied, s)) [
      | none ↦ none
      | some (goes_on, c, s1) ↦ elim goes_on [
        | true ↦ fill_size fuel size (c, s1)
        | false ↦ some (c, s1)
      ]
    ]
  ]

  -- The loop over the sizes.
  pub fill_sizes : ℕ → ℕ → ℕ → ℕ → ℕ × Slots → Option (ℕ × Slots)
  fill_sizes zero fuel size limit (copied, s) = none
  fill_sizes (suc rounds) fuel size limit (copied, s) = elim (ltb size limit) [
    | false ↦ some (copied, s)
    | true ↦ elim (fill_size fuel size (copied, s)) [
      | none ↦ none
      | some (c, s1) ↦ fill_sizes rounds fuel ((size * 2) % u32_mod) limit (c, s1)
    ]
  ]

  -- hdskGetStat, once the headers are read.
  pub get_stat : ℕ → List PartSlot → Device → Option Stat
  get_stat fuel headers d =
      let s = bitmap_init headers 0 no_slots in
      elim (fill_sizes 33 fuel min_part_size d.partition_max_size (0, s)) [
        | none ↦ none
        | some (copied, s1) ↦ elim (free_sectors fuel d s1) [
          | none ↦ none
          | some free ↦ some (record { free = free; total = copied })
        ]
      ]
