-- ===== src/Hdsk/Tests.antt =====
-- A disk with two used partitions behind an empty one.
use hddchecker.Prelude.{ℕ, suc, ◌≡◌, ◌≤◌, refl, some, [], ◌∷◌, arith, ◌==◌, if◌then◌else◌}
use hddchecker.Hdsk.Sim.{PartSlot, Slots, Chains, put_slot, find_empty, split_empty}
use hddchecker.Hdsk.Sim.Find.{Behind, FindsEmpty, find_empty_finds}
use hddchecker.Hdsk.Sim.Split.{ChainLaws, free_slots, free_count, split_empty_halves}
use hddchecker.Hdsk.Stat.{no_slots}

abbrev slot : ℕ → ℕ → ℕ → ℕ → ℕ → PartSlot
slot next prev start length kind = record {
  next = next;
  prev = prev;
  start = start;
  length = length;
  kind = kind;
}

-- The head, the empty partition, and two that are used.
abbrev disk : Slots
disk = put_slot 1 (slot 2 4 0 0 0) (
    put_slot 2 (slot 3 1 0 1048576 0) (
      put_slot 3 (slot 4 2 1048576 262144 256) (put_slot 4 (slot 1 3 1310720 262144 256) no_slots)))

-- Linking of an entry behind another, and taking one out.
abbrev chains : Chains
chains = record {
  link = λ i j s k. record (s k) {
    next = if k == i then j else if k == j then (s i).next else (s k).next;
    prev = if k == j then i else if k == (s i).next then j else (s k).prev;
  };
  unchain = λ i s k. record (s k) {
    next = if k == (s i).prev then (s i).next else (s k).next;
    prev = if k == (s i).next then (s i).prev else (s k).prev;
  };
}

chains-ChainLaws : ChainLaws chains
chains-ChainLaws = record {
  link_length = λ i j k s. refl;
  link_start = λ i j k s. refl;
  link_kind = λ i j k s. refl;
}

all_entries : Behind disk 1 (2 ∷ 3 ∷ 4 ∷ [])
all_entries = (
  refl,
  ground arith,
  ground arith,
  (refl, ground arith, ground arith, (refl, ground arith, ground arith, refl)),
)

find_empty_finds_example :
    (p : ℕ) × (find_empty 4 1048576 1 disk ≡ some p) × FindsEmpty 1048576 disk (1 ∷ 2 ∷ 3 ∷ []) p
find_empty_finds_example =
    find_empty_finds 4 1048576 1 (2 ∷ 3 ∷ 4 ∷ []) disk all_entries (omega arith)

two_free : (rest : ℕ) → 2 ≤ free_slots (suc (suc (suc (suc (suc rest))))) 2 disk
two_free rest = omega arith

room_for_two : 2 ≤ free_count disk
unfolding free_count
room_for_two = two_free 16379

split_empty_halves_example :
    (s' : Slots) × (split_empty chains 3 2 262144 disk ≡ some s')
    × ((s' 2).length ≡ 262144)
    × ((s' 2).start ≡ 0)
split_empty_halves_example =
    split_empty_halves chains chains-ChainLaws 2 2 262144 disk refl (omega arith) room_for_two
