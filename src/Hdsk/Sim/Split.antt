-- ===== src/Hdsk/Sim/Split.antt =====
-- hdskSimSplitEmptyPartition halves an empty partition until it has the length that is asked for.
use native.Mathlib.Nat.{pow-suc, mul_assoc}
use hddchecker.Prelude.{
  ℕ, zero, suc, ◌+◌, ◌*◌, ◌/◌, ◌^◌, ◌≡◌, ◌≢◌, ◌≤◌, ◌<◌, ◌∙◌, refl, sym, ap, inl, inr, Bool, true,
  false, some, arith, ℕ_discrete, add32, ◌==◌, if◌then◌else◌, Bool-cases,
}
use hddchecker.Hdsk.Sim.{
  Slots, Chains, spare_slots, bitmap_alloc, put_slot, find_free, halve, split_empty,
}

-- A length that is a multiple of a power of two.
doubled : (len k : ℕ) → len * 2 ^ suc k ≡ (len * 2 ^ k) * 2
doubled len k = ap (λ m. len * m) (pow-suc 2 k) ∙ sym (mul_assoc len (2 ^ k) 2)

halved : (n len k : ℕ) → n ≡ len * 2 ^ suc k → n / 2 ≡ len * 2 ^ k
halved n len k e = let twice = doubled len k in omega arith

at_least : (len k : ℕ) → len ≤ len * 2 ^ k
at_least len zero = omega arith
at_least len (suc k) = let less = at_least len k in let twice = doubled len k in omega arith

longer_than : (n len k : ℕ) → n ≡ len * 2 ^ suc k → len ≢ 0 → len < n
longer_than n len k e pos = let less = at_least len k in let twice = doubled len k in omega arith

same : (i j : ℕ) → (i == j) ≡ true → i ≡ j
same i j e = ground arith

differs : (b : Bool) → (b ≡ true → ⊥) → b ≡ false
differs false h = refl
differs true h = absurd (h refl)

is_equal : (n m : ℕ) → n ≡ m → (n == m) ≡ true
is_equal n m e = ground arith

is_longer : (n m : ℕ) → m < n → (n == m) ≡ false
is_longer n m lt = ground arith

is_zero_not : (n m : ℕ) → m < n → n ≢ 0
is_zero_not n m lt = omega arith

positive : (k n : ℕ) → suc k ≤ n → 0 < n
positive k n le = omega arith

one_less : (k n m : ℕ) → suc k ≤ n → n ≤ m + 1 → k ≤ m
one_less k n m le less = omega arith

from_two : (i : ℕ) → 2 ≤ i → (i == 0) ≡ false
from_two i le = ground arith

suc_pos : (n : ℕ) → suc n ≢ 0
suc_pos n = omega arith

times_one : (n : ℕ) → n * 2 ^ 0 ≡ n
times_one n = omega arith

-- What linking leaves alone: the start, the length and the type of each entry.
pub record ChainLaws (chains : Chains) : Type 0 where
  pub link_length : (i j k : ℕ) (s : Slots) → (chains.link i j s k).length ≡ (s k).length
  pub link_start : (i j k : ℕ) (s : Slots) → (chains.link i j s k).start ≡ (s k).start
  pub link_kind : (i j k : ℕ) (s : Slots) → (chains.link i j s k).kind ≡ (s k).kind

-- The entries from `part` on that are free, of the next `rest`.
abbrev pub free_slots : ℕ → ℕ → Slots → ℕ
free_slots zero part s = 0
free_slots (suc rest) part s =
    (if (s part).length == 0 then 1 else 0) + free_slots rest (part + 1) s

-- An entry that is free is found where there is one, and it is one of those that are looked at.
bitmap_alloc_finds :
    (rest part : ℕ) (s : Slots)
    → part ≢ 0
    → 0 < free_slots rest part s
    → let i = bitmap_alloc rest part s in ((s i).length ≡ 0) × (part ≤ i) × (i < part + rest)
unfolding bitmap_alloc
bitmap_alloc_finds zero part s pos some_free = absurd (omega arith)
bitmap_alloc_finds (suc rest) part s pos some_free = elim (Bool-cases ((s part).length == 0)) [
  | inl free ↦ rw (free, bitmap_alloc) (ground arith, omega arith, omega arith)
  | inr used ↦
      let (zeroth, above, below) =
        bitmap_alloc_finds rest (part + 1) s (omega arith) (ground arith) in
      rw (used, bitmap_alloc) (zeroth, omega arith, omega arith)
]

-- If all free entries but one stay free, one less is free at most.
free_slots_kept :
    (rest part : ℕ) (s t : Slots)
    → ((j : ℕ) → part ≤ j → (s j).length ≡ 0 → (t j).length ≡ 0)
    → free_slots rest part s ≤ free_slots rest part t
free_slots_kept zero part s t same = omega arith
free_slots_kept (suc rest) part s t same =
    let more = free_slots_kept rest (part + 1) s t (λ j le zeroth. same j (omega arith) zeroth) in
    let here = same part (omega arith) in ground arith

free_slots_less :
    (rest part i : ℕ) (s t : Slots)
    → ((j : ℕ) → j ≢ i → (s j).length ≡ 0 → (t j).length ≡ 0)
    → free_slots rest part s ≤ free_slots rest part t + 1
free_slots_less zero part i s t same = omega arith
free_slots_less (suc rest) part i s t same = elim (ℕ_discrete part i) [
  | yes taken ↦
      let more = free_slots_kept rest (part + 1) s t (λ j le zeroth. same j (omega arith) zeroth) in
      ground arith
  | no other ↦
      let more = free_slots_less rest (part + 1) i s t same in
      let here = same part other in ground arith
]

-- The number of free entries.
unfoldable pub free_count : Slots → ℕ
free_count s = free_slots spare_slots 2 s

find_free_finds :
    (s : Slots) → 0 < free_count s → ((s (find_free s)).length ≡ 0) × (2 ≤ find_free s)
unfolding free_count find_free
find_free_finds s some_free =
    let (zeroth, above, below) = bitmap_alloc_finds spare_slots 2 s (suc_pos 1) some_free in
    (zeroth, above)

free_count_less :
    (i : ℕ) (s t : Slots)
    → ((j : ℕ) → j ≢ i → (s j).length ≡ 0 → (t j).length ≡ 0)
    → free_count s ≤ free_count t + 1
unfolding free_count
free_count_less i s t same = free_slots_less spare_slots 2 i s t same

module _ (chains : Chains) (laws : ChainLaws chains) where
  -- What a round leaves: the partition has half of its length and its start, and an entry that was
  -- free, other than the one taken, still is.
  halve_part :
      (part free : ℕ) (s : Slots)
      → part ≢ free
      → ((halve chains part free s part).length ≡ (s part).length / 2)
        × ((halve chains part free s part).start ≡ (s part).start)
  halve_part part free s apart =
      let half = (s part).length / 2 in
      let s1 = put_slot part (record (s part) { length = half }) s in
      let s2 =
        put_slot free
          (record (s1 free) { start = add32 (s1 part).start half; kind = 0; length = half }) s1 in
      let own : (part == part) ≡ true = ground arith in
      let other : (part == free) ≡ false = ground arith in
      (
        laws.link_length part free part s2 ∙ rw (other, own) refl,
        laws.link_start part free part s2 ∙ rw (other, own) refl,
      )

  halve_free :
      (part free j : ℕ) (s : Slots)
      → j ≢ free
      → (s part).length ≢ 0
      → (s j).length ≡ 0
      → (halve chains part free s j).length ≡ 0
  halve_free part free j s apart used zeroth =
      let half = (s part).length / 2 in
      let s1 = put_slot part (record (s part) { length = half }) s in
      let s2 =
        put_slot free
          (record (s1 free) { start = add32 (s1 part).start half; kind = 0; length = half }) s1 in
      let other : (j == free) ≡ false = ground arith in
      let not_part : (j == part) ≡ false =
        differs (j == part) (λ e. used ((ap (λ i. (s i).length) (sym (same j part e))) ∙ zeroth)) in
      laws.link_length part free j s2 ∙ rw (other, not_part) zeroth

  -- If the length of a partition is the one that is asked for times 2 ^ k, and k entries are free,
  -- the loop that splits it ends after k rounds, and the partition then has that length, and begins
  -- where it began.
  pub split_empty_halves :
      (k part length : ℕ) (s : Slots)
      → (s part).length ≡ length * 2 ^ k
      → length ≢ 0
      → k ≤ free_count s
      → (s' : Slots) × (split_empty chains (suc k) part length s ≡ some s')
        × ((s' part).length ≡ length)
        × ((s' part).start ≡ (s part).start)
  unfolding split_empty
  split_empty_halves zero part length s total pos room =
      let equal : (s part).length ≡ length = total ∙ times_one length in
      let ended : ((s part).length == length) ≡ true = is_equal (s part).length length equal in
      (s, rw (ended, split_empty) refl, equal, refl)
  split_empty_halves (suc k) part length s total pos room =
      let free = find_free s in
      let (zeroth, above) = find_free_finds s (positive k (free_count s) room) in
      let more = longer_than (s part).length length k total pos in
      let longer : ((s part).length == length) ≡ false = is_longer (s part).length length more in
      let got : (free == 0) ≡ false = from_two free above in
      let apart : part ≢ free =
        λ e. is_zero_not (s part).length length more (ap (λ i. (s i).length) e ∙ zeroth) in
      let used : (s part).length ≢ 0 = λ e. is_zero_not (s part).length length more e in
      let (half, begins) = halve_part part free s apart in
      let fewer =
        free_count_less free s (halve chains part free s)
          (λ j other e. halve_free part free j s other used e) in
      let (s', run, len, start) =
        split_empty_halves k part length (halve chains part free s)
          (half ∙ halved (s part).length length k total) pos
          (one_less k (free_count s) (free_count (halve chains part free s)) room fewer) in
      (s', rw (longer, split_empty, got) run, len, start ∙ begins)
