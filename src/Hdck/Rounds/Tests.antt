-- ===== src/Hdck/Rounds/Tests.antt =====
-- The repairs of the partition table on tables in memory.
use hddchecker.Prelude.{
  ℕ, zero, suc, ◌%◌, ◌≡◌, ◌≢◌, ◌≤◌, ◌<◌, refl, sym, ap, subst, inl, inr, true, false, Bool, none,
  some, [], ◌∷◌, arith, ℕ_discrete, Bool-cases, not_both, ◌==◌, if◌then◌else◌, ret,
}
use hddchecker.Hdck.{Header, ErrorPart, listed}
use hddchecker.Hdck.Empty.{mark_loop}
use hddchecker.Hdck.Empty.Rounds.{mark_loop_total}
use hddchecker.Hdck.Partitions.{check_mains, check_subs}
use hddchecker.Hdck.Partitions.Kept.{IsOwned, check_subs_keeps}
use hddchecker.Hdck.Partitions.Trim.{CutAt, check_mains_cuts}
use hddchecker.Hdck.Repairs.{remove_bad, recover_subs, sub_at, top_bit}
use hddchecker.Hdck.Repairs.Cut.{remove_bad_cuts}
use hddchecker.Hdck.Repairs.Recovery.{recover_subs_restores}
use hddchecker.Hdck.Samples.{Table, header, at, library, cache-ApaLaws, library-LibraryLaws}

-- Partition 4 lists 8, which is there, and 12, which is lost; 8 is its sub-partition.
abbrev owner : Header
owner = record (header 4 8 0) { nsub = 2; subs = (8, 4) ∷ (12, 4) ∷ [] }

abbrev owned : Header
owned = record (header 8 0 4) { is_sub = true; main = 4; number = 1 }

abbrev table : Table
table =
    (header 0 4 8, λ lba. if lba == 4 then some owner else if lba == 8 then some owned else none)

only_four : (l : ℕ) → listed l (4 ∷ []) ≡ true → (h : Header) × (at table l ≡ some h)
only_four l i = let e : l ≡ 4 = ground arith in (owner, ap (at table) e)

check_mains_cuts_example :
    (w' : Table) × (check_mains library (8 ∷ []) (4 ∷ []) (ret 0) table ≡ (ret 0, w'))
    × ((l : ℕ) → CutAt library at library-LibraryLaws (8 ∷ []) (4 ∷ []) table w' l)
check_mains_cuts_example =
    check_mains_cuts library at library-LibraryLaws (8 ∷ []) (4 ∷ []) table only_four

eight_has_owner : (l : ℕ) → listed l (8 ∷ []) ≡ true → IsOwned (4 ∷ []) (at table) l
eight_has_owner l i =
    let e : 8 ≡ l = ground arith in
    subst (λ k. IsOwned (4 ∷ []) (at table) k) e (owned, refl, refl, refl, owner, refl, has_some)
  where
    has_some : owner.nsub ≢ 0
    has_some e = omega arith

check_subs_keeps_example :
    (w' : Table) × (check_subs library (4 ∷ []) (8 ∷ []) (ret 0) table ≡ (ret 0, w'))
    × (at w' ≡ at table)
check_subs_keeps_example =
    check_subs_keeps library at cache-ApaLaws (4 ∷ []) (8 ∷ []) table eight_has_owner

-- The header at 12 is the only one that is lost.
abbrev lost : ErrorPart
lost = record { lba = 12; lba2 = 12; prev_lba = 8; prev_lba2 = 0 }

first_differs : (i : ℕ) → i < 1 → (sub_at i owner.subs).0 ≢ 12
first_differs zero lt e = absurd (omega arith)
first_differs (suc i) lt e = absurd (omega arith)

recover_subs_restores_example :
    (w' : Table) × (recover_subs library 3 4 0 lost table
      ≡ some (record lost { lba = 0; lba2 = 0 }, w'))
    × (at w' 12
        ≡ some (record {
          start = 12;
          length = 4;
          next = 0;
          prev = 8;
          kind = 256;
          is_sub = true;
          main = 4;
          number = 2;
          nsub = 0;
          subs = [];
        }))
    × ((l : ℕ) → l ≢ 12 → at w' l ≡ at table l)
recover_subs_restores_example =
    recover_subs_restores library at library-LibraryLaws 4 1 owner (header 0 4 8) lost table refl
      refl (omega arith) first_differs refl refl (omega arith) (omega arith)

remove_bad_cuts_example :
    let r = remove_bad library lost table in
    (r.0 ≡ record lost { lba = 0; lba2 = 0 })
    × (at r.1 8 ≡ some (record owned { next = 0; is_sub = true }))
    × (at r.1 0 ≡ some (record (header 0 4 8) { prev = 8; is_sub = true }))
    × ((l : ℕ) → l ≢ 0 → l ≢ 8 → at r.1 l ≡ at table l)
remove_bad_cuts_example =
    remove_bad_cuts library at library-LibraryLaws lost owned (header 0 4 8) table refl refl
      (omega arith)

-- The partition behind 4 is unreadable, and as long as two of it.
is_zero_of : (k : ℕ) → (k == 0) ≡ true → k ≡ 0
is_zero_of k e = ground arith

abbrev all_divide : ℕ → Bool
all_divide zero = true
all_divide (suc n) = if 16 % top_bit 31 n == 0 then all_divide n else false

divides_below : (m n : ℕ) → all_divide m ≡ true → n < m → 16 % top_bit 31 n ≡ 0
divides_below zero n all lt = absurd (omega arith)
divides_below (suc m) n all lt = elim (Bool-cases (16 % top_bit 31 m == 0)) [
  | inr not_it ↦ elim (not_both false (rw not_it at all) refl) [ ]
  | inl here ↦ elim (ℕ_discrete n m) [
    | yes same ↦ subst (λ k. 16 % top_bit 31 k ≡ 0) (sym same) (is_zero_of (16 % top_bit 31 m) here)
    | no other ↦ divides_below m n (rw here at all) (omega arith)
  ]
]

aligned : (n : ℕ) → n ≤ 8 → 16 % top_bit 31 n ≡ 0
aligned n le = divides_below 9 n refl (omega arith)

mark_loop_total_example :
    (w' : Table) × (mark_loop library 3 4 16 8 table ≡ some w')
    × (mark_loop library 2 4 16 8 table ≡ none)
    × (at w' 4 ≡ some (record owner { next = 16 }))
mark_loop_total_example =
    mark_loop_total library at library-LibraryLaws 2 4 16 8 owner table refl (omega arith)
      (omega arith) refl (omega arith) aligned
