-- ===== src/Hdck/Repairs.antt =====
-- hdck/hdck.c: the calls that repair the partition table, and what one of its rounds writes. A
-- header that is held in the cache is named by its address, and read again at each use.
pub mod Cut
pub mod Laws
pub mod Recovery
use hddchecker.Prelude.{
  ℕ, zero, suc, ◌+◌, ◌*◌, ◌/◌, ◌%◌, ◌^◌, Bool, true, false, not, ◌&&◌, ◌||◌, Option, none, some,
  List, [], get_or, ltb, ◌==◌, if◌then◌else◌, RetCode, add32, sub32,
}
use hddchecker.Hdck.{Header, Apa, ErrorPart, Way, forward, backward, ahead, save}

-- Beside the cache of headers: a header that is held, whether an entry for an address is got without
-- a read, apaRemovePartition, apaDelete, apaDeleteFixPrev, apaCacheFlushAllDirty, and the ATA driver's
-- write of a sector of zeros and its flush. apaCacheGetHeader and apaRemovePartition give the entry
-- of the address, or NULL, which is false here.
pub record Library (W : Type 0) : Type 0 where
  pub apa : Apa W
  pub peek : ℕ → W → Header
  pub claim : ℕ → W → Bool × W
  pub remove_partition : ℕ → ℕ → ℕ → ℕ → W → Bool × W
  pub delete : ℕ → W → RetCode × W
  pub delete_fix_prev : ℕ → Header → W → Option Header × W
  pub flush_all : W → W
  pub write_zeros : ℕ → W → W
  pub flush_ata : W → W

-- An entry of `subs`, which is all zeros where it was not set.
abbrev pub sub_at : ℕ → List (ℕ × ℕ) → ℕ × ℕ
sub_at n subs = get_or subs n (0, 0)

-- The error partition at which a cycle does not begin.
abbrev pub end_of : Way → ErrorPart → ℕ
end_of forward e = e.lba
end_of backward e = e.lba2

-- The header that RecoverSubPartition writes.
abbrev pub recovered : Header → ℕ → ℕ → ℕ → ℕ → ℕ → ℕ → Header
recovered mbr lba previous length substart kind number = record {
  start = lba;
  length = length;
  next = if ltb lba mbr.prev then add32 lba length else 0;
  prev = previous;
  kind = kind;
  is_sub = true;
  main = substart;
  number = number;
  nsub = 0;
  subs = [];
}

-- The highest power of two, from 2 ^ i down, whose bit is set.
abbrev pub top_bit : ℕ → ℕ → ℕ
top_bit zero length = 1
top_bit (suc i) length = if (length / 2 ^ suc i) % 2 == 1 then 2 ^ suc i else top_bit i length

module _ {W : Type 0} (lib : Library W) where
  -- EraseSector
  pub erase_sector : ℕ → W → W
  erase_sector lba w = lib.flush_ata (lib.write_zeros lba w)

  -- RemoveBadPartitions: the two headers are changed in the cache, but it is the flags of the headers
  -- that get the bit of a dirty entry, which there means a sub-partition.
  abbrev pub set_header : ℕ → (Header → Header) → W → W
  set_header lba f w = (lib.apa).put lba (f (lib.peek lba w)) w

  pub remove_bad : ErrorPart → W → ErrorPart × W
  remove_bad e w =
      let (r, found, w1) = (lib.apa).get e.prev_lba w in
      elim found [
        | none ↦ (e, w1)
        | some h ↦
            let w2 = set_header e.prev_lba (λ h. record h { next = 0 }) w1 in
            let w3 = set_header 0 (λ h. record h { prev = e.prev_lba }) w2 in
            let w4 = set_header e.prev_lba (λ h. record h { is_sub = true }) w3 in
            let w5 = set_header 0 (λ h. record h { is_sub = true }) w4 in
            (record e { lba = 0; lba2 = 0 }, lib.flush_all w5)
      ]

  -- RecoverSubPartition, with the main partition's start and type.
  pub recover_sub : ℕ → ℕ → ℕ → ℕ → ℕ → ℕ → W → Option W
  recover_sub lba previous length substart kind number w =
      let (found, w1) = lib.claim lba w in
      if found
      then some
          (save lib.apa lba (recovered (lib.peek 0 w1) lba previous length substart kind number) w1)
      else none

  -- The two tests of an entry of the main partition at an address.
  pub recover_first : ℕ → ℕ → ErrorPart → W → Option (ErrorPart × W)
  recover_first lba sub e w =
      let h = lib.peek lba w in
      let s = sub_at sub h.subs in
      if not (e.lba == 0) && (s.0 == e.lba)
      then elim (recover_sub e.lba e.prev_lba s.1 h.start h.kind (sub + 1) w) [
        | none ↦ none
        | some w1 ↦ some (record e { lba = 0; lba2 = if e.lba2 == e.lba then 0 else e.lba2 }, w1)
      ]
      else some (e, w)

  pub recover_second : ℕ → ℕ → ErrorPart → W → Option (ErrorPart × W)
  recover_second lba sub e w =
      let h = lib.peek lba w in
      let s = sub_at sub h.subs in
      if not (e.lba2 == 0) && (s.0 == e.lba2)
      then elim (recover_sub e.lba2 e.lba s.1 h.start h.kind (sub + 1) w) [
        | none ↦ none
        | some w1 ↦ some (record e { lba2 = 0 }, w1)
      ]
      else some (e, w)

  -- The loop over the entries, which has a round for each and one to end.
  pub recover_subs : ℕ → ℕ → ℕ → ErrorPart → W → Option (ErrorPart × W)
  recover_subs zero lba sub e w = none
  recover_subs (suc fuel) lba sub e w = elim (ltb sub (lib.peek lba w).nsub) [
    | false ↦ some (e, w)
    | true ↦ elim (recover_first lba sub e w) [
      | none ↦ none
      | some (e1, w1) ↦ elim (recover_second lba sub e1 w1) [
        | none ↦ none
        | some (e2, w2) ↦ recover_subs fuel lba (sub + 1) e2 w2
      ]
    ]
  ]

  abbrev pub recover_main : ℕ → ErrorPart → W → Option (ErrorPart × W)
  recover_main lba e w =
      let h = lib.peek lba w in
      if not (h.kind == 0) && not h.is_sub then recover_subs (h.nsub + 1) lba 0 e w else some (e, w)

  abbrev pub is_recovered : ErrorPart → Bool
  is_recovered e = (e.lba == 0) && (e.lba2 == 0)

  -- One of the two cycles of RecoverPartitionIfSub; true says that the function returns.
  pub recover_walk : Way → ℕ → ℕ → ErrorPart → W → Option (Bool × ErrorPart × W)
  recover_walk way zero sector e w = none
  recover_walk way (suc fuel) sector e w =
      let (r, found, w1) = (lib.apa).get sector w in
      elim found [
        | none ↦ some (false, e, w1)
        | some h ↦ elim (recover_main sector e w1) [
          | none ↦ none
          | some (e2, w2) ↦
              let next = ahead way (lib.peek sector w2) in
              elim (is_recovered e2) [
                | true ↦ some (true, e2, w2)
                | false ↦ elim ((next == 0) || (next == e2.lba)) [
                  | true ↦ some (false, e2, w2)
                  | false ↦ recover_walk way fuel next e2 w2
                ]
              ]
        ]
      ]

  -- RecoverPartitionIfSub
  abbrev pub recover_way : Way → ℕ → ErrorPart → W → Option (Bool × ErrorPart × W)
  recover_way way fuel e w =
      let first = ahead way (lib.peek 0 w) in
      if (first == 0) || (first == end_of way e)
      then some (false, e, w)
      else recover_walk way fuel first e w

  pub recover_if_sub : ℕ → ErrorPart → W → Option (ErrorPart × W)
  recover_if_sub fuel e w = elim (recover_way forward fuel e w) [
    | none ↦ none
    | some (returned, e1, w1) ↦ elim returned [
      | true ↦ some (e1, w1)
      | false ↦ elim (recover_way backward fuel e1 w1) [
        | none ↦ none
        | some (b, e2, w2) ↦ some (e2, w2)
      ]
    ]
  ]
