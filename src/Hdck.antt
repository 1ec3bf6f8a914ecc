-- ===== src/Hdck.antt =====
-- hdck/hdck.c: the checks of the partition table. The partition headers are linked in both
-- directions, and header 0, the master boot record, closes both ends. The cache of libapa is the
-- parameter `Apa`; the build defines HDCK_CHECK_CROSSLINK.
pub mod Empty
pub mod Ends
pub mod Links
pub mod Maps
pub mod Repair
pub mod Partitions
pub mod Repairs
pub mod Rounds
pub mod Samples
mod Tests
use hddchecker.Prelude.{
  ℕ, zero, suc, ◌+◌, ◌-◌, Bool, true, false, not, ◌&&◌, Option, none, some, List, [], ◌∷◌, ◌++◌,
  ltb, ◌==◌, if◌then◌else◌, RetCode, ret, err, eexist, is_zero,
}

-- What hdck reads and writes of `apa_header_t`. An entry of `subs` is the address and the length of
-- a sub-partition; `nsub` of them count.
pub record Header : Type 0 where
  pub start : ℕ
  pub length : ℕ
  pub next : ℕ
  pub prev : ℕ
  pub kind : ℕ
  pub is_sub : Bool
  pub main : ℕ
  pub number : ℕ
  pub nsub : ℕ
  pub subs : List (ℕ × ℕ)

-- apaCacheGetHeader for a read, a change of a header that is in the cache, and
-- apaCacheFlushAllDirty after the header at an address was marked dirty.
pub record Apa (W : Type 0) : Type 0 where
  pub get : ℕ → W → RetCode × Option Header × W
  pub put : ℕ → Header → W → W
  pub flush_dirty : ℕ → W → W

-- PrivateData, less the state of the drives.
pub record ErrorPart : Type 0 where
  pub lba : ℕ
  pub lba2 : ℕ
  pub prev_lba : ℕ
  pub prev_lba2 : ℕ

-- The two passes over the list of headers, which differ in the direction of the links.
pub data Way : Type 0 where
  forward backward : Way

abbrev pub ahead : Way → Header → ℕ
ahead forward h = h.next
ahead backward h = h.prev

abbrev pub behind : Way → Header → ℕ
behind forward h = h.prev
behind backward h = h.next

abbrev pub set_behind : Way → ℕ → Header → Header
set_behind forward n h = record h { prev = n }
set_behind backward n h = record h { next = n }

-- The search of AddPartitionToList; the address is added where it finds none.
abbrev pub listed : ℕ → List ℕ → Bool
listed n [] = false
listed n (x ∷ xs) = if x == n then true else listed n xs

-- Where a pass ends: the result, and the addresses it stands at and comes from.
pub record Pass : Type 0 where
  pub result : RetCode
  pub current : ℕ
  pub parent : ℕ

module _ {W : Type 0} (apa : Apa W) where
  -- A header that is changed, marked dirty and written.
  abbrev pub save : ℕ → Header → W → W
  save lba h w = apa.flush_dirty lba (apa.put lba h w)

  -- The repair of one header's link back.
  pub relink : Way → ℕ → ℕ → Header → W → Header × W
  relink way lba parent h w =
      let h' = set_behind way parent h in
      if behind way h == parent then (h, w) else (h', save lba h' w)

  -- The loop of CheckAPAPartitionLinks, forward or backward.
  pub scan_links : Way → ℕ → List ℕ → ℕ → ℕ → RetCode → W → Option (Pass × W)
  scan_links way zero list current parent result w = none
  scan_links way (suc fuel) list current parent result w = elim (current == 0) [
    | true ↦ some (record { result = result; current = current; parent = parent }, w)
    | false ↦ elim (listed current list) [
      | true ↦ some (record { result = err eexist; current = current; parent = parent }, w)
      | false ↦
          let (r, found, w1) = apa.get current w in
          elim found [
            | none ↦ some (record { result = r; current = current; parent = parent }, w1)
            | some h ↦
                let (h', w2) = relink way current parent h w1 in
                scan_links way fuel (list ++ current ∷ []) (ahead way h') h'.start r w2
          ]
    ]
  ]

  -- After a pass without an error the link of the master boot record is repaired.
  pub close_links : Way → Header → ℕ → W → Header × W
  close_links way mbr parent w = relink way 0 parent mbr w

  -- CheckAPAPartitionLinks with the header of the master boot record: its result is `lba`.
  pub backward_pass : ℕ → Pass → Header → W → Option (ErrorPart × Header × W)
  backward_pass fuel p mbr w = elim (scan_links backward fuel [] mbr.prev 0 p.result w) [
    | none ↦ none
    | some (q, w1) ↦
        let (mbr', w2) = close_links backward mbr q.parent w1 in
        if is_zero q.result
        then some (record { lba = 0; lba2 = 0; prev_lba = p.parent; prev_lba2 = 0 }, mbr', w2)
        else some (
          record { lba = p.current; lba2 = q.current; prev_lba = p.parent; prev_lba2 = q.parent },
          mbr,
          w1,
        )
  ]

  pub check_links : ℕ → Header → W → Option (ErrorPart × Header × W)
  check_links fuel mbr w = elim (scan_links forward fuel [] mbr.next 0 (ret 0) w) [
    | none ↦ none
    | some (p, w1) ↦
        let (mbr', w2) = close_links forward mbr p.parent w1 in
        elim (is_zero p.result) [
          | true ↦ some (record { lba = 0; lba2 = 0; prev_lba = 0; prev_lba2 = 0 }, mbr', w2)
          | false ↦ backward_pass fuel p mbr w1
        ]
  ]
