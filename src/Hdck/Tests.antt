-- ===== src/Hdck/Tests.antt =====
-- Two partitions whose links back are wrong.
use hddchecker.Prelude.{
  ℕ, ltb, ◌<◌, ◌≡◌, refl, ap, false, Option, none, some, [], arith, ◌==◌, if◌then◌else◌, RetCode,
  ret, err, eio, true, ◌∷◌,
}
use hddchecker.Hdck.{
  Header, Apa, ErrorPart, Way, forward, check_links, scan_links, backward_pass, close_links, relink,
}
use hddchecker.Hdck.Links.{ApaLaws, Linked}
use hddchecker.Hdck.Maps.{read_map, read_map_lists}
use hddchecker.Hdck.Repair.{Closed, check_links_closes}
use hddchecker.Hdck.Ends.{check_links_total}

abbrev Table : Type 0
Table = ℕ → Option Header

abbrev header : ℕ → ℕ → ℕ → Header
header start next prev = record {
  start = start;
  length = 4;
  next = next;
  prev = prev;
  kind = 256;
  is_sub = false;
  main = 0;
  number = 0;
  nsub = 0;
  subs = [];
}

-- The disk has 100 sectors.
abbrev bounded : ℕ → Table → Option Header
bounded lba w = if ltb lba 100 then w lba else none

abbrev got : Option Header → RetCode
got none = err eio
got (some h) = ret 0

abbrev apa : Apa Table
apa = record {
  get = λ lba w. (got (bounded lba w), bounded lba w, w);
  put = λ lba h w l. if l == lba then some h else w l;
  flush_dirty = λ lba w. w;
}

abbrev disk : Table
disk lba =
    if lba == 0
    then some (header 0 4 4)
    else if lba == 4
    then some (header 4 8 9)
    else if lba == 8
    then some (header 8 0 9)
    else none

-- A cache that has no bound.
abbrev plain : Apa Table
plain = record apa { get = λ lba w. (got (w lba), w lba, w) }

abbrev look : Table → ℕ → Option Header
look w lba = w lba

plain-ApaLaws : ApaLaws plain look
plain-ApaLaws = record {
  gets = λ lba w. refl;
  found = λ lba h w e. ap got e;
  missing = λ lba w e. rw e refl;
  get_keeps = λ lba l w. refl;
  puts = λ lba l h w. refl;
  flush_keeps = λ lba l w. refl;
}

abbrev outcome : Option (ErrorPart × Header × Table) → ErrorPart × Header × Table
outcome none = (record { lba = 9; lba2 = 0; prev_lba = 0; prev_lba2 = 0 }, header 0 0 0, disk)
outcome (some r) = r

abbrev run : ErrorPart × Header × Table
run = outcome (check_links plain 5 (header 0 4 4) disk)

run_lem : check_links plain 5 (header 0 4 4) disk ≡ some (run.0, run.1, run.2)
unfolding check_links scan_links backward_pass close_links relink
run_lem = refl

run_clean : (run.0).lba ≡ 0
unfolding check_links scan_links backward_pass close_links relink
run_clean = refl

check_links_closes_example : (way : Way) × Closed plain look plain-ApaLaws way run.1 run.2
check_links_closes_example =
    check_links_closes plain look plain-ApaLaws 5 (header 0 4 4) run.1 disk run.2 run.0 refl run_lem
      run_clean

inside : (l : ℕ) (h : Header) (w : Table) → (apa.get l w).1 ≡ some h → l < 100
inside l h w e = ground arith

check_links_total_example :
    (e : ErrorPart) × (mbr' : Header) × (w' : Table) × (check_links apa 101 (header 0 4 4) disk
      ≡ some (e, mbr', w'))
check_links_total_example = check_links_total apa 100 inside (header 0 4 4) disk

-- Header 8 is a sub-partition of header 4, and header 12 is not in use.
abbrev linked : Table
linked lba =
    if lba == 4
    then some (header 4 8 0)
    else if lba == 8
    then some (record (header 8 12 4) { is_sub = true; main = 4; number = 1 })
    else if lba == 12
    then some (record (header 12 0 8) { kind = 0 })
    else none

linked-Linked : Linked forward linked 0 4 (4 ∷ 8 ∷ 12 ∷ []) 12
linked-Linked = (
  refl,
  ground arith,
  header 4 8 0,
  refl,
  refl,
  (
    refl,
    ground arith,
    record (header 8 12 4) { is_sub = true; main = 4; number = 1 },
    refl,
    refl,
    (refl, ground arith, record (header 12 0 8) { kind = 0 }, refl, refl, (refl, refl)),
  ),
)

read_map_lists_example :
    (w' : Table) × (read_map plain 4 (header 0 4 12) linked
      ≡ some (ret 0, record { mains = 4 ∷ []; subs = 8 ∷ [] }, w'))
read_map_lists_example =
    read_map_lists plain look plain-ApaLaws 4 12 (4 ∷ 8 ∷ 12 ∷ []) (header 0 4 12) linked
      linked-Linked (omega arith)
