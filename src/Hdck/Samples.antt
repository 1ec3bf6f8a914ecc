-- ===== src/Hdck/Samples.antt =====
-- Tables of partition headers in memory, and a library over them, for the tests.
use hddchecker.Prelude.{
  ℕ, refl, ap, true, false, Option, none, some, [], arith, ◌==◌, if◌then◌else◌, RetCode, ret, err,
  eio,
}
use hddchecker.Hdck.{Header, Apa}
use hddchecker.Hdck.Links.{ApaLaws}
use hddchecker.Hdck.Repairs.{Library}
use hddchecker.Hdck.Repairs.Laws.{LibraryLaws}

-- The header of the master boot record, and the other headers.
abbrev pub Table : Type 0
Table = Header × (ℕ → Option Header)

abbrev pub header : ℕ → ℕ → ℕ → Header
header start next prev = record {
  start = start;
  length = 4;
  next = next;
  prev = prev;
  kind = 256;
  is_sub = false;
  main = 0;
  number = 0;
  nsub = 0;
  subs = [];
}

abbrev pub at : Table → ℕ → Option Header
at w lba = if lba == 0 then some w.0 else w.1 lba

abbrev pub put_header : ℕ → Header → Table → Table
put_header lba h w = (if lba == 0 then h else w.0, λ l. if l == lba then some h else w.1 l)

abbrev pub got : Option Header → RetCode
got none = err eio
got (some h) = ret 0

abbrev pub cached : Option Header → Header
cached none = header 0 0 0
cached (some h) = h

abbrev pub cache : Apa Table
cache = record {
  get = λ lba w. (got (at w lba), at w lba, w);
  put = put_header;
  flush_dirty = λ lba w. w;
}

abbrev pub library : Library Table
library = record {
  apa = cache;
  peek = λ lba w. cached (at w lba);
  claim = λ lba w. (true, w);
  remove_partition = λ start next prev length w.
      (true, put_header start (record (header start next prev) { length = length; kind = 0 }) w);
  delete = λ lba w. (ret 0, w);
  delete_fix_prev = λ lba h w. (some h, w);
  flush_all = λ w. w;
  write_zeros = λ lba w. w;
  flush_ata = λ w. w;
}

pub cache-ApaLaws : ApaLaws cache at
cache-ApaLaws = record {
  gets = λ lba w. refl;
  found = λ lba h w e. ap got e;
  missing = λ lba w e. rw e refl;
  get_keeps = λ lba l w. refl;
  puts = λ lba l h w. ground arith;
  flush_keeps = λ lba l w. refl;
}

pub library-LibraryLaws : LibraryLaws library at
library-LibraryLaws = record {
  cache = cache-ApaLaws;
  held = λ lba h w e. ap cached e;
  claims = λ lba w. refl;
  claim_keeps = λ lba l w apart. refl;
  remove_keeps = λ start next prev length l w apart. ground arith;
  flush_all_keeps = λ l w. refl;
}
