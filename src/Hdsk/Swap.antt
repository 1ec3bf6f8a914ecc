-- ===== src/Hdsk/Swap.antt =====
-- SwapPartition of hdsk/hdsk.c: the header of a partition that was copied moves to the place of the
-- empty one, and the empty one gets a header of its own. The build leaves HDSK_SUPPORT_HDLFS out.
pub mod Moved
mod Tests
use hddchecker.Prelude.{
  ℕ, zero, suc, ◌+◌, ◌*◌, Bool, true, false, Option, none, some, List, [], ◌∷◌, set, ltb, ◌==◌,
  if◌then◌else◌, RetCode, err, other,
}
use hddchecker.Hdck.{Header, Apa}
use hddchecker.Hdck.Repairs.{Library, sub_at}

-- The copied header keeps the place of the destination.
abbrev pub moved_to : Header → Header → Header
moved_to d s = record s { start = d.start; next = d.next; prev = d.prev }

-- The header that is left, `_tmp`.
abbrev pub left_behind : Header → Header
left_behind s = record {
  start = s.start;
  length = s.length;
  next = s.next;
  prev = s.prev;
  kind = s.kind;
  is_sub = false;
  main = 0;
  number = 0;
  nsub = 0;
  subs = [];
}

-- The first of `left` entries from the one numbered `i` that has an address, or the number at which
-- the search ends.
pub find_sub : ℕ → ℕ → ℕ → List (ℕ × ℕ) → ℕ
find_sub zero i lba subs = i
find_sub (suc left) i lba subs =
    if (sub_at i subs).0 == lba then i else find_sub left (i + 1) lba subs

-- An entry gets another address.
abbrev pub rename_sub : ℕ → ℕ → Header → Header
rename_sub i lba h = record h { subs = set h.subs i (lba, (sub_at i h.subs).1) }

module _ {W : Type 0} (lib : Library W) where
  abbrev pub put_header : ℕ → Header → W → W
  put_header lba h w = (lib.apa).put lba h w

  -- The marks of the two entries, and the flush.
  abbrev pub flush_both : ℕ → ℕ → W → W
  flush_both dest start w = (lib.apa).flush_dirty start ((lib.apa).flush_dirty dest w)

  -- A sub-partition: its main partition's entry follows it.
  pub swap_sub : ℕ → ℕ → Header → ℕ → W → RetCode × W
  swap_sub dest start d from w =
      let (r, found, w1) = (lib.apa).get d.main w in
      elim found [
        | none ↦ (r, w1)
        | some m ↦
            let i = find_sub m.nsub 0 from m.subs in
            if ltb i m.nsub
            then (
              r,
              flush_both dest start
                  ((lib.apa).flush_dirty d.main (put_header d.main (rename_sub i d.start m) w1)),
            )
            else (err (other 1), w1)
      ]

  -- A main partition: all of its sub-partitions are read before any is changed. The result is that of
  -- the last read, and what `result` held before where there is none.
  pub read_subs : ℕ → ℕ → List (ℕ × ℕ) → RetCode → W → Bool × RetCode × W
  read_subs zero i subs result w = (true, result, w)
  read_subs (suc left) i subs result w =
      let (r, found, w1) = (lib.apa).get (sub_at i subs).0 w in
      elim found [ none ↦ (false, r, w1) | some h ↦ read_subs left (i + 1) subs r w1 ]

  pub point_subs : ℕ → ℕ → List (ℕ × ℕ) → ℕ → W → W
  point_subs zero i subs main w = w
  point_subs (suc left) i subs main w =
      let lba = (sub_at i subs).0 in
      let w1 = put_header lba (record (lib.peek lba w) { main = main }) w in
      point_subs left (i + 1) subs main ((lib.apa).flush_dirty lba w1)

  pub swap_main : ℕ → ℕ → Header → RetCode → W → RetCode × W
  swap_main dest start d result w =
      let (all, r, w1) = read_subs d.nsub 0 d.subs result w in
      if all then (r, flush_both dest start (point_subs d.nsub 0 d.subs d.start w1)) else (r, w1)

  -- SwapPartition; `result` is what its variable holds at the start.
  pub swap_headers : ℕ → ℕ → RetCode → W → RetCode × W
  swap_headers dest start result w =
      let s = lib.peek start w in
      let d = moved_to (lib.peek dest w) s in
      let w1 = put_header start (left_behind s) (put_header dest d w) in
      if d.is_sub then swap_sub dest start d s.start w1 else swap_main dest start d result w1
