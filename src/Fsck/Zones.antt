-- ===== src/Fsck/Zones.antt =====
-- fsckCheckZones of fsck/fsck.c: marks the zones of a range in the bitmap that fsck builds, and
-- stops at a zone that is marked already. The bitmap is that of fsck/bitmap.c.
pub mod Bits
pub mod Blocks
pub mod Check
pub mod Release
mod Tests
pub mod Range
use hddchecker.Prelude.{
  ℕ, zero, suc, ◌+◌, ◌-◌, ◌*◌, ◌/◌, ◌%◌, Bool, true, false, ◌||◌, Option, none, some, ◌==◌,
  if◌then◌else◌, RetCode, ret, err, eio,
}
use hddchecker.Fsck.Bitmap.{Words, Slot, Transfer, Cache, update, read, release}

-- `w & (1 << b)` and `w | (1 << b)`, from the lowest bit up.
pub test_bit : ℕ → ℕ → Bool
test_bit w zero = w % 2 == 1
test_bit w (suc b) = test_bit (w / 2) b

pub set_bit : ℕ → ℕ → ℕ
set_bit w zero = if w % 2 == 1 then w else w + 1
set_bit w (suc b) = 2 * set_bit (w / 2) b + w % 2

-- Where a loop over bits or words stands: what it has made of the word or block, how many zones are
-- left, whether it wrote, and whether it met a marked zone.
pub record Marking (A : Type 0) : Type 0 where
  pub content : A
  pub left : ℕ
  pub touched : Bool
  pub overlap : Bool

-- The innermost loop, with the number of bits to the end of the word.
pub mark_bits : ℕ → ℕ → ℕ → ℕ → Bool → Marking ℕ
mark_bits zero word bit remaining touched = record {
  content = word;
  left = remaining;
  touched = touched;
  overlap = false;
}
mark_bits (suc n) word bit remaining touched =
    let rest = mark_bits n (set_bit word bit) (bit + 1) (remaining - 1) true in
    if remaining == 0
    then record { content = word; left = remaining; touched = touched; overlap = false }
    else if test_bit word bit
    then record { content = word; left = remaining; touched = touched; overlap = true }
    else rest

abbrev pub put : Words → ℕ → ℕ → Words
put words z v x = if x == z then v else words x

-- The loop over the words of a block, with the number of words to its end.
pub mark_words : ℕ → Words → ℕ → ℕ → ℕ → Bool → Marking Words
mark_words zero words zone bit remaining touched = record {
  content = words;
  left = remaining;
  touched = touched;
  overlap = false;
}
mark_words (suc n) words zone bit remaining touched =
    let m = mark_bits (32 - bit) (words zone) bit remaining touched in
    let rest = mark_words n (put words zone m.content) (zone + 1) 0 m.left m.touched in
    if remaining == 0
    then record { content = words; left = remaining; touched = touched; overlap = false }
    else if m.overlap
    then record {
      content = put words zone m.content;
      left = m.left;
      touched = m.touched;
      overlap = true;
    }
    else rest

-- What the loops have written to the buffer `i`.
pub store : ℕ → Marking Words → Cache → Cache
store i m c =
    let s : Slot = record (c.slots i) {
      bitmap = m.content;
      is_dirty = m.touched || (c.slots i).is_dirty;
    } in
    record c { slots = update c.slots i s }

-- The loop over the blocks. The return in the middle of it keeps the buffer: it is not released.
module _ {W : Type 0} (t : Transfer W) where
  pub check_blocks : ℕ → ℕ → ℕ → ℕ → ℕ → Cache → W → Option (RetCode × Cache × W)
  check_blocks zero index zone bit remaining c w = none
  check_blocks (suc fuel) index zone bit remaining c w = elim (remaining == 0) [
    | true ↦ some (ret 0, c, w)
    | false ↦ elim (read t index c w) [
      | none ↦ none
      | some (none, c', w') ↦ some (err eio, c', w')
      | some (some i, c', w') ↦
          let m = mark_words (32768 - zone) (c'.slots i).bitmap zone bit remaining false in
          elim m.overlap [
            | true ↦ some (ret 1, store i m c', w')
            | false ↦ check_blocks fuel (index + 1) 0 0 m.left (release i (store i m c')) w'
          ]
    ]
  ]

  -- fsckCheckZones: each block takes at least one zone off the count.
  pub check_zones : ℕ → ℕ → Cache → W → Option (RetCode × Cache × W)
  check_zones number size c w =
      check_blocks (suc size) (number / 1048576) (number / 32 % 32768) (number % 32) size c w
