-- ===== src/Fsck/Zones/Blocks.antt =====
-- The loop over the words of a block marks a run of the block's zones.
use hddchecker.Prelude.{
  ℕ, zero, suc, ◌+◌, ◌-◌, ◌*◌, ◌/◌, ◌%◌, ◌≤◌, ◌≡◌, subst, inl, inr, Bool, true, false, arith, ◌==◌,
  ◌∙◌, Bool-cases,
}
use hddchecker.Fsck.Bitmap.{Words}
use hddchecker.Fsck.Zones.{test_bit, Marking, mark_bits, mark_words, put}
use hddchecker.Fsck.Zones.Bits.{Progress, Progress-none, Progress-append, mark_bits-Progress}

-- The zone at position `q` of a block.
abbrev pub block_bit : Words → ℕ → Bool
block_bit words q = test_bit (words (q / 32)) (q % 32)

-- Progress in one word, seen in its block.
word-Progress :
    (words : Words) (z v bit rem left : ℕ) (o : Bool)
    → bit ≤ 32
    → Progress (test_bit (words z)) (test_bit v) bit (32 - bit) rem left o
    → Progress (block_bit words) (block_bit (put words z v)) (z * 32 + bit) (32 - bit) rem left o
word-Progress words z v bit rem left o h a = record {
  count = a.count;
  marked = record {
    now = λ q. elim (Bool-cases (q / 32 == z)) [
      | inl e ↦ rw e (a.marked.now (q % 32) ∙ ground (arith, a.fits))
      | inr e ↦ rw e (ground (arith, a.fits))
    ];
    clear = λ q lo hi.
        let same : q / 32 ≡ z = omega (arith, a.fits) in
        rw same (a.marked.clear (q % 32) (omega arith) (omega (arith, a.fits)));
  };
  rest = a.rest;
  fits = a.fits;
  ends = a.ends;
  hits = λ e.
      let (fit, more, was) = a.hits e in
      let word : (z * 32 + bit + a.count) / 32 ≡ z = omega arith in
      let place : (z * 32 + bit + a.count) % 32 ≡ bit + a.count = omega arith in
      (fit, more, rw (word, place) was);
}

-- One word that is finished, and then the words after it.
next-Progress :
    (g g' g'' : ℕ → Bool) (n zone bit rem left left' : ℕ) (o : Bool)
    → bit ≤ 32
    → Progress g g' (zone * 32 + bit) (32 - bit) rem left false
    → Progress g' g'' ((zone + 1) * 32 + 0) (n * 32 - 0) left left' o
    → Progress g g'' (zone * 32 + bit) (suc n * 32 - bit) rem left' o
next-Progress g g' g'' n zone bit rem left left' o h a b =
    subst (λ r. Progress g g'' (zone * 32 + bit) r rem left' o) room
      (Progress-append g g' g'' (zone * 32 + bit) (32 - bit) (n * 32 - 0) rem left left' o a
        (subst (λ p. Progress g' g'' p (n * 32 - 0) left left' o) start b))
  where
    room : (32 - bit) + (n * 32 - 0) ≡ suc n * 32 - bit
    room = omega arith

    start : (zone + 1) * 32 + 0 ≡ zone * 32 + bit + (32 - bit)
    start = omega arith

-- A word at which the loop stops.
last-Progress :
    (g g' : ℕ → Bool) (n zone bit rem left : ℕ)
    → bit ≤ 32
    → Progress g g' (zone * 32 + bit) (32 - bit) rem left true
    → Progress g g' (zone * 32 + bit) (suc n * 32 - bit) rem left true
last-Progress g g' n zone bit rem left h a = record {
  count = a.count;
  marked = a.marked;
  rest = a.rest;
  fits = omega (arith, a.fits);
  ends = λ e. cc;
  hits = λ e. let (fit, more, was) = a.hits e in (omega arith, more, was);
}

-- The loop over the words, from the bit `bit` of the word `zone`.
pub mark_words-Progress :
    (n zone bit remaining : ℕ) (words : Words) (touched : Bool)
    → bit ≤ 32
    → let m = mark_words n words zone bit remaining touched in
      Progress
        (block_bit words)
        (block_bit m.content)
        (zone * 32 + bit)
        (n * 32 - bit)
        remaining
        m.left
        m.overlap
unfolding mark_words
mark_words-Progress zero zone bit remaining words touched h =
    Progress-none (block_bit words) (zone * 32 + bit) (0 * 32 - bit) remaining (inr (omega arith))
mark_words-Progress (suc n) zone bit remaining words touched h =
    elim (Bool-cases (remaining == 0)) [
      | inl e ↦ rw e (
          Progress-none (block_bit words) (zone * 32 + bit) (suc n * 32 - bit) remaining
            (inl (ground arith)))
      | inr e ↦ rw e (elim (Bool-cases m.overlap) [
        | inl hit ↦ rw hit (
            last-Progress (block_bit words) (block_bit words') n zone bit remaining m.left h (
              subst
                (Progress (block_bit words) (block_bit words') (zone * 32 + bit) (32 - bit)
                  remaining m.left)
                hit one))
        | inr free ↦ rw free (
            next-Progress (block_bit words) (block_bit words') (block_bit rest.content) n zone bit
              remaining m.left rest.left rest.overlap h
              (subst
                (Progress (block_bit words) (block_bit words') (zone * 32 + bit) (32 - bit)
                  remaining m.left)
                free one)
              (mark_words-Progress n (zone + 1) 0 m.left words' m.touched (omega arith)))
      ])
    ]
  where
    m : Marking ℕ
    m = mark_bits (32 - bit) (words zone) bit remaining touched

    words' : Words
    words' = put words zone m.content

    rest : Marking Words
    rest = mark_words n words' (zone + 1) 0 m.left m.touched

    one :
        Progress
          (block_bit words)
          (block_bit words')
          (zone * 32 + bit)
          (32 - bit)
          remaining
          m.left
          m.overlap
    one =
        word-Progress words zone m.content bit remaining m.left m.overlap h
          (mark_bits-Progress (32 - bit) (words zone) bit remaining touched)
