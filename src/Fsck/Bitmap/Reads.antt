-- ===== src/Fsck/Bitmap/Reads.antt =====
-- pfsBitmapRead beyond the contents of the blocks: buffers in use, failed reads, and the number of
-- blocks that pfsBitmapPartInit prepares.
use hddchecker.Prelude.{
  ℕ, ◌+◌, ◌*◌, ◌%◌, ◌≤◌, ◌<◌, ◌≡◌, ◌⊎◌, inl, inr, true, false, Option, none, some, List, [], ◌∷◌,
  arith, ◌==◌, Option-cases, is_neg, ap, ◌∙◌,
}
use hddchecker.Fsck.Bitmap.{
  Slot, Transfer, Cache, renumber, find_slot, transfer_read, transfer_write, take_slot, fill_slot,
  evict_slot, read, bitmap_count,
}
use hddchecker.Fsck.Bitmap.Coherence.{has, find_slot-none}

module _ {W : Type 0} (t : Transfer W) where
  -- What a read leaves of a buffer that is not free.
  abbrev Spares : ℕ → Cache → Cache → Type 0
  Spares j c c' =
      ((c'.slots j).index ≡ (c.slots j).index) × ((c'.slots j).bitmap ≡ (c.slots j).bitmap)

  abbrev SparesRun : ℕ → Cache → Option (Option ℕ × Cache × W) → Type 0
  SparesRun j c none = Unit {0}
  SparesRun j c (some (o, c', w)) = Spares j c c'

  evict_slot-Spares :
      (j b k : ℕ) (c : Cache) (w : W) → (k == j) ≡ false → Spares j c (evict_slot t b k c w).1
  unfolding evict_slot fill_slot transfer_read transfer_write renumber
  evict_slot-Spares j b k c w ne = (ground arith, ground arith)

  read-SparesRun :
      (j b : ℕ) (c : Cache) (w : W) → has j c.free ≡ false → SparesRun j c (read t b c w)
  unfolding read
  read-SparesRun j b c w used = elim (Option-cases (find_slot b c.slots)) [
    | inr (i, e) ↦ rw (e, read) (taken i)
    | inl e ↦ rw (e, read) (miss c.free used)
  ]
    where
      taken : (i : ℕ) → Spares j c (take_slot i c)
      taken i = unfold take_slot in (ground arith, ground arith)

      miss :
          (free : List ℕ)
          → has j free ≡ false
          → SparesRun j c (elim free [ [] ↦ none | i ∷ rest ↦ some (evict_slot t b i c w) ])
      miss [] e = tt
      miss (k ∷ rest) e = evict_slot-Spares j b k c w (ground arith)

  module _ (j b : ℕ) (c c' : Cache) (w w' : W) (o : Option ℕ) where
    -- A buffer that is not on the list of free buffers keeps its block and its contents, whatever
    -- block is read and whether or not the device fails.
    pub read_spares_used :
        has j c.free ≡ false
        → read t b c w ≡ some (o, c', w')
        → ((c'.slots j).index ≡ (c.slots j).index) × ((c'.slots j).bitmap ≡ (c.slots j).bitmap)
    read_spares_used used run =
        let e : SparesRun j c (some (o, c', w')) = rw run at (read-SparesRun j b c w used) in e

  found_slot :
      (b k : ℕ) (slots : ℕ → Slot)
      → 1 ≤ k
      → k ≤ 4
      → (slots k).index ≡ b
      → (i : ℕ) × (find_slot b slots ≡ some i)
  found_slot b k slots lo hi at = elim (Option-cases (find_slot b slots)) [
    | inr (i, e) ↦ (i, e)
    | inl e ↦ absurd (find_slot-none b k slots e lo hi at)
  ]

  evict_slot_fails :
      (b k : ℕ) (c : Cache) (w : W)
      → (c.slots k).is_dirty ≡ false
      → is_neg (transfer_read t k (renumber b k c) w).0 ≡ true
      → evict_slot t b k c w
        ≡ (none, (transfer_read t k (renumber b k c) w).1, (transfer_read t k (renumber b k c) w).2)
  unfolding evict_slot fill_slot
  evict_slot_fails b k c w clean bad = rw (clean, bad)

  -- Where the device cannot read a block into the clean buffer that is next in the list, the read
  -- fails, but the buffer keeps the block's number: the next read of the block gives a buffer at
  -- once, without a transfer.
  pub read_retry_stale :
      (b k : ℕ) (rest : List ℕ) (c : Cache) (w : W)
      → 1 ≤ k
      → k ≤ 4
      → find_slot b c.slots ≡ none
      → c.free ≡ k ∷ rest
      → (c.slots k).is_dirty ≡ false
      → is_neg (transfer_read t k (renumber b k c) w).0 ≡ true
      → let c' = (transfer_read t k (renumber b k c) w).1 in
        let w' = (transfer_read t k (renumber b k c) w).2 in
        (read t b c w ≡ some (none, c', w'))
        × (i : ℕ) × (read t b c' w' ≡ some (some i, take_slot i c', w'))
  unfolding read
  read_retry_stale b k rest c w lo hi missing next clean bad =
      let (i, e) = found_slot b k ((transfer_read t k (renumber b k c) w).1).slots lo hi at in
      (
        rw (missing, read) (miss c.free next) ∙ ap some (evict_slot_fails b k c w clean bad),
        i,
        rw (e, read),
      )
    where
      at : (((transfer_read t k (renumber b k c) w).1).slots k).index ≡ b
      at = unfold transfer_read renumber in ground arith

      miss :
          (free : List ℕ)
          → free ≡ k ∷ rest
          → (elim free [ [] ↦ none | i ∷ js ↦ some (evict_slot t b i c w) ])
            ≡ some (evict_slot t b k c w)
      miss [] e = cc
      miss (j ∷ js) e = let same : j ≡ k = cc in ap (λ n. some (evict_slot t b n c w)) same

-- The blocks that are prepared are as many as `size` zones need, if the last one is full or has at
-- least 8 zones.
pub bitmap_count_covers :
    (size : ℕ)
    → (size % 1048576 ≡ 0) ⊎ (8 ≤ size % 1048576)
    → (size ≤ bitmap_count size * 1048576) × (bitmap_count size * 1048576 < size + 1048576)
unfolding bitmap_count
bitmap_count_covers size h = (ground arith, ground arith)

-- With 1 to 7 zones in the last block, that block is not prepared.
pub bitmap_count_short :
    (size : ℕ) → 0 < size % 1048576 → size % 1048576 < 8 → bitmap_count size * 1048576 < size
unfolding bitmap_count
bitmap_count_short size pos small = ground arith
