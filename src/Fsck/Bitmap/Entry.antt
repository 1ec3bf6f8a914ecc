-- ===== src/Fsck/Bitmap/Entry.antt =====
-- pfsGetBitmapEntry: what the pointer that it returns points to.
use hddchecker.Prelude.{ℕ, ◌/◌, ◌%◌, ◌<◌, ◌≡◌, ◌∙◌, ap, arith, Option, none, some}
use hddchecker.Fsck.Bitmap.{Words, Transfer, Cache, read, release, get_entry}
use hddchecker.Fsck.Bitmap.Coherence.{
  TransferLaws, IsCoherent, block_limit, Runs, read-Runs, release-IsCoherent,
}

module _ {W : Type 0} (content : W → ℕ → ℕ → ℕ) (f : ℕ → Words) where
  abbrev Points : ℕ → Option (Option (ℕ × ℕ) × Cache × W) → Type 0
  Points index none = Unit {0}
  Points index (some (none, c, w)) = Unit {0}
  Points index (some (some (i, x), c, w)) =
      IsCoherent content f c w
      × (x < 32768)
      × ((c.slots i).bitmap x ≡ f (index / 1048576) (index / 32 % 32768))

  kept_words : (i x : ℕ) (c : Cache) → ((release i c).slots i).bitmap x ≡ (c.slots i).bitmap x
  unfolding release
  kept_words i x c = ground arith

  get_entry-Points :
      (t : Transfer W) (index : ℕ) (c : Cache) (w : W)
      → TransferLaws t content
      → index / 1048576 < block_limit
      → IsCoherent content f c w
      → Points index (get_entry t index c w)
  unfolding get_entry
  get_entry-Points t index c w laws h v =
      given (read t (index / 1048576) c w) (read-Runs content f t (index / 1048576) c w laws h v)
    where
      given :
          (r : Option (Option ℕ × Cache × W))
          → Runs content f (index / 1048576) r
          → Points index (elim r [
            | none ↦ none
            | some (none, c', w') ↦ some (none, c', w')
            | some (some i, c', w') ↦ some (some (i, index / 32 % 32768), release i c', w')
          ])
      given none g = tt
      given (some (none, c', w')) g = tt
      given (some (some i, c', w')) (lo, hi, at, v') = (
        release-IsCoherent content f i c' w' lo hi v',
        omega arith,
        kept_words i (index / 32 % 32768) c'
            ∙ v'.cached i (index / 32 % 32768) lo hi
            ∙ ap (λ b. f b (index / 32 % 32768)) at,
      )

  -- If the buffers and the disk stand for the bitmap `f` and pfsGetBitmapEntry returns a pointer
  -- for a zone, it points into a buffer, to the word of `f` that has the zone's bit, and the buffers
  -- and the disk still stand for `f`.
  pub get_entry_points :
      (t : Transfer W) (index i x : ℕ) (c c' : Cache) (w w' : W)
      → TransferLaws t content
      → index / 1048576 < block_limit
      → IsCoherent content f c w
      → get_entry t index c w ≡ some (some (i, x), c', w')
      → IsCoherent content f c' w'
        × (x < 32768)
        × ((c'.slots i).bitmap x ≡ f (index / 1048576) (index / 32 % 32768))
  get_entry_points t index i x c c' w w' laws h v run =
      let p : Points index (some (some (i, x), c', w')) =
        rw run at (get_entry-Points t index c w laws h v) in
      p
