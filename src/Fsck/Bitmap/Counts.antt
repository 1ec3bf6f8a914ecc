-- ===== src/Fsck/Bitmap/Counts.antt =====
-- The use counts of the buffers across pfsBitmapRead and pfsBitmapFree.
use hddchecker.Prelude.{
  ℕ, ◌≡◌, ◌≢◌, refl, inl, inr, Option, none, some, List, [], ◌∷◌, ◌++◌, arith, ◌==◌, if◌then◌else◌,
  Option-cases,
}
use hddchecker.Fsck.Bitmap.{
  Transfer, Cache, read, release, take_slot, find_slot, evict_slot, fill_slot, transfer_read,
  transfer_write, renumber,
}

-- No buffer is in use and the list of free buffers has one.
pub record IsIdle (c : Cache) : Type 0 where
  pub unused : (j : ℕ) → (c.slots j).nused ≡ 0
  pub spare : c.free ≢ []

-- One buffer is in use.
abbrev pub Holds : ℕ → Cache → Type 0
Holds i c = (j : ℕ) → (c.slots j).nused ≡ (if j == i then 1 else 0)

module _ {W : Type 0} (t : Transfer W) where
  abbrev pub HoldsRun : Option (Option ℕ × Cache × W) → Type 0
  HoldsRun none = ⊥
  HoldsRun (some (none, c, w)) = Unit {0}
  HoldsRun (some (some i, c, w)) = Holds i c

  evict_slot-Holds :
      (b k : ℕ) (c : Cache) (w : W) → IsIdle c → HoldsRun (some (evict_slot t b k c w))
  unfolding evict_slot fill_slot transfer_read transfer_write renumber
  evict_slot-Holds b k c w v = ground (arith, v.unused)

  pub read-Holds : (b : ℕ) (c : Cache) (w : W) → IsIdle c → HoldsRun (read t b c w)
  unfolding read
  read-Holds b c w v = elim (Option-cases (find_slot b c.slots)) [
    | inr (i, e) ↦ rw (e, read) (taken i)
    | inl e ↦ rw (e, read) (miss c.free v.spare)
  ]
    where
      taken : (i : ℕ) → Holds i (take_slot i c)
      taken i j = unfold take_slot in ground (arith, v.unused j, v.unused i)

      miss :
          (free : List ℕ)
          → free ≢ []
          → HoldsRun (elim free [ [] ↦ none | i ∷ rest ↦ some (evict_slot t b i c w) ])
      miss [] ne = absurd (ne refl)
      miss (k ∷ rest) ne = evict_slot-Holds b k c w v

append-nonempty : (i : ℕ) (js : List ℕ) → js ++ i ∷ [] ≢ []
append-nonempty i [] = ground arith
append-nonempty i (j ∷ js) = ground arith

pub release-IsIdle : (i : ℕ) (c : Cache) → Holds i c → IsIdle (release i c)
unfolding release
release-IsIdle i c h = record {
  unused = λ j. ground (arith, h i, h j);
  spare = ground (arith, h i, append-nonempty i c.free);
}
