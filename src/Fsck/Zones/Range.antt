-- ===== src/Fsck/Zones/Range.antt =====
-- fsckCheckZones as a whole: what its results 0 and 1 say of the bitmap.
use hddchecker.Prelude.{
  ℕ, suc, ◌+◌, ◌*◌, ◌/◌, ◌%◌, ◌≤◌, ◌<◌, ◌≡◌, subst, true, false, ◌&&◌, some, arith, ltb, leb,
  if◌then◌else◌, ret, u32_mod,
}
use hddchecker.Fsck.Bitmap.{Words, Transfer, Cache}
use hddchecker.Fsck.Bitmap.Coherence.{TransferLaws, IsCoherent}
use hddchecker.Fsck.Zones.{check_zones}
use hddchecker.Fsck.Zones.Check.{zone_set, Checks, check_blocks-Checks}

module _ {W : Type 0} (content : W → ℕ → ℕ → ℕ) (t : Transfer W) (laws : TransferLaws t content)
    (f : ℕ → Words) (number size : ℕ) (c : Cache) (w : W) (coherent : IsCoherent content f c w)
    (hn : number < u32_mod) (hs : size < u32_mod) where
  zones-Checks : Checks content f number size (check_zones t number size c w)
  unfolding check_zones
  zones-Checks =
      subst (λ p. Checks content f p size (check_zones t number size c w)) whole
        (check_blocks-Checks content t laws (suc size) (number / 1048576) (number / 32 % 32768)
          (number % 32) size c w f coherent (omega arith) (omega arith) (omega arith))
    where
      whole : number / 1048576 * 1048576 + (number / 32 % 32768 * 32 + number % 32) ≡ number
      whole = omega arith

  -- If the buffers and the disk stand for the bitmap `f` and fsckCheckZones returns 0 for a range,
  -- no zone of the range was set in `f`, and the buffers and the disk then stand for a bitmap that
  -- has, over `f`, the zones of the range set and no other.
  pub check_zones_marks :
      (c' : Cache) (w' : W)
      → check_zones t number size c w ≡ some (ret 0, c', w')
      → (f' : ℕ → Words) × IsCoherent content f' c' w'
        × ((z : ℕ)
            → zone_set f' z
              ≡ (if leb number z && ltb z (number + size) then true else zone_set f z))
        × ((z : ℕ) → number ≤ z → z < number + size → zone_set f z ≡ false)
  check_zones_marks c' w' run =
      let r : Checks content f number size (some (ret 0, c', w')) = rw run at zones-Checks in
      let (f', v, m) = r in (f', v, m.now, m.clear)

  -- If the buffers and the disk stand for the bitmap `f` and fsckCheckZones returns 1 for a range,
  -- a zone of the range was set in `f`, and the zones of the range before it were not; the buffers
  -- and the disk then stand for a bitmap that has the zones before it set as well.
  pub check_zones_overlap :
      (c' : Cache) (w' : W)
      → check_zones t number size c w ≡ some (ret 1, c', w')
      → (f' : ℕ → Words) × (k : ℕ) × IsCoherent content f' c' w'
        × ((z : ℕ)
            → zone_set f' z ≡ (if leb number z && ltb z (number + k) then true else zone_set f z))
        × ((z : ℕ) → number ≤ z → z < number + k → zone_set f z ≡ false)
        × (k < size)
        × (zone_set f (number + k) ≡ true)
  check_zones_overlap c' w' run =
      let r : Checks content f number size (some (ret 1, c', w')) = rw run at zones-Checks in
      let (f', k, v, m, lt, was) = r in (f', k, v, m.now, m.clear, lt, was)
