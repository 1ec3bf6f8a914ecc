-- ===== src/Fsck/Zones/Release.antt =====
-- fsckCheckZones and the buffers: it ends, and whether it releases what it takes depends on its
-- result.
use hddchecker.Prelude.{
  ℕ, zero, suc, ◌+◌, ◌-◌, ◌/◌, ◌%◌, ◌<◌, ◌≡◌, refl, inl, inr, Bool, true, false, Option, none, some,
  arith, ◌==◌, Bool-cases, RetCode, ret, err, eio,
}
use hddchecker.Fsck.Bitmap.{Transfer, Cache, read, release}
use hddchecker.Fsck.Bitmap.Counts.{IsIdle, Holds, HoldsRun, read-Holds, release-IsIdle}
use hddchecker.Fsck.Zones.{Marking, Words, mark_words, store, check_blocks, check_zones}
use hddchecker.Fsck.Zones.Blocks.{mark_words-Progress}
use hddchecker.Fsck.Zones.Check.{with_buffer}

-- What a run that ends leaves of the use counts.
abbrev pub Leaves : RetCode → Cache → Type 0
Leaves (err e) c = Unit {0}
Leaves (ret zero) c = IsIdle c
Leaves (ret (suc n)) c = (i : ℕ) × ((c.slots i).nused ≡ 1)

store-Holds : (i : ℕ) (m : Marking Words) (c : Cache) → Holds i c → Holds i (store i m c)
unfolding store
store-Holds i m c h j = ground (arith, h i, h j)

module _ {W : Type 0} where
  abbrev LeavesRun : Option (RetCode × Cache × W) → Type 0
  LeavesRun none = ⊥
  LeavesRun (some (r, c, w)) = Leaves r c

  check_blocks-Leaves :
      (t : Transfer W) (fuel index zone bit remaining : ℕ) (c : Cache) (w : W)
      → IsIdle c
      → remaining < fuel
      → bit < 32
      → zone < 32768
      → LeavesRun (check_blocks t fuel index zone bit remaining c w)
  unfolding check_blocks
  check_blocks-Leaves t zero index zone bit remaining c w v enough hb hz = absurd (omega arith)
  check_blocks-Leaves t (suc fuel) index zone bit remaining c w v enough hb hz =
      elim (Bool-cases (remaining == 0)) [
        | inl e ↦ rw (e, check_blocks) v
        | inr e ↦
            rw (e, check_blocks)
              (after (ground arith)
                (λ left c2 w2 v2 h.
                  check_blocks-Leaves t fuel (index + 1) 0 0 left c2 w2 v2 h (omega arith)
                    (omega arith))
                (read t index c w) (read-Holds t index c w v))
      ]
    where
      after :
          0 < remaining
          → ((left : ℕ) (c2 : Cache) (w2 : W)
              → IsIdle c2
              → left < fuel
              → LeavesRun (check_blocks t fuel (index + 1) 0 0 left c2 w2))
          → (r : Option (Option ℕ × Cache × W)) → HoldsRun t r
          → LeavesRun (elim r [
            | none ↦ none
            | some (none, c', w') ↦ some (err eio, c', w')
            | some (some i, c', w') ↦ with_buffer t fuel index zone bit remaining i c' w'
          ])
      after pos go none g = absurd g
      after pos go (some (none, c', w')) g = tt
      after pos go (some (some i, c', w')) g = split m.overlap refl
        where
          m : Marking Words
          m = mark_words (32768 - zone) (c'.slots i).bitmap zone bit remaining false

          split :
              (o : Bool)
              → m.overlap ≡ o
              → LeavesRun (elim o [
                | true ↦ some (ret 1, store i m c', w')
                | false ↦ check_blocks t fuel (index + 1) 0 0 m.left (release i (store i m c')) w'
              ])
          split true hit = (i, ground (arith, store-Holds i m c' g i))
          split false free =
              let a =
                mark_words-Progress (32768 - zone) zone bit remaining (c'.slots i).bitmap false
                  (omega arith) in
              go m.left (release i (store i m c')) w'
                (release-IsIdle i (store i m c') (store-Holds i m c' g))
                (omega (arith, a.rest, a.ends free))

module _ {W : Type 0} (t : Transfer W) (number size : ℕ) (c : Cache) (w : W) (idle : IsIdle c) where
  zones-Leaves : LeavesRun (check_zones t number size c w)
  unfolding check_zones
  zones-Leaves =
      check_blocks-Leaves t (suc size) (number / 1048576) (number / 32 % 32768) (number % 32) size c
        w idle (omega arith) (omega arith) (omega arith)

  -- From a state in which no buffer is in use and one is free, fsckCheckZones ends, whatever the
  -- device does. If it returns 0, no buffer is in use again and one is free; if it returns a
  -- positive number, a buffer is still in use.
  pub check_zones_total :
      (r : RetCode) × (c' : Cache) × (w' : W) × (check_zones t number size c w ≡ some (r, c', w'))
      × Leaves r c'
  check_zones_total = ended (check_zones t number size c w) zones-Leaves
    where
      ended :
          (o : Option (RetCode × Cache × W))
          → LeavesRun o
          → (r : RetCode) × (c' : Cache) × (w' : W) × (o ≡ some (r, c', w')) × Leaves r c'
      ended none v = absurd v
      ended (some (r, c', w')) v = (r, c', w', refl, v)
