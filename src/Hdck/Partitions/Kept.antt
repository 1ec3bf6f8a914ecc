-- ===== src/Hdck/Partitions/Kept.antt =====
-- Which sub-partitions the second half of CheckPartitions keeps.
use hddchecker.Prelude.{
  ℕ, ◌≡◌, ◌≢◌, ◌∙◌, refl, fun_ext, true, false, Option, some, List, [], ◌∷◌, arith, ◌==◌, ret,
}
use hddchecker.Hdck.{Header, listed}
use hddchecker.Hdck.Links.{ApaLaws}
use hddchecker.Hdck.Partitions.{check_entry, check_subs}
use hddchecker.Hdck.Repairs.{Library}

-- A sub-partition that has no entries itself, and whose main partition is in the map and has some.
abbrev pub IsOwned : List ℕ → (ℕ → Option Header) → ℕ → Type 0
IsOwned mains f lba =
    (h : Header) × (f lba ≡ some h)
    × (h.nsub ≡ 0)
    × (listed h.main mains ≡ true)
    × (m : Header) × (f h.main ≡ some m)
    × (m.nsub ≢ 0)

module _ {W : Type 0} (lib : Library W) (at : W → ℕ → Option Header)
    (laws : ApaLaws lib.apa at) where
  abbrev after : ℕ → W → W
  after lba w = ((lib.apa).get lba w).2

  same : (lba : ℕ) (w : W) → at (after lba w) ≡ at w
  same lba w = fun_ext (λ l. laws.get_keeps lba l w)

  check_entry-keeps :
      (lba : ℕ) (h m : Header) (w : W)
      → h.nsub ≡ 0
      → at w h.main ≡ some m
      → m.nsub ≢ 0
      → check_entry lib lba h w ≡ (ret 0, after h.main w)
  unfolding check_entry
  check_entry-keeps lba h m w none_own main has_some =
      let got : ((lib.apa).get h.main w).1 ≡ some m = laws.gets h.main w ∙ main in
      let stays : (m.nsub == 0) ≡ false = ground arith in
      rw (got, none_own, stays, laws.found h.main m w got, check_entry) refl

  -- If each sub-partition of the map has no entries of its own and a main partition in the map that
  -- has at least one, the check of the sub-partitions ends with 0 and no header changes, whichever
  -- addresses the lists of the main partitions hold.
  pub check_subs_keeps :
      (mains subs : List ℕ) (w : W)
      → ((l : ℕ) → listed l subs ≡ true → IsOwned mains (at w) l)
      → (w' : W) × (check_subs lib mains subs (ret 0) w ≡ (ret 0, w')) × (at w' ≡ at w)
  unfolding check_subs
  check_subs_keeps mains [] w owned = (w, refl, refl)
  check_subs_keeps mains (lba ∷ subs) w owned =
      begin (owned lba (ground arith)) (λ w1 all. check_subs_keeps mains subs w1 all)
    where
      begin :
          IsOwned mains (at w) lba
          → ((w1 : W)
              → ((l : ℕ) → listed l subs ≡ true → IsOwned mains (at w1) l)
              → (w' : W) × (check_subs lib mains subs (ret 0) w1 ≡ (ret 0, w')) × (at w' ≡ at w1))
          → (w' : W) × (check_subs lib mains (lba ∷ subs) (ret 0) w ≡ (ret 0, w')) × (at w' ≡ at w)
      begin (h, here, none_own, inside, m, main, has_some) rest_of =
          let w2 = after h.main (after lba w) in
          let unchanged : at w2 ≡ at w = same h.main (after lba w) ∙ same lba w in
          let got : ((lib.apa).get lba w).1 ≡ some h = laws.gets lba w ∙ here in
          let kept =
            check_entry-keeps lba h m (after lba w) none_own (laws.get_keeps lba h.main w ∙ main)
              has_some in
          let (w', run, e) = rest_of w2 (λ l i. rw unchanged (owned l (ground arith))) in
          (w', rw (got, inside, kept, check_subs) run, e ∙ unchanged)
