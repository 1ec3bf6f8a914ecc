-- ===== src/Hdck/Repairs/Cut.antt =====
-- RemoveBadPartitions cuts the list of partitions behind the last one that can be read.
use hddchecker.Prelude.{ℕ, ◌≡◌, ◌≢◌, ◌∙◌, refl, sym, ap, true, false, Option, some, arith, ◌==◌}
use hddchecker.Hdck.{Header, ErrorPart}
use hddchecker.Hdck.Repairs.{Library, set_header, remove_bad}
use hddchecker.Hdck.Repairs.Laws.{LibraryLaws}

module _ {W : Type 0} (lib : Library W) (at : W → ℕ → Option Header)
    (laws : LibraryLaws lib at) where
  set_here :
      (lba : ℕ) (f : Header → Header) (h : Header) (w : W)
      → at w lba ≡ some h
      → at (set_header lib lba f w) lba ≡ some (f h)
  set_here lba f h w here =
      let self : (lba == lba) ≡ true = ground arith in
      (laws.cache).puts lba lba (f (lib.peek lba w)) w
      ∙ rw self (ap (λ g. some (f g)) (laws.held lba h w here))

  set_there :
      (lba l : ℕ) (f : Header → Header) (w : W) → l ≢ lba → at (set_header lib lba f w) l ≡ at w l
  set_there lba l f w apart =
      let other : (l == lba) ≡ false = ground arith in
      (laws.cache).puts lba l (f (lib.peek lba w)) w ∙ rw other refl

  -- The four changes, in their order.
  abbrev changed : ℕ → W → W
  changed p w =
      let w2 = set_header lib p (λ h. record h { next = 0 }) w in
      let w3 = set_header lib 0 (λ h. record h { prev = p }) w2 in
      let w4 = set_header lib p (λ h. record h { is_sub = true }) w3 in
      set_header lib 0 (λ h. record h { is_sub = true }) w4

  remove_bad-changed :
      (e : ErrorPart) (h : Header) (w : W)
      → at w e.prev_lba ≡ some h
      → remove_bad lib e w ≡ (
        record e { lba = 0; lba2 = 0 },
        lib.flush_all (changed e.prev_lba ((lib.apa).get e.prev_lba w).2),
      )
  unfolding remove_bad
  remove_bad-changed e h w here =
      let got : ((lib.apa).get e.prev_lba w).1 ≡ some h = (laws.cache).gets e.prev_lba w ∙ here in
      rw (got, remove_bad) refl

  -- If the header in front of the error is at another address than 0 and can be read, then after
  -- RemoveBadPartitions no error partition is left, that header is the last one, the header at 0
  -- has it as the one before, both have become headers of a sub-partition, and no other header
  -- changes.
  pub remove_bad_cuts :
      (e : ErrorPart) (h mbr : Header) (w : W)
      → at w e.prev_lba ≡ some h
      → at w 0 ≡ some mbr
      → e.prev_lba ≢ 0
      → let r = remove_bad lib e w in
        (r.0 ≡ record e { lba = 0; lba2 = 0 })
        × (at r.1 e.prev_lba ≡ some (record h { next = 0; is_sub = true }))
        × (at r.1 0 ≡ some (record mbr { prev = e.prev_lba; is_sub = true }))
        × ((l : ℕ) → l ≢ 0 → l ≢ e.prev_lba → at r.1 l ≡ at w l)
  remove_bad_cuts e h mbr w here zeroth apart =
      let p = e.prev_lba in
      let apart' : 0 ≢ p = λ z. apart (sym z) in
      let w1 = ((lib.apa).get p w).2 in
      let w2 = set_header lib p (λ h. record h { next = 0 }) w1 in
      let w3 = set_header lib 0 (λ h. record h { prev = p }) w2 in
      let w4 = set_header lib p (λ h. record h { is_sub = true }) w3 in
      let run = remove_bad-changed e h w here in
      let left : (l : ℕ) → at (remove_bad lib e w).1 l ≡ at (changed p w1) l =
        λ l. ap (λ r. at r.1 l) run ∙ laws.flush_all_keeps l (changed p w1) in
      let h2 = set_here p (λ h. record h { next = 0 }) h w1 ((laws.cache).get_keeps p p w ∙ here) in
      let h4 =
        set_here p (λ h. record h { is_sub = true }) (record h { next = 0 }) w3
          (set_there 0 p (λ h. record h { prev = p }) w2 apart ∙ h2) in
      let m3 =
        set_here 0 (λ h. record h { prev = p }) mbr w2
          (set_there p 0 (λ h. record h { next = 0 }) w1 apart'
            ∙ (laws.cache).get_keeps p 0 w
            ∙ zeroth) in
      let m5 =
        set_here 0 (λ h. record h { is_sub = true }) (record mbr { prev = p }) w4
          (set_there p 0 (λ h. record h { is_sub = true }) w3 apart' ∙ m3) in
      (
        ap (λ r. r.0) run,
        left p ∙ set_there 0 p (λ h. record h { is_sub = true }) w4 apart ∙ h4,
        left 0 ∙ m5,
        λ l n0 np.
            left l
            ∙ set_there 0 l (λ h. record h { is_sub = true }) w4 n0
            ∙ set_there p l (λ h. record h { is_sub = true }) w3 np
            ∙ set_there 0 l (λ h. record h { prev = p }) w2 n0
            ∙ set_there p l (λ h. record h { next = 0 }) w1 np
            ∙ (laws.cache).get_keeps p l w,
      )
