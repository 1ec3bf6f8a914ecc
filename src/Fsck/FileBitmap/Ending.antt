-- ===== src/Fsck/FileBitmap/Ending.antt =====
-- On the end of fsckCheckFileBitmap of fsck/fsck.c.
use hddchecker.Prelude.{
  ℕ, zero, suc, ◌+◌, ◌-◌, ◌*◌, ◌<◌, ◌≡◌, refl, ap, subst, ◌⊎◌, inl, inr, Option, none, some, arith,
}
use hddchecker.Fsck.Layout.{Mount, BlockInfo}
use hddchecker.Fsck.Device.{Pfs}
use hddchecker.Fsck.Run.{Env, Action, on_option}
use hddchecker.Fsck.Run.Keeps.{kept_rules}
use hddchecker.Fsck.Run.Leads.{
  Ends, Leads, Leads-pure, Leads-gives_up, Leads-if, Leads-after, Leads-bind, Leads-given,
  Leads-on_option, Leads-on_none, Leads-on_some,
}
use hddchecker.Fsck.Run.Settled.{IsQuiet}
use hddchecker.Fsck.Run.Modes.{IsQuiet-Stable}
use hddchecker.Fsck.FileBitmap.Kept.{mark_bit-Keeps}
use hddchecker.Fsck.FileBitmap.{file_bits, file_words, file_chunks, check_file_bitmap}

-- `n` zones remain, or the user refused.
abbrev Remains : {W : Type 0} → ℕ → Option ℕ → Env W → Type 0
Remains n o s = IsQuiet s × ((o ≡ none) ⊎ (o ≡ some n))

module _ {W B : Type 0} where
  -- What goes on with the zones that remain.
  Remains-Leads :
      {Q : B → Env W → Type 0} (n : ℕ) (o : Option ℕ) (m : Action W B) (f : ℕ → Action W B)
      → Leads ⊥ IsQuiet Q m
      → Leads ⊥ IsQuiet Q (f n)
      → Leads ⊥ (Remains n o) Q (on_option o m f)
  Remains-Leads {Q = Q} n o m f lm lf =
      Leads-given {P = IsQuiet} ((o ≡ none) ⊎ (o ≡ some n)) _ (λ h. split h)
    where
      split : (o ≡ none) ⊎ (o ≡ some n) → Leads ⊥ IsQuiet Q (on_option o m f)
      split (inl e) = Leads-on_none o m f e lm
      split (inr e) = Leads-on_some o m f n e lf

module _ {W : Type 0} (pfs : Pfs W) where
  file_bits-Leads :
      (n link index bit remaining : ℕ)
      → Leads ⊥ IsQuiet (Remains (remaining - n)) (file_bits pfs n link index bit remaining)
  unfolding file_bits
  file_bits-Leads zero link index bit remaining =
      Leads-pure _ (λ s q. (q, inr (ap some (omega arith))))
  file_bits-Leads (suc n) link index bit zero =
      Leads-pure _ (λ s q. (q, inr (ap some (omega arith))))
  file_bits-Leads (suc n) link index bit (suc remaining) =
      Leads-after _ _ (search (kept_rules, IsQuiet-Stable)) (λ word.
        Leads-after _ _ (search (kept_rules, IsQuiet-Stable, mark_bit-Keeps)) (λ fine.
          Leads-if fine _ _
            (λ e.
              subst
                (λ k. Leads ⊥ IsQuiet (Remains k) (file_bits pfs n link index (bit + 1) remaining))
                (omega arith) (file_bits-Leads n link index (bit + 1) remaining))
            (λ e. Leads-pure none (λ s q. (q, inl refl)))))

  file_words-Leads :
      (n link index bit remaining : ℕ)
      → bit < 32
      → Leads ⊥ IsQuiet
          (Remains (remaining - (32 * n - bit)))
          (file_words pfs n link index bit remaining)
  unfolding file_words
  file_words-Leads zero link index bit remaining h =
      Leads-pure _ (λ s q. (q, inr (ap some (omega arith))))
  file_words-Leads (suc n) link index bit zero h =
      Leads-pure _ (λ s q. (q, inr (ap some (omega arith))))
  file_words-Leads (suc n) link index bit (suc remaining) h =
      Leads-bind _ _ _ (file_bits-Leads (32 - bit) link index bit (suc remaining)) (λ scan.
        Remains-Leads _ scan _ _ (Leads-pure none (λ s q. (q, inl refl))) (
          subst
            (λ k.
              Leads ⊥ IsQuiet (Remains k)
                (file_words pfs n link (index + 1) 0 (suc remaining - (32 - bit))))
            (omega arith)
            (file_words-Leads n link (index + 1) 0 (suc remaining - (32 - bit)) (omega arith))))

  file_chunks-Leads :
      (fuel : ℕ) (m : Mount) (sub chunk index bit remaining : ℕ)
      → remaining < fuel
      → index < 256
      → bit < 32
      → Leads ⊥ IsQuiet (λ r. IsQuiet) (file_chunks pfs fuel m sub chunk index bit remaining)
  unfolding file_chunks
  file_chunks-Leads zero m sub chunk index bit remaining h i b = Leads-gives_up (omega arith)
  file_chunks-Leads (suc fuel) m sub chunk index bit zero h i b = Leads-pure _ (λ s q. q)
  file_chunks-Leads (suc fuel) m sub chunk index bit (suc remaining) h i b =
      Leads-after _ _ (search (kept_rules, IsQuiet-Stable)) (λ got.
        Leads-on_option got _ _ (Leads-pure _ (λ s q. q)) (λ link.
          Leads-bind _ _ _ (file_words-Leads (256 - index) link index bit (suc remaining) b)
            (λ scan. Remains-Leads _ scan _ _ (Leads-pure _ (λ s q. q)) (
              Leads-after _ _ (search (kept_rules, IsQuiet-Stable)) (λ u.
                file_chunks-Leads fuel m sub (chunk + 1) 0 0 _ (omega arith) (omega arith)
                  (omega arith))))))

  -- In a mode in which no key is read, and if pfsBitmapSetupInfo gives a word below 256 and a bit
  -- below 32, fsckCheckFileBitmap ends for every file, whatever the bitmap holds.
  pub check_file_bitmap-IsQuiet :
      (m : Mount) (b : BlockInfo) (s : Env W)
      → (pfs.setup_info m b.subpart b.number).index < 256
      → (pfs.setup_info m b.subpart b.number).bit < 32
      → IsQuiet s
      → Ends ⊥ (λ r. IsQuiet) (check_file_bitmap pfs m b s)
  unfolding check_file_bitmap
  check_file_bitmap-IsQuiet m b s i j q =
      (file_chunks-Leads (suc b.count) m b.subpart _ _ _ b.count (omega arith) i j).goes s q
