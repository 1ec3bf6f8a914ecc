-- ===== src/Fsck/Compare/Copies.antt =====
-- On the loop over the words of a block in fsckCompareBitmap of fsck/fsck.c.
use hddchecker.Prelude.{
  ℕ, zero, suc, ◌+◌, ◌<◌, ◌≡◌, refl, sym, ap, ◌∙◌, subst, Bool, true, false, ltb, ◌==◌,
  if◌then◌else◌, arith, not_both, ℕ_discrete,
}
use hddchecker.Fsck.Bitmap.{Cache}
use hddchecker.Fsck.Device.{Device}
use hddchecker.Fsck.Run.{Env}
use hddchecker.Fsck.Run.Leads.{
  Ends, Leads, Leads-pure, Leads-if, Leads-bind, Leads-given, Leads-post, Leads-weaken, io-Leads,
}
use hddchecker.Fsck.Run.Modes.{IsAutomatic, prompt2-IsAutomatic, cache_value-Leads}
use hddchecker.Fsck.Compare.{compare_words}

-- The buffer keeps the words that are put into it: `word w j` is its word `j`.
pub record BufferLaws {W : Type 0} (dev : Device W) (word : W → ℕ → ℕ) : Type 0 where
  pub got : (i : ℕ) (w : W) → (dev.get_word i w).0 ≡ word w i
  pub kept : (i j : ℕ) (w : W) → word (dev.get_word i w).1 j ≡ word w j
  pub put : (i v j : ℕ) (w : W) → word (dev.put_word i v w).1 j ≡ (if j == i then v else word w j)

-- The words of a buffer `old` of which the first `i` are replaced by those of `built`.
abbrev pub mixed : (ℕ → ℕ) → (ℕ → ℕ) → ℕ → ℕ → ℕ
mixed old built i j = if ltb j i then built j else old j

-- No word of the first `i` differs.
abbrev pub Agrees : (ℕ → ℕ) → (ℕ → ℕ) → ℕ → Type 0
Agrees old built i = (j : ℕ) → j < i → old j ≡ built j

equal : (x y : ℕ) → (x == y) ≡ true → x ≡ y
equal x y h = ground arith

module _ (old built : ℕ → ℕ) (i : ℕ) where
  here : mixed old built i i ≡ old i
  here = ground arith

  step : old i ≡ built i → (j : ℕ) → mixed old built i j ≡ mixed old built (i + 1) j
  step e j = elim (ℕ_discrete j i) [
    | yes q ↦
        subst (λ k. mixed old built i k ≡ mixed old built (i + 1) k) (sym q) (ground (arith, e))
    | no q ↦ ground (arith, q)
  ]

  write :
      (v x y j : ℕ)
      → x ≡ (if j == i then v else y)
      → y ≡ mixed old built i j
      → v ≡ built i
      → x ≡ mixed old built (i + 1) j
  write v x y j e f g = elim (ℕ_discrete j i) [
    | yes q ↦
        let x_v : x ≡ v = ground (arith, e, q) in
        let top : built j ≡ mixed old built (i + 1) j = ground (arith, q) in
        x_v ∙ g ∙ ap built (sym q) ∙ top
    | no q ↦
        let x_y : x ≡ y = ground (arith, e, q) in
        let top : mixed old built i j ≡ mixed old built (i + 1) j = ground (arith, q) in
        x_y ∙ f ∙ top
  ]

  extend : (old i ≡ built i) → Agrees old built i → Agrees old built (i + 1)
  extend e a j l = elim (ℕ_discrete j i) [
    | yes q ↦ ap old q ∙ e ∙ ap built (sym q)
    | no q ↦ a j (ground (arith, q))
  ]

module _ {W : Type 0} (dev : Device W) (word : W → ℕ → ℕ) (laws : BufferLaws dev word) (c : Cache)
    (slot at : ℕ) (old : ℕ → ℕ) where
  abbrev built : ℕ → ℕ
  built j = (c.slots slot).bitmap (at + j)

  -- The loop at the word `i`.
  abbrev IsAt : ℕ → Env W → Type 0
  IsAt i s = IsAutomatic s × (s.cache ≡ c) × ((j : ℕ) → word s.world j ≡ mixed old built i j)

  compare_words-Leads :
      (n i at' t : ℕ) (updated : Bool)
      → at' ≡ at + i
      → t ≡ n + i
      → (updated ≡ false → Agrees old built i)
      → Leads ⊥
          (IsAt i)
          (λ u s. IsAt t s × (u ≡ false → Agrees old built t))
          (compare_words dev n i slot at' updated)
  unfolding compare_words
  compare_words-Leads zero i at' t updated e f g =
      let q : i ≡ t = omega arith in
      Leads-pure updated (λ s h. (subst (λ k. IsAt k s) q h, λ u. subst (Agrees old built) q (g u)))
  compare_words-Leads (suc n) i at' t updated e f g =
      Leads-bind (λ raw s. IsAt i s × (raw ≡ old i)) _ _
        (io-Leads _ (λ s h. (
          (h.0, h.1, λ j. laws.kept i j s.world ∙ h.2 j),
          laws.got i s.world ∙ h.2 i ∙ here old built i,
        )))
        (λ raw. Leads-given {P = IsAt i} (raw ≡ old i) _ (λ r.
          Leads-bind (λ v s. IsAt i s × (v ≡ built i)) _ _
            (Leads-post _ _ (cache_value-Leads (λ k. (k.slots slot).bitmap at')) (λ v s h. (
              h.0,
              h.1 ∙ ap (λ k. (k.slots slot).bitmap at') (h.0).1 ∙ ap (c.slots slot).bitmap e,
            )))
            (λ v. Leads-given {P = IsAt i} (v ≡ built i) _ (λ b.
              Leads-if (raw == v) _ _
                (λ k.
                  let same : old i ≡ built i = sym r ∙ equal raw v k ∙ b in
                  Leads-weaken (IsAt (i + 1)) _
                    (compare_words-Leads n (i + 1) (at' + 1) t updated (omega arith) (omega arith)
                      (λ u. extend old built i same (g u)))
                    (λ s h. (h.0, h.1, λ j. h.2 j ∙ step old built i same j)))
                (λ k. Leads-bind _ _ _ (prompt2-IsAutomatic (λ s h. h.0)) (λ agreed.
                  Leads-given {P = IsAt i} (agreed ≡ true) _ (λ y.
                    Leads-if agreed _ _
                      (λ w.
                        Leads-bind (λ a. IsAt (i + 1)) _ _
                          (io-Leads _ (λ s h. (
                            h.0,
                            h.1,
                            λ j.
                                write old built i v _ (word s.world j) j (laws.put i v j s.world)
                                  (h.2 j) b,
                          )))
                          (λ a.
                            compare_words-Leads n (i + 1) (at' + 1) t true (omega arith)
                              (omega arith) (λ u. cc)))
                      (λ w. elim (not_both agreed y w) [ ]))))))))

-- The first `n` words are those of the bitmap in the buffer `slot`, from its word `at` on, and the
-- others are as they were in `s`; and a result that says that nothing was updated is right.
abbrev pub IsCopied : {W : Type 0} → (W → ℕ → ℕ) → ℕ → ℕ → ℕ → Env W → Bool → Env W → Type 0
IsCopied word n slot at s u s' =
    ((j : ℕ)
      → word s'.world j ≡ mixed (word s.world) (λ k. ((s.cache).slots slot).bitmap (at + k)) n j)
    × (u ≡ false → Agrees (word s.world) (λ k. ((s.cache).slots slot).bitmap (at + k)) n)

module _ {W : Type 0} (dev : Device W) (word : W → ℕ → ℕ) (laws : BufferLaws dev word) where
  -- In the automatic mode, with a buffer that keeps the words put into it, the comparison of the
  -- first words of a block ends: those words are then the ones of the bitmap that fsck built, all
  -- others are as they were, and if the result is that nothing was updated, they did not differ.
  pub compare_words-Agrees :
      (n slot at : ℕ) (s : Env W)
      → IsAutomatic s
      → Ends ⊥ (IsCopied word n slot at s) (compare_words dev n 0 slot at false s)
  compare_words-Agrees n slot at s h =
      (Leads-post _ _
          (compare_words-Leads dev word laws s.cache slot at (word s.world) n 0 at n false
            (omega arith) (omega arith) (λ u j l. ground arith))
          (λ u s' k. ((k.0).2, k.1))).goes
        s (h, refl, λ j. ground arith)
