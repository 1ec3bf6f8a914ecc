-- ===== src/Fsck/Compare/Kept.antt =====
-- fsckCompareBitmap of fsck/fsck.c, and what is stable.
use hddchecker.Prelude.{ℕ, zero, suc, Bool, Option, none}
use hddchecker.Fsck.Layout.{Mount}
use hddchecker.Fsck.Device.{Device}
use hddchecker.Fsck.Run.{Env}
use hddchecker.Fsck.Run.Keeps.{Keeps, Stable, OnCache, kept_rules}
use hddchecker.Fsck.Compare.{compare_words, compare_block, compare_blocks, compare_bitmap}

module _ {W : Type 0} (dev : Device W) {P : Option (Env W) → Type 0} (st : Stable P)
    (oc : OnCache P) where
  pub compare_words-Keeps :
      (n : ℕ) (i : ℕ) (slot : ℕ) (at : ℕ) (has_update : Bool)
      → Keeps P (compare_words dev n i slot at has_update)
  unfolding compare_words
  compare_words-Keeps zero i slot at has_update = search kept_rules depth 40 fits 4000
  compare_words-Keeps (suc n) i slot at has_update =
      search (kept_rules, compare_words-Keeps n) depth 40 fits 4000

module _ {W : Type 0} (dev : Device W) {P : Option (Env W) → Type 0} (st : Stable P) (ends : P none)
    (oc : OnCache P) where
  pub compare_block-Keeps :
      (m : Mount) (sub : ℕ) (zone : ℕ) (raw : ℕ) → Keeps P (compare_block dev m sub zone raw)
  unfolding compare_block
  compare_block-Keeps m sub zone raw = search (kept_rules, compare_words-Keeps) depth 40 fits 4000

  pub compare_blocks-Keeps :
      (m : Mount) (sub : ℕ) (raw : ℕ) (n : ℕ) (zone : ℕ)
      → Keeps P (compare_blocks dev m sub raw n zone)
  unfolding compare_blocks
  compare_blocks-Keeps m sub raw zero zone = search kept_rules depth 40 fits 4000
  compare_blocks-Keeps m sub raw (suc n) zone =
      search
        (
          kept_rules,
          compare_block-Keeps,
          (λ (a : Mount) (b : ℕ) (c : ℕ). compare_blocks-Keeps a b c n),
        )
        depth 40 fits 4000

  pub compare_bitmap-Keeps : (m : Mount) (n : ℕ) (sub : ℕ) → Keeps P (compare_bitmap dev m n sub)
  unfolding compare_bitmap
  compare_bitmap-Keeps m zero sub = search kept_rules depth 40 fits 4000
  compare_bitmap-Keeps m (suc n) sub =
      search (kept_rules, compare_blocks-Keeps, (λ (a : Mount). compare_bitmap-Keeps a n)) depth 40
        fits 4000
