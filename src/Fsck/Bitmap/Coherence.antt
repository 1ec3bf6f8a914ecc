-- ===== src/Fsck/Bitmap/Coherence.antt =====
-- The four buffers and the disk together hold one bitmap, which reading a block does not change.
use hddchecker.Prelude.{
  ℕ, ◌≤◌, ◌<◌, ◌≡◌, ◌≢◌, ◌∙◌, refl, ap, ◌⊎◌, inl, inr, Bool, true, false, ◌||◌, Option, none, some,
  List, [], ◌∷◌, ◌++◌, arith, ◌==◌, if◌then◌else◌, Bool-cases, Option-cases, RetCode, is_neg,
}
use hddchecker.Fsck.Bitmap.{
  Words, Slot, Transfer, Cache, update, unlink, renumber, block_sector, find_slot, transfer_read,
  transfer_write, take_slot, fill_slot, evict_slot, read, release,
}

abbrev pub has : ℕ → List ℕ → Bool
has i [] = false
has i (j ∷ js) = (j == i) || has i js

abbrev pub block_limit : ℕ
block_limit = 16777216

-- `content w b` is what block `b` of the disk holds. A transfer that does not fail moves a whole
-- block; a failed one may leave anything in the buffer, and the disk as it was.
pub record TransferLaws {W : Type 0} (t : Transfer W) (content : W → ℕ → ℕ → ℕ) : Type 0 where
  pub reads :
      (b x : ℕ) (old : Words) (w : W)
      → b < block_limit
      → is_neg (t.read (block_sector b) old w).0 ≡ false
      → (t.read (block_sector b) old w).1 x ≡ content w b x
  pub read_keeps :
      (b s x : ℕ) (old : Words) (w : W) → content (t.read s old w).2 b x ≡ content w b x
  pub writes :
      (b b' x : ℕ) (new : Words) (w : W)
      → b < block_limit
      → b' < block_limit
      → is_neg (t.write (block_sector b) new w).0 ≡ false
      → content (t.write (block_sector b) new w).1 b' x
        ≡ (if b' == b then new x else content w b' x)

-- The buffers and the disk stand for the bitmap `f`, block by block.
pub record IsCoherent {W : Type 0} (content : W → ℕ → ℕ → ℕ) (f : ℕ → ℕ → ℕ) (c : Cache) (w : W)
    : Type 0 where
  pub unique :
      (i j : ℕ) → 1 ≤ i → i ≤ 4 → 1 ≤ j → j ≤ 4 → (c.slots i).index ≡ (c.slots j).index → i ≡ j
  pub small : (i : ℕ) → 1 ≤ i → i ≤ 4 → (c.slots i).index < block_limit
  pub cached : (i x : ℕ) → 1 ≤ i → i ≤ 4 → (c.slots i).bitmap x ≡ f (c.slots i).index x
  pub stored :
      (b x : ℕ)
      → b < block_limit
      → ((i : ℕ) → 1 ≤ i → i ≤ 4 → (c.slots i).index ≡ b → (c.slots i).is_dirty ≡ false)
      → content w b x ≡ f b x
  pub listed : (i : ℕ) → has i c.free ≡ true → (1 ≤ i) × (i ≤ 4)

has-unlink : (i j : ℕ) (js : List ℕ) → has i (unlink j js) ≡ true → has i js ≡ true
unfolding unlink
has-unlink i j [] h = h
has-unlink i j (k ∷ js) h = ground (arith, has-unlink i j js)

has-append : (i j : ℕ) (js : List ℕ) → has i (js ++ j ∷ []) ≡ true → (has i js ≡ true) ⊎ (i ≡ j)
has-append i j [] h = ground arith
has-append i j (k ∷ js) h = ground (arith, has-append i j js)

-- A hit is a buffer of that block; a miss means that no buffer holds it.
find_slot-some :
    (b i : ℕ) (slots : ℕ → Slot)
    → find_slot b slots ≡ some i
    → (1 ≤ i) × (i ≤ 4) × ((slots i).index ≡ b)
find_slot-some b i slots h = ground arith

between : (i : ℕ) → 1 ≤ i → i ≤ 4 → (i ≡ 1) ⊎ (i ≡ 2) ⊎ (i ≡ 3) ⊎ (i ≡ 4)
between i lo hi = omega arith

pub find_slot-none :
    (b i : ℕ) (slots : ℕ → Slot) → find_slot b slots ≡ none → 1 ≤ i → i ≤ 4 → (slots i).index ≢ b
find_slot-none b i slots h lo hi = ground (arith, between i lo hi)

module _ {W : Type 0} (content : W → ℕ → ℕ → ℕ) (f : ℕ → ℕ → ℕ) where
  -- Use counts and the list are no part of what the buffers hold.
  same_blocks-IsCoherent :
      (c c' : Cache) (w : W)
      → ((i : ℕ)
          → ((c'.slots i).index ≡ (c.slots i).index)
            × ((c'.slots i).is_dirty ≡ (c.slots i).is_dirty)
            × ((c'.slots i).bitmap ≡ (c.slots i).bitmap))
      → ((i : ℕ) → has i c'.free ≡ true → (1 ≤ i) × (i ≤ 4))
      → IsCoherent content f c w
      → IsCoherent content f c' w
  same_blocks-IsCoherent c c' w same free v = record {
    unique = λ i j a b p q e. v.unique i j a b p q (cc ((same i).0, (same j).0));
    small = λ i a b. rw ((same i).0) (v.small i a b);
    cached = λ i x a b. rw ((same i).0, (same i).2) (v.cached i x a b);
    stored =
        λ b x h clean. v.stored b x h λ i p q e. cc ((same i).1, clean i p q (cc ((same i).0)));
    listed = free;
  }

  take_slot-IsCoherent :
      (i : ℕ) (c : Cache) (w : W)
      → IsCoherent content f c w
      → IsCoherent content f (take_slot i c) w
  unfolding take_slot
  take_slot-IsCoherent i c w v =
      same_blocks-IsCoherent c (take_slot i c) w (λ j. ground arith)
        (λ j h. v.listed j (ground (arith, has-unlink j i c.free))) v

  pub release-IsCoherent :
      (i : ℕ) (c : Cache) (w : W)
      → 1 ≤ i
      → i ≤ 4
      → IsCoherent content f c w
      → IsCoherent content f (release i c) w
  unfolding release
  release-IsCoherent i c w lo hi v =
      same_blocks-IsCoherent c (release i c) w (λ j. ground arith)
        (λ j h. ground (arith, has-append j i c.free, v.listed j)) v

  module _ (t : Transfer W) (laws : TransferLaws t content) (k : ℕ) (c : Cache) (w : W) (lo : 1 ≤ k)
      (hi : k ≤ 4) (v : IsCoherent content f c w) where
    -- Writing a buffer back makes it clean.
    transfer_write-IsCoherent :
        is_neg (transfer_write t k c w).0 ≡ false
        → IsCoherent content f (transfer_write t k c w).1 (transfer_write t k c w).2
    unfolding transfer_write
    transfer_write-IsCoherent ok = record {
      unique = λ i j a b p q e. v.unique i j a b p q (ground arith);
      small = λ i a b. ground (arith, v.small i a b);
      cached = λ i x a b. ground (arith, v.cached i x a b);
      stored = λ b x h clean. written b x h clean;
      listed = v.listed;
    }
      where
        slot : Slot
        slot = c.slots k

        done : RetCode × W
        done = t.write (block_sector slot.index) slot.bitmap w

        written :
            (b x : ℕ)
            → b < block_limit
            → ((i : ℕ)
                → 1 ≤ i
                → i ≤ 4
                → (update c.slots k
                    (record slot { is_dirty = if is_neg done.0 then slot.is_dirty else false })
                    i).index
                  ≡ b
                → (update c.slots k
                    (record slot { is_dirty = if is_neg done.0 then slot.is_dirty else false })
                    i).is_dirty
                  ≡ false)
            → content done.1 b x ≡ f b x
        written b x h clean =
            rw (laws.writes slot.index b x slot.bitmap w (v.small k lo hi) h ok)
              (elim (Bool-cases (b == slot.index)) [
                | inl e ↦ rw e (v.cached k x lo hi ∙ ground arith)
                | inr e ↦ rw e (v.stored b x h λ i p q at. ground (arith, clean i p q))
              ])

  -- The same, but for what is in buffer `k`, which is clean.
  record IsCoherentBut (k : ℕ) (c : Cache) (w : W) : Type 0 where
    unique :
        (i j : ℕ) → 1 ≤ i → i ≤ 4 → 1 ≤ j → j ≤ 4 → (c.slots i).index ≡ (c.slots j).index → i ≡ j
    small : (i : ℕ) → 1 ≤ i → i ≤ 4 → (c.slots i).index < block_limit
    cached : (i x : ℕ) → 1 ≤ i → i ≤ 4 → i ≢ k → (c.slots i).bitmap x ≡ f (c.slots i).index x
    stored :
        (b x : ℕ)
        → b < block_limit
        → ((i : ℕ) → 1 ≤ i → i ≤ 4 → (c.slots i).index ≡ b → (c.slots i).is_dirty ≡ false)
        → content w b x ≡ f b x
    listed : (i : ℕ) → has i c.free ≡ true → (1 ≤ i) × (i ≤ 4)
    clean : (c.slots k).is_dirty ≡ false

  renumber-IsCoherentBut :
      (k b : ℕ) (c : Cache) (w : W)
      → IsCoherent content f c w
      → b < block_limit
      → (c.slots k).is_dirty ≡ false
      → ((i : ℕ) → 1 ≤ i → i ≤ 4 → (c.slots i).index ≢ b)
      → IsCoherentBut k (renumber b k c) w
  unfolding renumber
  renumber-IsCoherentBut k b c w v h clean absent = record {
    unique =
        λ i j p q p' q' e. ground (arith, v.unique i j p q p' q', absent i p q, absent j p' q');
    small = λ i p q. ground (arith, v.small i p q);
    cached = λ i x p q ne. ground (arith, v.cached i x p q);
    stored = λ b' x h' all. v.stored b' x h' λ i p q e. ground (arith, all i p q);
    listed = v.listed;
    clean = ground arith;
  }

  transfer_read-IsCoherent :
      (t : Transfer W)
      → TransferLaws t content
      → (k : ℕ) (c : Cache) (w : W) → 1 ≤ k
      → k ≤ 4
      → IsCoherentBut k c w
      → is_neg (transfer_read t k c w).0 ≡ false
      → IsCoherent content f (transfer_read t k c w).1 (transfer_read t k c w).2
  unfolding transfer_read
  transfer_read-IsCoherent t laws k c w lo hi v ok = record {
    unique = λ i j p q p' q' e. v.unique i j p q p' q' (ground arith);
    small = λ i p q. ground (arith, v.small i p q);
    cached = λ i x p q. elim (Bool-cases (i == k)) [
      | inr e ↦ rw e (v.cached i x p q (ground arith))
      | inl e ↦ rw e (
          laws.reads (c.slots k).index x _ w (v.small k lo hi) ok
          ∙ v.stored (c.slots k).index x (v.small k lo hi)
              (λ j p' q' at. ground (arith, v.unique j k p' q' lo hi, v.clean)))
    ];
    stored = λ b x h all.
        laws.read_keeps b _ x _ w ∙ v.stored b x h (λ i p q at. ground (arith, all i p q, v.clean));
    listed = v.listed;
  }

  -- A read that gives a buffer gives one that holds the block.
  abbrev pub Gives : ℕ → Option ℕ × Cache × W → Type 0
  Gives b (none, c, w) = Unit {0}
  Gives b (some i, c, w) = (1 ≤ i) × (i ≤ 4) × ((c.slots i).index ≡ b) × IsCoherent content f c w

  abbrev pub Runs : ℕ → Option (Option ℕ × Cache × W) → Type 0
  Runs b none = Unit {0}
  Runs b (some r) = Gives b r

  module _ (t : Transfer W) (laws : TransferLaws t content) (k b : ℕ) (lo : 1 ≤ k) (hi : k ≤ 4)
      (h : b < block_limit) where
    fill_slot-Gives :
        (c : Cache) (w : W)
        → IsCoherent content f c w
        → (c.slots k).is_dirty ≡ false
        → ((i : ℕ) → 1 ≤ i → i ≤ 4 → (c.slots i).index ≢ b)
        → Gives b (fill_slot t b k c w)
    unfolding fill_slot
    fill_slot-Gives c w v clean absent = elim (Bool-cases (is_neg done.0)) [
      | inl bad ↦ rw bad tt
      | inr ok ↦ rw ok (
        lo,
        hi,
        numbered,
        same_blocks-IsCoherent done.1 (record done.1 { free = unlink k (done.1).free }) done.2
            (λ i. (refl, refl, refl)) (λ i q. (filled ok).listed i (has-unlink i k (done.1).free q))
            (filled ok),
      )
    ]
      where
        done : RetCode × Cache × W
        done = transfer_read t k (renumber b k c) w

        filled : is_neg done.0 ≡ false → IsCoherent content f done.1 done.2
        filled =
            transfer_read-IsCoherent t laws k (renumber b k c) w lo hi
              (renumber-IsCoherentBut k b c w v h clean absent)

        numbered : ((done.1).slots k).index ≡ b
        numbered = unfold transfer_read renumber in ground arith

    evict_slot-Gives :
        (c : Cache) (w : W)
        → IsCoherent content f c w
        → ((i : ℕ) → 1 ≤ i → i ≤ 4 → (c.slots i).index ≢ b)
        → Gives b (evict_slot t b k c w)
    unfolding evict_slot
    evict_slot-Gives c w v absent = elim (Bool-cases (c.slots k).is_dirty) [
      | inr clean ↦ rw clean (fill_slot-Gives c w v clean absent)
      | inl dirty ↦ rw dirty (elim (Bool-cases (is_neg (transfer_write t k c w).0)) [
        | inl bad ↦ rw bad tt
        | inr ok ↦ rw ok (
            fill_slot-Gives (transfer_write t k c w).1 (transfer_write t k c w).2
              (transfer_write-IsCoherent t laws k c w lo hi v ok) (written ok)
              (λ i p q e. absent i p q (kept i ∙ e)))
      ])
    ]
      where
        written :
            is_neg (transfer_write t k c w).0 ≡ false
            → (((transfer_write t k c w).1).slots k).is_dirty ≡ false
        written ok = unfold transfer_write in ground arith

        kept : (i : ℕ) → (c.slots i).index ≡ (((transfer_write t k c w).1).slots i).index
        kept i = unfold transfer_write in ground arith

  pub read-Runs :
      (t : Transfer W) (b : ℕ) (c : Cache) (w : W)
      → TransferLaws t content
      → b < block_limit
      → IsCoherent content f c w
      → Runs b (read t b c w)
  unfolding read
  read-Runs t b c w laws h v = elim (Option-cases (find_slot b c.slots)) [
    | inr (i, e) ↦
        let (lo, hi, at) = find_slot-some b i c.slots e in
        rw (e, read) (lo, hi, taken i at, take_slot-IsCoherent i c w v)
    | inl e ↦ rw (e, read) (miss c.free refl e)
  ]
    where
      taken : (i : ℕ) → (c.slots i).index ≡ b → ((take_slot i c).slots i).index ≡ b
      taken i at = unfold take_slot in ground arith

      miss :
          (free : List ℕ)
          → c.free ≡ free
          → find_slot b c.slots ≡ none
          → Runs b (elim c.free [ [] ↦ none | i ∷ rest ↦ some (evict_slot t b i c w) ])
      miss [] e none_found = rw e tt
      miss (k ∷ rest) e none_found =
          let (lo, hi) = v.listed k (ground arith) in
          rw e (
            evict_slot-Gives t laws k b lo hi h c w v
              (λ i p q. find_slot-none b i c.slots none_found p q))

  module _ (t : Transfer W) (b : ℕ) (c c' : Cache) (w w' : W) (i : ℕ)
      (laws : TransferLaws t content) (h : b < block_limit) (v : IsCoherent content f c w)
      (run : read t b c w ≡ some (some i, c', w')) where
    given : Gives b (some i, c', w')
    given = let e : Runs b (some (some i, c', w')) = rw run at (read-Runs t b c w laws h v) in e

    -- If the buffers and the disk stand for a bitmap and the read of a block gives a buffer, they
    -- still stand for that bitmap, and the buffer holds that block of it.
    pub read-IsCoherent :
        (x : ℕ)
        → IsCoherent content f c' w' × ((c'.slots i).index ≡ b) × ((c'.slots i).bitmap x ≡ f b x)
    read-IsCoherent x =
        let (lo, hi, at, kept) = given in (kept, at, kept.cached i x lo hi ∙ ap (λ j. f j x) at)
