-- ===== src/Fsck/Zones/Check.antt =====
-- fsckCheckZones over the whole bitmap: it marks a range of zones that was clear, and tells a zone
-- that two files claim.
use hddchecker.Prelude.{
  ℕ, zero, suc, ◌+◌, ◌-◌, ◌*◌, ◌/◌, ◌%◌, ◌≤◌, ◌<◌, ◌≡◌, refl, ap, subst, fun_ext, ◌⊎◌, inl, inr,
  Bool, true, false, Option, none, some, arith, ◌==◌, if◌then◌else◌, ◌∙◌, Bool-cases, RetCode, ret,
  err, eio,
}
use hddchecker.Fsck.Bitmap.{Words, Transfer, Cache, read, release}
use hddchecker.Fsck.Bitmap.Coherence.{TransferLaws, IsCoherent, read-Runs, release-IsCoherent, Runs}
use hddchecker.Fsck.Zones.{Marking, mark_bits, mark_words, put, set_bit, store, check_blocks}
use hddchecker.Fsck.Zones.Bits.{Marked, Marked-none, Marked-append, Progress}
use hddchecker.Fsck.Zones.Blocks.{block_bit, mark_words-Progress}

-- The zone `z` of a bitmap.
abbrev pub zone_set : (ℕ → Words) → ℕ → Bool
zone_set f z = block_bit (f (z / 1048576)) (z % 1048576)

abbrev pub put_block : (ℕ → Words) → ℕ → Words → ℕ → Words
put_block f b words n = if n == b then words else f n

-- Marks in one block, seen in the bitmap.
block-Marked :
    (f : ℕ → Words) (b p k : ℕ) (words : Words)
    → p + k ≤ 1048576
    → Marked (block_bit (f b)) (block_bit words) p k
    → Marked (zone_set f) (zone_set (put_block f b words)) (b * 1048576 + p) k
block-Marked f b p k words h a = record {
  now = λ q. elim (Bool-cases (q / 1048576 == b)) [
    | inl e ↦ rw e (a.now (q % 1048576) ∙ ground arith)
    | inr e ↦ rw e (ground arith)
  ];
  clear = λ q lo hi.
      let same : q / 1048576 ≡ b = omega arith in
      rw same (a.clear (q % 1048576) (omega arith) (omega arith));
}

-- A loop that wrote nothing left the word, or the block, as it was.
bits_untouched :
    (n word bit remaining : ℕ) (touched : Bool)
    → (mark_bits n word bit remaining touched).touched ≡ false
    → (touched ≡ false) × ((mark_bits n word bit remaining touched).content ≡ word)
unfolding mark_bits
bits_untouched zero word bit remaining touched h = (h, refl)
bits_untouched (suc n) word bit remaining touched h =
    ground (arith, bits_untouched n (set_bit word bit) (bit + 1) (remaining - 1) true)

words_untouched :
    (n zone bit remaining x : ℕ) (words : Words) (touched : Bool)
    → (mark_words n words zone bit remaining touched).touched ≡ false
    → (touched ≡ false) × ((mark_words n words zone bit remaining touched).content x ≡ words x)
unfolding mark_words
words_untouched zero zone bit remaining x words touched h = (h, refl)
words_untouched (suc n) zone bit remaining x words touched h = ground (
  arith,
  bits_untouched (32 - bit) (words zone) bit remaining touched,
  words_untouched n (zone + 1) 0 m.left x (put words zone m.content) m.touched,
)
  where
    m : Marking ℕ
    m = mark_bits (32 - bit) (words zone) bit remaining touched

module _ {W : Type 0} (content : W → ℕ → ℕ → ℕ) (f : ℕ → Words) where
  store-IsCoherent :
      (i b : ℕ) (m : Marking Words) (c : Cache) (w : W)
      → 1 ≤ i
      → i ≤ 4
      → (c.slots i).index ≡ b
      → ((x : ℕ) → m.touched ≡ false → m.content x ≡ (c.slots i).bitmap x)
      → IsCoherent content f c w
      → IsCoherent content (put_block f b m.content) (store i m c) w
  unfolding store
  store-IsCoherent i b m c w lo hi at same v = record {
    unique = λ j k p q p' q' e. v.unique j k p q p' q' (ground arith);
    small = λ j p q. ground (arith, v.small j p q);
    cached = λ j x p q. elim (Bool-cases (j == i)) [
      | inl e ↦ rw e (ground arith)
      | inr e ↦ rw e (ground (arith, v.cached j x p q, v.unique j i p q lo hi))
    ];
    stored = λ b' x h all. elim (Bool-cases (b' == b)) [
      | inl e ↦ rw e (
          v.stored b' x h
            (λ j p q e'. ground (arith, all j p q, v.unique j i p q lo hi, all i lo hi))
          ∙ ground (arith, all i lo hi, same x, v.cached i x lo hi))
      | inr e ↦ rw e (v.stored b' x h (λ j p q e'. ground (arith, all j p q)))
    ];
    listed = v.listed;
  }

-- What the loop does once it has the block's buffer.
abbrev pub with_buffer :
    {W : Type 0} → Transfer W → ℕ → ℕ → ℕ → ℕ → ℕ → ℕ → Cache → W → Option (RetCode × Cache × W)
with_buffer t fuel index zone bit remaining i c' w' =
    let m = mark_words (32768 - zone) (c'.slots i).bitmap zone bit remaining false in
    elim m.overlap [
      | true ↦ some (ret 1, store i m c', w')
      | false ↦ check_blocks t fuel (index + 1) 0 0 m.left (release i (store i m c')) w'
    ]

-- What the loop has done when it ends: at 0 the whole range is marked; at 1 the zones before one
-- that was marked already.
module _ {W : Type 0} (content : W → ℕ → ℕ → ℕ) where
  abbrev pub Checks : (ℕ → Words) → ℕ → ℕ → Option (RetCode × Cache × W) → Type 0
  Checks f p rem none = Unit {0}
  Checks f p rem (some (err e, c, w)) = Unit {0}
  Checks f p rem (some (ret zero, c, w)) =
      (f' : ℕ → Words) × IsCoherent content f' c w × Marked (zone_set f) (zone_set f') p rem
  Checks f p rem (some (ret (suc n), c, w)) =
      (f' : ℕ → Words) × (k : ℕ) × IsCoherent content f' c w
      × Marked (zone_set f) (zone_set f') p k
      × (k < rem)
      × (zone_set f (p + k) ≡ true)

  Checks-append :
      (f f1 : ℕ → Words) (p p' k rem left : ℕ) (o : Option (RetCode × Cache × W))
      → Marked (zone_set f) (zone_set f1) p k
      → left + k ≡ rem
      → (left ≡ 0) ⊎ (p' ≡ p + k)
      → Checks f1 p' left o
      → Checks f p rem o
  Checks-append f f1 p p' k rem left none a total at h = tt
  Checks-append f f1 p p' k rem left (some (err e, c, w)) a total at h = tt
  Checks-append f f1 p p' k rem left (some (ret zero, c, w)) a total at (f', v, b) = (
    f',
    v,
    subst (Marked (zone_set f) (zone_set f') p) sum
        (Marked-append (zone_set f) (zone_set f1) (zone_set f') p p' k left a b at),
  )
    where
      sum : k + left ≡ rem
      sum = omega arith
  Checks-append f f1 p p' k rem left (some (ret (suc n), c, w)) a total at (f', j, v, b, lt, was) =
      (
        f',
        k + j,
        v,
        Marked-append (zone_set f) (zone_set f1) (zone_set f') p p' k j a b (omega arith),
        omega arith,
        before,
      )
    where
      same : p + (k + j) ≡ p' + j
      same = omega arith

      before : zone_set f (p + (k + j)) ≡ true
      before = rw same (ground (arith, a.now (p' + j)))

  module _ (t : Transfer W) (fuel index zone bit remaining : ℕ) (f : ℕ → Words) (hb : bit < 32)
      (hz : zone < 32768) (some_left : 0 < remaining)
      (room : index * 1048576 + zone * 32 + bit + remaining ≤ 17592186044416) where
    abbrev start : ℕ
    start = index * 1048576 + (zone * 32 + bit)

    block-Checks :
        (i : ℕ) (c' : Cache) (w' : W)
        → 1 ≤ i
        → i ≤ 4
        → (c'.slots i).index ≡ index
        → IsCoherent content f c' w'
        → ((left : ℕ) (c2 : Cache) (w2 : W) (f2 : ℕ → Words)
            → IsCoherent content f2 c2 w2
            → (index + 1) * 1048576 + 0 * 32 + 0 + left ≤ 17592186044416
            → Checks f2
                ((index + 1) * 1048576 + (0 * 32 + 0))
                left
                (check_blocks t fuel (index + 1) 0 0 left c2 w2))
        → Checks f start remaining (with_buffer t fuel index zone bit remaining i c' w')
    block-Checks i c' w' lo hi at v' go = split m.overlap refl
      where
        m : Marking Words
        m = mark_words (32768 - zone) (c'.slots i).bitmap zone bit remaining false

        f1 : ℕ → Words
        f1 = put_block f index m.content

        same : (c'.slots i).bitmap ≡ f index
        same = fun_ext λ x. v'.cached i x lo hi ∙ ap (λ n. f n x) at

        a :
            Progress
              (block_bit (f index))
              (block_bit m.content)
              (zone * 32 + bit)
              ((32768 - zone) * 32 - bit)
              remaining
              m.left
              m.overlap
        a =
            subst
              (λ words.
                Progress (block_bit words) (block_bit m.content) (zone * 32 + bit)
                  ((32768 - zone) * 32 - bit) remaining m.left m.overlap)
              same
              (mark_words-Progress (32768 - zone) zone bit remaining (c'.slots i).bitmap false
                (omega arith))

        stored : IsCoherent content f1 (store i m c') w'
        stored =
            store-IsCoherent content f i index m c' w' lo hi at
              (λ x e.
                (words_untouched (32768 - zone) zone bit remaining x (c'.slots i).bitmap false e).1)
              v'

        marked : Marked (zone_set f) (zone_set f1) start a.count
        marked =
            block-Marked f index (zone * 32 + bit) a.count m.content (omega (arith, a.fits))
              a.marked

        found :
            block_bit (f index) (zone * 32 + bit + a.count) ≡ true
            → zone * 32 + bit + a.count < 1048576
            → zone_set f (start + a.count) ≡ true
        found was small =
            let block : (start + a.count) / 1048576 ≡ index = omega arith in
            let place : (start + a.count) % 1048576 ≡ zone * 32 + bit + a.count = omega arith in
            rw (block, place) was

        next :
            (m.left ≡ 0) ⊎ (a.count ≡ (32768 - zone) * 32 - bit)
            → (m.left ≡ 0) ⊎ ((index + 1) * 1048576 + (0 * 32 + 0) ≡ start + a.count)
        next h = omega arith

        limit :
            (m.left ≡ 0) ⊎ (a.count ≡ (32768 - zone) * 32 - bit)
            → (index + 1) * 1048576 + 0 * 32 + 0 + m.left ≤ 17592186044416
        limit h = omega (arith, a.rest)

        split :
            (o : Bool)
            → m.overlap ≡ o
            → Checks f start remaining (elim o [
              | true ↦ some (ret 1, store i m c', w')
              | false ↦ check_blocks t fuel (index + 1) 0 0 m.left (release i (store i m c')) w'
            ])
        split true hit =
            let (fit, more, was) = a.hits hit in
            (
              f1,
              a.count,
              stored,
              marked,
              omega (arith, more, a.rest),
              found was (omega (arith, fit)),
            )
        split false free =
            Checks-append f f1 start ((index + 1) * 1048576 + (0 * 32 + 0)) a.count remaining m.left
              (check_blocks t fuel (index + 1) 0 0 m.left (release i (store i m c')) w') marked
              a.rest (next (a.ends free))
              (go m.left (release i (store i m c')) w' f1
                (release-IsCoherent content f1 i (store i m c') w' lo hi stored)
                (limit (a.ends free)))

  pub check_blocks-Checks :
      (t : Transfer W)
      → TransferLaws t content
      → (fuel index zone bit remaining : ℕ) (c : Cache) (w : W) (f : ℕ → Words)
      → IsCoherent content f c w
      → bit < 32
      → zone < 32768
      → index * 1048576 + zone * 32 + bit + remaining ≤ 17592186044416
      → Checks f
          (index * 1048576 + (zone * 32 + bit))
          remaining
          (check_blocks t fuel index zone bit remaining c w)
  unfolding check_blocks
  check_blocks-Checks t laws zero index zone bit remaining c w f v hb hz room = tt
  check_blocks-Checks t laws (suc fuel) index zone bit remaining c w f v hb hz room =
      elim (Bool-cases (remaining == 0)) [
        | inl e ↦
            let z : remaining ≡ 0 = ground arith in
            rw (e, check_blocks)
              (f, v, rw z (Marked-none (zone_set f) (index * 1048576 + (zone * 32 + bit))))
        | inr e ↦
            rw (e, check_blocks)
              (after (ground arith)
                (λ left c2 w2 f2 v2 h.
                  check_blocks-Checks t laws fuel (index + 1) 0 0 left c2 w2 f2 v2 (omega arith)
                    (omega arith) h)
                (read t index c w) (read-Runs content f t index c w laws (ground arith) v))
      ]
    where
      after :
          0 < remaining
          → ((left : ℕ) (c2 : Cache) (w2 : W) (f2 : ℕ → Words)
              → IsCoherent content f2 c2 w2
              → (index + 1) * 1048576 + 0 * 32 + 0 + left ≤ 17592186044416
              → Checks f2
                  ((index + 1) * 1048576 + (0 * 32 + 0))
                  left
                  (check_blocks t fuel (index + 1) 0 0 left c2 w2))
          → (r : Option (Option ℕ × Cache × W)) → Runs content f index r
          → Checks f (index * 1048576 + (zone * 32 + bit)) remaining (elim r [
            | none ↦ none
            | some (none, c', w') ↦ some (err eio, c', w')
            | some (some i, c', w') ↦ with_buffer t fuel index zone bit remaining i c' w'
          ])
      after pos go none g = tt
      after pos go (some (none, c', w')) g = tt
      after pos go (some (some i, c', w')) (lo, hi, at, v') =
          block-Checks t fuel index zone bit remaining f hb hz pos room i c' w' lo hi at v' go
