-- ===== src/Fsck/Zones/Bits.antt =====
-- What marking a run of positions does to a map of bits, and that the loop over the bits of a word
-- does it.
use hddchecker.Prelude.{
  ℕ, zero, suc, ◌+◌, ◌-◌, ◌/◌, ◌≤◌, ◌<◌, ◌≡◌, ◌∙◌, refl, ap, subst, ◌⊎◌, inl, inr, Bool, true,
  false, ◌&&◌, arith, ltb, leb, ◌==◌, if◌then◌else◌, Bool-cases,
}
use native.Mathlib.Nat.{add-zero}
use hddchecker.Fsck.Zones.{test_bit, set_bit, Marking, mark_bits}

test_bit-set_bit : (w b c : ℕ) → test_bit (set_bit w b) c ≡ (if c == b then true else test_bit w c)
unfolding test_bit set_bit
test_bit-set_bit w zero zero = ground arith
test_bit-set_bit w zero (suc c) =
    let half : set_bit w zero / 2 ≡ w / 2 = ground arith in
    ap (λ n. test_bit n c) half ∙ ground arith
test_bit-set_bit w (suc b) zero = ground arith
test_bit-set_bit w (suc b) (suc c) =
    let half : set_bit w (suc b) / 2 ≡ set_bit (w / 2) b = omega arith in
    ap (λ n. test_bit n c) half ∙ test_bit-set_bit (w / 2) b c ∙ ground arith

-- The positions from `p` on, `k` of them, were clear and are set; the others are as they were.
pub record Marked (g g' : ℕ → Bool) (p k : ℕ) : Type 0 where
  pub now : (q : ℕ) → g' q ≡ (if leb p q && ltb q (p + k) then true else g q)
  pub clear : (q : ℕ) → p ≤ q → q < p + k → g q ≡ false

pub Marked-none : (g : ℕ → Bool) (p : ℕ) → Marked g g p 0
Marked-none g p = record { now = λ q. ground arith; clear = λ q lo hi. absurd (omega arith) }

pub Marked-append :
    (g g' g'' : ℕ → Bool) (p p' k j : ℕ)
    → Marked g g' p k
    → Marked g' g'' p' j
    → (j ≡ 0) ⊎ (p' ≡ p + k)
    → Marked g g'' p (k + j)
Marked-append g g' g'' p p' k j a b at = record {
  now = λ q. ground (arith, a.now q, b.now q);
  clear = λ q lo hi. elim (Bool-cases (ltb q (p + k))) [
    | inl e ↦ a.clear q lo (ground arith)
    | inr e ↦ ground (arith, a.now q, b.clear q)
  ];
}

-- A loop over at most `room` positions from `p` with `rem` to mark: it marks until none is left, the
-- room is used up, or it meets a position that was set.
pub record Progress (g g' : ℕ → Bool) (p room rem left : ℕ) (overlap : Bool) : Type 0 where
  pub count : ℕ
  pub marked : Marked g g' p count
  pub rest : left + count ≡ rem
  pub fits : count ≤ room
  pub ends : overlap ≡ false → (left ≡ 0) ⊎ (count ≡ room)
  pub hits : overlap ≡ true → (count < room) × (0 < left) × (g (p + count) ≡ true)

pub Progress-none :
    (g : ℕ → Bool) (p room rem : ℕ) → (rem ≡ 0) ⊎ (room ≡ 0) → Progress g g p room rem rem false
Progress-none g p room rem h = record {
  count = 0;
  marked = Marked-none g p;
  rest = omega arith;
  fits = omega arith;
  ends = λ _. omega arith;
  hits = λ e. cc;
}

pub Progress-append :
    (g g' g'' : ℕ → Bool) (p room room' rem left left' : ℕ) (o : Bool)
    → Progress g g' p room rem left false
    → Progress g' g'' (p + room) room' left left' o
    → Progress g g'' p (room + room') rem left' o
Progress-append g g' g'' p room room' rem left left' o a b = record {
  count = a.count + b.count;
  marked = both (a.ends refl);
  rest = omega (arith, a.rest, b.rest);
  fits = omega (arith, a.fits, b.fits);
  ends = λ e. more e (a.ends refl);
  hits = λ e. met e (a.ends refl);
}
  where
    both : (left ≡ 0) ⊎ (a.count ≡ room) → Marked g g'' p (a.count + b.count)
    both e =
        Marked-append g g' g'' p (p + room) a.count b.count a.marked b.marked
          (omega (arith, a.rest, b.rest))

    more :
        o ≡ false → (left ≡ 0) ⊎ (a.count ≡ room) → (left' ≡ 0) ⊎ (a.count + b.count ≡ room + room')
    more e (inl z) = omega (arith, b.rest)
    more e (inr z) = ground (arith, b.ends e)

    met :
        o ≡ true
        → (left ≡ 0) ⊎ (a.count ≡ room)
        → (a.count + b.count < room + room') × (0 < left') × (g (p + (a.count + b.count)) ≡ true)
    met e (inl z) = absurd (omega (arith, b.rest, (b.hits e).1))
    met e (inr z) =
        let same : p + (a.count + b.count) ≡ p + room + b.count = omega arith in
        let (fit, more_left, was) = b.hits e in
        (omega arith, more_left, rw same (ground (arith, a.marked.now (p + room + b.count))))

-- One bit that was clear, and then the rest.
first-Progress :
    (n word bit rem left : ℕ) (g : ℕ → Bool) (o : Bool)
    → test_bit word bit ≡ false
    → 0 < rem
    → Progress (test_bit (set_bit word bit)) g (bit + 1) n (rem - 1) left o
    → Progress (test_bit word) g bit (suc n) rem left o
first-Progress n word bit rem left g o free pos b =
    subst (λ r. Progress (test_bit word) g bit r rem left o) all_bits
      (Progress-append (test_bit word) (test_bit (set_bit word bit)) g bit 1 n rem (rem - 1) left o
        one b)
  where
    all_bits : 1 + n ≡ suc n
    all_bits = omega arith

    one : Progress (test_bit word) (test_bit (set_bit word bit)) bit 1 rem (rem - 1) false
    one = record {
      count = 1;
      marked = record {
        now = λ q. ground (arith, test_bit-set_bit word bit q);
        clear = λ q lo hi. let same : q ≡ bit = omega arith in rw same free;
      };
      rest = omega arith;
      fits = omega arith;
      ends = λ _. inr refl;
      hits = λ e. cc;
    }

-- The loop over the bits of a word, from `bit`.
pub mark_bits-Progress :
    (n word bit remaining : ℕ) (touched : Bool)
    → let m = mark_bits n word bit remaining touched in
      Progress (test_bit word) (test_bit m.content) bit n remaining m.left m.overlap
unfolding mark_bits
mark_bits-Progress zero word bit remaining touched =
    Progress-none (test_bit word) bit 0 remaining (inr refl)
mark_bits-Progress (suc n) word bit remaining touched = elim (Bool-cases (remaining == 0)) [
  | inl e ↦ rw e (Progress-none (test_bit word) bit (suc n) remaining (inl (ground arith)))
  | inr e ↦ rw e (elim (Bool-cases (test_bit word bit)) [
    | inl hit ↦ rw hit (record {
      count = 0;
      marked = Marked-none (test_bit word) bit;
      rest = omega arith;
      fits = omega arith;
      ends = λ q. cc;
      hits = λ _. (omega arith, ground arith, ap (test_bit word) (add-zero bit) ∙ hit);
    })
    | inr free ↦ rw free (
        first-Progress n word bit remaining m.left (test_bit m.content) m.overlap free
          (ground arith) (mark_bits-Progress n (set_bit word bit) (bit + 1) (remaining - 1) true))
  ])
]
  where
    m : Marking ℕ
    m = mark_bits n (set_bit word bit) (bit + 1) (remaining - 1) true
