-- ===== src/Hdsk/Copy/Sectors.antt =====
-- What CopyPartition leaves on the disk.
use hddchecker.Prelude.{
  ℕ, zero, suc, ◌+◌, ◌*◌, ◌-◌, ◌/◌, ◌≡◌, ◌≤◌, ◌<◌, ◌⊎◌, ◌∙◌, refl, sym, ap, subst, inl, inr, Bool,
  true, false, arith, dec_lt, ltb, leb, ◌&&◌, Bool-cases, not_both, u32_mod, ret, is_zero, add32,
}
use hddchecker.Hdsk.Copy.{Buffer, Ata, Copied, move_sectors, copy_blocks, copy_partition}

abbrev pub is_within : ℕ → ℕ → ℕ → Bool
is_within from count s = leb from s && ltb s (from + count)

-- What the drive promises: a read that returns 0 gives the sectors at the address and changes none; a
-- write that returns 0 puts the buffer there and changes no other; a failed one may change the
-- sectors that it was to write.
pub record AtaLaws {W : Type 0} (ata : Ata W) (disk : W → ℕ → ℕ) : Type 0 where
  pub reads :
      (from count i : ℕ) (w : W)
      → is_zero (ata.read from count w).0 ≡ true
      → i < count
      → (ata.read from count w).1 i ≡ disk w (from + i)
  pub read_keeps : (from count s : ℕ) (w : W) → disk (ata.read from count w).2 s ≡ disk w s
  pub writes :
      (to count i : ℕ) (buffer : Buffer) (w : W)
      → is_zero (ata.write to count buffer w).0 ≡ true
      → i < count
      → disk (ata.write to count buffer w).1 (to + i) ≡ buffer i
  pub write_keeps :
      (to count s : ℕ) (buffer : Buffer) (w : W)
      → is_within to count s ≡ false
      → disk (ata.write to count buffer w).1 s ≡ disk w s
  pub flag_keeps : (s : ℕ) (w : W) → disk (ata.stop_flag w).1 s ≡ disk w s

-- The two ranges do not overlap, and their ends are addresses.
abbrev pub IsApart : ℕ → ℕ → ℕ → Type 0
IsApart start dest length =
    (start + length ≤ u32_mod)
    × (dest + length ≤ u32_mod)
    × ((start + length ≤ dest) ⊎ (dest + length ≤ start))

outside_next :
    (a b left s : ℕ)
    → b ≡ a + 256
    → is_within a (suc left * 256) s ≡ false
    → (is_within b (left * 256) s ≡ false) × (is_within a 256 s ≡ false)
outside_next a b left s e out = (ground arith, ground arith)

not_within : (from count s : ℕ) → (s < from) ⊎ (from + count ≤ s) → is_within from count s ≡ false
not_within from count s out = ground arith

outside_blocks :
    (dest blocks s : ℕ)
    → is_within (dest + 2) (suc blocks * 256 - 2) s ≡ false
    → (is_within (dest + 2) 254 s ≡ false) × (is_within (dest + 1 * 256) (blocks * 256) s ≡ false)
outside_blocks dest blocks s out = (ground arith, ground arith)

module _ {W : Type 0} (ata : Ata W) (disk : W → ℕ → ℕ) (laws : AtaLaws ata disk) where
  move_sectors_copies :
      (from to count i : ℕ) (w : W)
      → (move_sectors ata from to count w).0 ≡ true
      → i < count
      → disk (move_sectors ata from to count w).1 (to + i) ≡ disk w (from + i)
  unfolding move_sectors
  move_sectors_copies from to count i w done lt =
      let buffer = (ata.read from count w).1 in
      let w1 = (ata.read from count w).2 in
      elim (Bool-cases (is_zero (ata.read from count w).0)) [
        | inr failed ↦ absurd (not_both false (rw (failed, move_sectors) at done) refl)
        | inl read ↦
            let written : is_zero (ata.write to count buffer w1).0 ≡ true =
              rw (read, move_sectors) at done in
            rw (read, move_sectors)
              (laws.writes to count i buffer w1 written lt ∙ laws.reads from count i w read lt)
      ]

  move_sectors_keeps :
      (from to count s : ℕ) (w : W)
      → is_within to count s ≡ false
      → disk (move_sectors ata from to count w).1 s ≡ disk w s
  unfolding move_sectors
  move_sectors_keeps from to count s w out =
      let buffer = (ata.read from count w).1 in
      let w1 = (ata.read from count w).2 in
      elim (Bool-cases (is_zero (ata.read from count w).0)) [
        | inr failed ↦ rw (failed, move_sectors) (laws.read_keeps from count s w)
        | inl read ↦
            rw (read, move_sectors)
              (laws.write_keeps to count s buffer w1 out ∙ laws.read_keeps from count s w)
      ]

  -- What the copy of the blocks from the one numbered `i` leaves, of `left` blocks.
  abbrev Blocks : ℕ → ℕ → ℕ → ℕ → W → Copied × W → Type 0
  Blocks start dest i left w (c, w') =
      ((s : ℕ) → is_within (dest + i * 256) (left * 256) s ≡ false → disk w' s ≡ disk w s)
      × (c.result ≡ ret 0
          → c.is_stopped ≡ false
          → (j : ℕ) → i * 256 ≤ j
          → j < i * 256 + left * 256
          → disk w' (dest + j) ≡ disk w (start + j))

  -- A block that was copied, in front of the rest.
  Blocks-step :
      (start dest i left : ℕ) (w w2 : W) (r : Copied × W)
      → IsApart start dest (i * 256 + suc left * 256)
      → ((s : ℕ) → is_within (dest + i * 256) 256 s ≡ false → disk w2 s ≡ disk w s)
      → ((k : ℕ) → k < 256 → disk w2 (dest + i * 256 + k) ≡ disk w (start + i * 256 + k))
      → Blocks start dest (i + 1) left w2 r
      → Blocks start dest i (suc left) w r
  Blocks-step start dest i left w w2 (c, w') (small, small2, apart) keeps copies (kept, copied) = (
    λ s out.
        let (later, first) =
          outside_next (dest + i * 256) (dest + (i + 1) * 256) left s (omega arith) out in
        kept s later ∙ keeps s first,
    λ ok on j lo hi. elim (dec_lt j (i * 256 + 256)) [
      | yes here ↦
          let k = j - i * 256 in
          let at_dest : dest + j ≡ dest + i * 256 + k = omega arith in
          let at_start : start + i * 256 + k ≡ start + j = omega arith in
          kept (dest + j) (not_within (dest + (i + 1) * 256) (left * 256) (dest + j) (omega arith))
          ∙ ap (disk w2) at_dest
          ∙ copies k (omega arith)
          ∙ ap (disk w) at_start
      | no later ↦
          copied ok on j (omega arith) (omega arith)
          ∙ keeps (start + j) (not_within (dest + i * 256) 256 (start + j) (omega arith))
    ],
  )

  copy_blocks-Blocks :
      (left start dest i progress : ℕ) (w : W)
      → IsApart start dest (i * 256 + left * 256)
      → Blocks start dest i left w (copy_blocks ata left start dest i progress w)
  unfolding copy_blocks
  copy_blocks-Blocks zero start dest i progress w apart =
      (λ s out. refl, λ ok on j lo hi. absurd (omega arith))
  copy_blocks-Blocks (suc left) start dest i progress w (small, small2, apart) =
      elim (Bool-cases t.0) [
        | inr failed ↦
            rw (failed, copy_blocks)
              (
                (λ s out.
                    keeps1 s
                      (outside_next (dest + i * 256) (dest + (i + 1) * 256) left s (omega arith)
                        out).1),
                λ ok on j lo hi. absurd (ground arith),
              )
        | inl done ↦ elim (Bool-cases flag.0) [
          | inl stops ↦
              rw (done, copy_blocks, stops)
                (
                  (λ s out.
                      laws.flag_keeps s t.1
                      ∙ keeps1 s
                          (outside_next (dest + i * 256) (dest + (i + 1) * 256) left s (omega arith)
                            out).1),
                  λ ok on j lo hi. absurd (not_both true refl on),
                )
          | inr goes_on ↦
              rw (done, copy_blocks, goes_on)
                (Blocks-step start dest i left w flag.1
                  (copy_blocks ata left start dest (i + 1) (add32 progress 256) flag.1)
                  (small, small2, apart) (λ s out. laws.flag_keeps s t.1 ∙ keeps1 s out)
                  (λ k lt. laws.flag_keeps (dest + i * 256 + k) t.1 ∙ copies1 done k lt)
                  (copy_blocks-Blocks left start dest (i + 1) (add32 progress 256) flag.1
                    (omega arith, omega arith, after)))
        ]
      ]
    where
      from : ℕ
      from = add32 start (i * 256)

      to : ℕ
      to = add32 dest (i * 256)

      from_eq : from ≡ start + i * 256
      from_eq = omega arith

      to_eq : to ≡ dest + i * 256
      to_eq = omega arith

      t : Bool × W
      t = move_sectors ata from to 256 w

      flag : Bool × W
      flag = ata.stop_flag t.1

      keeps1 : (s : ℕ) → is_within (dest + i * 256) 256 s ≡ false → disk t.1 s ≡ disk w s
      keeps1 s out =
          move_sectors_keeps from to 256 s w
            (subst (λ b. is_within b 256 s ≡ false) (sym to_eq) out)

      copies1 :
          t.0 ≡ true
          → (k : ℕ) → k < 256
          → disk t.1 (dest + i * 256 + k) ≡ disk w (start + i * 256 + k)
      copies1 done k lt =
          ap (λ b. disk t.1 (b + k)) (sym to_eq)
          ∙ move_sectors_copies from to 256 k w done lt
          ∙ ap (λ b. disk w (b + k)) from_eq

      after :
          (start + ((i + 1) * 256 + left * 256) ≤ dest)
          ⊎ (dest + ((i + 1) * 256 + left * 256) ≤ start)
      after = elim apart [ inl first ↦ inl (omega arith) | inr last ↦ inr (omega arith) ]

  -- If the two partitions do not overlap, their ends are addresses, and the length is a multiple of
  -- 256 sectors and not 0, the copy changes no sector outside the destination, nor the two sectors
  -- of its header, whatever it returns; and if it returns 0 and was not stopped, every other sector
  -- of the destination holds what the source had there.
  pub copy_partition_copies :
      (start dest blocks progress : ℕ) (w : W)
      → IsApart start dest (suc blocks * 256)
      → let r = copy_partition ata start dest (suc blocks * 256) progress w in
        ((s : ℕ) → is_within (dest + 2) (suc blocks * 256 - 2) s ≡ false → disk r.1 s ≡ disk w s)
        × ((r.0).result ≡ ret 0
            → (r.0).is_stopped ≡ false
            → (j : ℕ) → 2 ≤ j
            → j < suc blocks * 256
            → disk r.1 (dest + j) ≡ disk w (start + j))
  unfolding copy_partition
  copy_partition_copies start dest blocks progress w (small, small2, apart) =
      elim (Bool-cases t.0) [
        | inr failed ↦
            rw (failed, copy_partition)
              (
                (λ s out. keeps1 s (outside_blocks dest blocks s out).0),
                λ ok on j lo hi. absurd (ground arith),
              )
        | inl done ↦
            rw (done, copy_partition, count)
              (
                (λ s out.
                    let (first, rest) = outside_blocks dest blocks s out in
                    later.0 s rest ∙ keeps1 s first),
                λ ok on j lo hi. elim (dec_lt j 256) [
                  | yes here ↦
                      let k = j - 2 in
                      let at_dest : dest + j ≡ dest + 2 + k = omega arith in
                      let at_start : start + 2 + k ≡ start + j = omega arith in
                      later.0 (dest + j)
                        (not_within (dest + 1 * 256) (blocks * 256) (dest + j) (omega arith))
                      ∙ ap (disk t.1) at_dest
                      ∙ copies1 done k (omega arith)
                      ∙ ap (disk w) at_start
                  | no behind ↦
                      later.1 ok on j (omega arith) (omega arith)
                      ∙ keeps1 (start + j) (not_within (dest + 2) 254 (start + j) (omega arith))
                ],
              )
      ]
    where
      from_eq : add32 start 2 ≡ start + 2
      from_eq = omega arith

      to_eq : add32 dest 2 ≡ dest + 2
      to_eq = omega arith

      t : Bool × W
      t = move_sectors ata (add32 start 2) (add32 dest 2) 254 w

      count : suc blocks * 256 / 256 - 1 ≡ blocks
      count = omega arith

      next_apart :
          (start + (1 * 256 + blocks * 256) ≤ dest) ⊎ (dest + (1 * 256 + blocks * 256) ≤ start)
      next_apart = elim apart [ inl first ↦ inl (omega arith) | inr last ↦ inr (omega arith) ]

      later :
          Blocks start dest 1 blocks t.1
            (copy_blocks ata blocks start dest 1 (add32 progress 256) t.1)
      later =
          copy_blocks-Blocks blocks start dest 1 (add32 progress 256) t.1
            (omega arith, omega arith, next_apart)

      keeps1 : (s : ℕ) → is_within (dest + 2) 254 s ≡ false → disk t.1 s ≡ disk w s
      keeps1 s out =
          move_sectors_keeps (add32 start 2) (add32 dest 2) 254 s w
            (subst (λ b. is_within b 254 s ≡ false) (sym to_eq) out)

      copies1 : t.0 ≡ true → (k : ℕ) → k < 254 → disk t.1 (dest + 2 + k) ≡ disk w (start + 2 + k)
      copies1 done k lt =
          ap (λ b. disk t.1 (b + k)) (sym to_eq)
          ∙ move_sectors_copies (add32 start 2) (add32 dest 2) 254 k w done lt
          ∙ ap (λ b. disk w (b + k)) from_eq
