-- ===== src/Hdst/Erase.antt =====
-- hdst_EraseSectors of hdst/main.c, over a device whose sectors can be observed.
use hddchecker.Prelude.{
  ℕ, zero, suc, ◌+◌, ◌-◌, ◌≤◌, ◌<◌, ◌≡◌, refl, ◌⊎◌, inl, inr, Option, none, some, arith, ltb, ◌==◌,
  if◌then◌else◌, Bool-cases, dec_lt, ◌∙◌, ap, Option-cases, RetCode, ret, is_zero, is_zero_iff,
  u32_mod, add32,
}
use hddchecker.Hdst.{Atad, Buffer, Driver, zero_sectors, erase_loop, erase_sectors}

-- What ata_device_sector_io does to the sectors of a device when it writes `n` of them.
pub record WriteLaws {W : Type 0} (a : Atad W) (device : ℕ) (peek : W → ℕ → ℕ) : Type 0 where
  pub inside :
      (b : Buffer) (lba n s : ℕ) (w : W)
      → (a.sector_write device (some b) lba n w).0 ≡ ret 0
      → lba ≤ s
      → s < lba + n
      → peek (a.sector_write device (some b) lba n w).1 s ≡ b (s - lba)
  pub outside :
      (b : Buffer) (lba n s : ℕ) (w : W)
      → (s < lba) ⊎ (lba + n ≤ s)
      → peek (a.sector_write device (some b) lba n w).1 s ≡ peek w s

-- What a run over `sectors` sectors from `lba` leaves behind.
record Erased {W : Type 0} (peek : W → ℕ → ℕ) (w : W) (lba sectors : ℕ) (r : RetCode) (w' : W)
    : Type 0 where
  spared : (s : ℕ) → (s < lba) ⊎ (lba + sectors ≤ s) → peek w' s ≡ peek w s
  zeroed : r ≡ ret 0 → (s : ℕ) → lba ≤ s → s < lba + sectors → peek w' s ≡ 0

module _ {W : Type 0} (a : Atad W) (device : ℕ) (peek : W → ℕ → ℕ)
    (laws : WriteLaws a device peek) where
  -- One accepted write, followed by a run over the rest.
  Erased-step :
      (lba sectors n k : ℕ) (b : Buffer) (w : W) (r : RetCode) (w' : W)
      → ((i : ℕ) → i < k → b i ≡ 0)
      → n ≤ k
      → n ≤ sectors
      → lba + sectors ≤ u32_mod
      → (a.sector_write device (some b) lba n w).0 ≡ ret 0
      → Erased peek (a.sector_write device (some b) lba n w).1 (add32 lba n) (sectors - n) r w'
      → Erased peek w lba sectors r w'
  Erased-step lba sectors n k b w r w' zeros fits part room ok rest = record {
    spared = λ s out. rest.spared s (omega arith) ∙ laws.outside b lba n s w (omega arith);
    zeroed = λ done s lo hi. elim (dec_lt s (lba + n)) [
      | yes p ↦
          rest.spared s (omega arith)
          ∙ laws.inside b lba n s w ok lo p
          ∙ zeros (s - lba) (omega arith)
      | no p ↦ rest.zeroed done s (omega arith) (omega arith)
    ];
  }

  erase_loop-Erased :
      (fuel size k lba sectors : ℕ) (b : Buffer) (res : RetCode) (w : W)
      → ((i : ℕ) → i < k → b i ≡ 0)
      → 0 < size
      → (size ≤ k) ⊎ (sectors ≤ k)
      → lba + sectors ≤ u32_mod
      → sectors < fuel
      → (r : RetCode) × (w' : W) × (erase_loop a fuel (some b) size device lba sectors res w
          ≡ some (r, w'))
        × Erased peek w lba sectors r w'
  unfolding erase_loop
  erase_loop-Erased zero size k lba sectors b res w zeros pos small room enough =
      absurd (omega arith)
  erase_loop-Erased (suc fuel) size k lba sectors b res w zeros pos small room enough =
      elim (Bool-cases (sectors == 0)) [
        | inl e ↦ (
          res,
          w,
          rw e,
          record { spared = λ s h. refl; zeroed = λ _ s lo hi. absurd (ground arith) },
        )
        | inr e ↦ rw e (elim (Bool-cases (is_zero (written.0))) [
          | inr bad ↦ (
            written.0,
            written.1,
            rw bad,
            record { spared = λ s h. laws.outside b lba n s w (ground arith); zeroed = λ good. cc },
          )
          | inl good ↦
              let (r, w', run, rest) =
                erase_loop-Erased fuel size k (add32 lba n) (sectors - n) b (written.0) (written.1)
                  zeros pos (ground arith) (ground arith) (ground arith) in
              (
                r,
                w',
                rw good run,
                Erased-step lba sectors n k b w r w' zeros (ground arith) (ground arith) room
                    (is_zero_iff _ good) rest,
              )
        ])
      ]
    where
      n : ℕ
      n = if ltb size sectors then size else sectors

      written : RetCode × W
      written = a.sector_write device (some b) lba n w

  -- The range that the buffer is cleared for, and what erase_sectors does with it.
  abbrev first_run : Driver → ℕ → ℕ
  first_run d sectors = if ltb d.io_buffer_size sectors then d.io_buffer_size else sectors

  abbrev blank : Buffer → ℕ → Buffer
  blank b k i = if ltb i k then 0 else b i

  erase_sectors-eq :
      (d : Driver) (b : Buffer) (lba sectors : ℕ) (w : W) (r : RetCode) (w' : W)
      → d.io_buffer ≡ some b
      → erase_loop a
          (suc sectors)
          (some (blank b (first_run d sectors)))
          d.io_buffer_size
          device
          lba
          sectors
          (ret 0)
          w
        ≡ some (r, w')
      → erase_sectors a d device lba sectors w
        ≡ some (r, record d { io_buffer = zero_sectors (first_run d sectors) d.io_buffer }, w')
  unfolding erase_sectors
  erase_sectors-eq d b lba sectors w r w' e run = elim (Option-cases d.io_buffer) [
    | inl n ↦ absurd (cc)
    | inr (b', q) ↦
        let same : zero_sectors (first_run d sectors) d.io_buffer
            ≡ some (blank b (first_run d sectors)) =
          ap (zero_sectors _) e in
        let run' : erase_loop a (suc sectors) (zero_sectors (first_run d sectors) d.io_buffer)
              d.io_buffer_size device lba sectors (ret 0) w
            ≡ some (r, w') =
          rw same run in
        rw (run', erase_sectors)
  ]

  erase_sectors-Erased :
      (d : Driver) (b : Buffer) (lba sectors : ℕ) (w : W)
      → d.io_buffer ≡ some b
      → 0 < d.io_buffer_size
      → lba + sectors ≤ u32_mod
      → (r : RetCode) × (d' : Driver) × (w' : W) × (erase_sectors a d device lba sectors w
          ≡ some (r, d', w'))
        × Erased peek w lba sectors r w'
  erase_sectors-Erased d b lba sectors w e pos room =
      let (r, w', run, done) =
        erase_loop-Erased (suc sectors) d.io_buffer_size (first_run d sectors) lba sectors
          (blank b (first_run d sectors)) (ret 0) w (λ i h. ground arith) pos (ground arith) room
          (omega arith) in
      (
        r,
        record d { io_buffer = zero_sectors (first_run d sectors) d.io_buffer },
        w',
        erase_sectors-eq d b lba sectors w r w' e run,
        done,
      )

  module _ (d : Driver) (b : Buffer) (lba sectors : ℕ) (w : W) (allocated : d.io_buffer ≡ some b)
      (sized : 0 < d.io_buffer_size) (room : lba + sectors ≤ u32_mod) where
    -- With a buffer of at least one sector the erasure of a range of 32-bit addresses ends, and
    -- returns a code.
    pub erase_sectors_total :
        (r : RetCode) × (d' : Driver) × (w' : W) × (erase_sectors a d device lba sectors w
          ≡ some (r, d', w'))
    erase_sectors_total =
        let (r, d', w', run, _) = erase_sectors-Erased d b lba sectors w allocated sized room in
        (r, d', w', run)

    module _ (r : RetCode) (d' : Driver) (w' : W) (s : ℕ)
        (run : erase_sectors a d device lba sectors w ≡ some (r, d', w')) where
      -- With a buffer of at least one sector and a range that ends at 2 ^ 32 or before, if the erasure
      -- of the range returns 0, every sector of it reads as zeros.
      pub erase_sectors_zeroes : r ≡ ret 0 → lba ≤ s → s < lba + sectors → peek w' s ≡ 0
      erase_sectors_zeroes ok lo hi =
          let (q, _, v, run', done) = erase_sectors-Erased d b lba sectors w allocated sized room in
          let same : v ≡ w' = cc in rw (← same) (done.zeroed (cc) s lo hi)

      -- With a buffer of at least one sector and a range that ends at 2 ^ 32 or before, whatever
      -- the erasure of the range returns, the sectors outside the range are as they were.
      pub erase_sectors_spares : (s < lba) ⊎ (lba + sectors ≤ s) → peek w' s ≡ peek w s
      erase_sectors_spares out =
          let (q, _, v, run', done) = erase_sectors-Erased d b lba sectors w allocated sized room in
          let same : v ≡ w' = cc in rw (← same) (done.spared s out)

-- Without a buffer (its allocation failed) no number of rounds ends the loop on a device that
-- accepts an empty write.
pub erase_loop_stuck :
    {W : Type 0} (a : Atad W) (fuel device lba sectors : ℕ) (buffer : Option Buffer) (res : RetCode)
    (w : W)
    → ((l : ℕ) (v : W) → (a.sector_write device buffer l 0 v).0 ≡ ret 0)
    → 0 < sectors
    → erase_loop a fuel buffer 0 device lba sectors res w ≡ none
unfolding erase_loop
erase_loop_stuck a zero device lba sectors buffer res w accepts pos = refl
erase_loop_stuck a (suc fuel) device lba sectors buffer res w accepts pos = ground (
  arith,
  accepts lba w,
  erase_loop_stuck a fuel device (add32 lba 0) (sectors - 0) buffer (ret 0)
      (a.sector_write device buffer lba 0 w).1 accepts,
)
