-- ===== src/Hdsk/Swap/Tests.antt =====
-- Sub-partition 8 of partition 4 moves to the empty partition at 16.
use hddchecker.Prelude.{
  ℕ, ◌≡◌, ◌≢◌, ◌<◌, refl, true, false, none, some, [], ◌∷◌, arith, ◌==◌, if◌then◌else◌, ret, err,
  eio,
}
use hddchecker.Hdck.{Header}
use hddchecker.Hdck.Repairs.{sub_at}
use hddchecker.Hdck.Samples.{Table, header, at, library, library-LibraryLaws}
use hddchecker.Hdsk.Swap.{swap_headers}
use hddchecker.Hdsk.Swap.Moved.{swap_sub_moves}

abbrev owner : Header
owner = record (header 4 8 0) { nsub = 2; subs = (8, 4) ∷ (12, 4) ∷ [] }

abbrev owned : Header
owned = record (header 8 12 4) { is_sub = true; main = 4; number = 1 }

abbrev spare : Header
spare = record (header 16 0 12) { kind = 0 }

abbrev table : Table
table = (
  header 0 4 16,
  λ lba.
      if lba == 4
      then some owner
      else if lba == 8
      then some owned
      else if lba == 16
      then some spare
      else none,
)

none_before : (j : ℕ) → j < 0 → (sub_at j owner.subs).0 ≢ 8
none_before j lt e = absurd (omega arith)

swap_sub_moves_example :
    let r = swap_headers library 16 8 (err eio) table in
    (r.0 ≡ ret 0)
    × ((g : Header) × (at r.1 4 ≡ some g)
        × (g ≡ record owner { subs = g.subs })
        × (sub_at 0 g.subs ≡ (16, 4))
        × ((j : ℕ) → j ≢ 0 → sub_at j g.subs ≡ sub_at j owner.subs))
    × (at r.1 8 ≡ some (record owned { is_sub = false; main = 0; number = 0 }))
    × (at r.1 16 ≡ some (record owned { start = 16; next = 0; prev = 12 }))
    × ((l : ℕ) → l ≢ 4 → l ≢ 8 → l ≢ 16 → at r.1 l ≡ at table l)
swap_sub_moves_example =
    swap_sub_moves library at library-LibraryLaws 16 8 0 spare owned owner (err eio) table refl refl
      refl (omega arith) (omega arith) (omega arith) refl (omega arith) (omega arith) refl
      none_before
