-- ===== src/Hdsk/Stat/Filling.antt =====
-- The loops of hdskSimGetFreeSectors over the sectors behind the partitions.
use native.Mathlib.Nat.{suc-mul}
use hddchecker.Prelude.{
  ℕ, zero, suc, ◌+◌, ◌*◌, ◌/◌, ◌%◌, ◌≡◌, ◌≢◌, ◌≤◌, ◌<◌, ◌∙◌, refl, true, false, Option, some, arith,
  ℕ_discrete, ◌==◌, add32, u32_mod,
}
use hddchecker.Hdsk.Stat.{Device, Room, add_free, fitting_size, fill_room}

-- A size that fits: it is at least the least one, the sectors are a multiple of it, and it ends in
-- front of the end of the disk.
abbrev IsFitting : ℕ → ℕ → ℕ → Type 0
IsFitting size sectors total = (262144 ≤ size) × (sectors % size ≡ 0) × (sectors + size < total)

fitting_size-IsFitting :
    (bits size sectors total : ℕ)
    → fitting_size bits size sectors total ≢ 0
    → IsFitting (fitting_size bits size sectors total) sectors total
unfolding fitting_size
fitting_size-IsFitting zero size sectors total found = absurd (found refl)
fitting_size-IsFitting (suc bits) size sectors total found =
    ground (arith, fitting_size-IsFitting bits (size / 2) sectors total)

-- How the filling of a room ends.
abbrev pub EndsFilled : Device → Room → Option Room → Type 0
EndsFilled d r o =
    (r' : Room) × (o ≡ some r')
    × (r.sectors ≤ r'.sectors)
    × (r'.sectors < d.total_lba)
    × (fitting_size 32 d.partition_max_size r'.sectors d.total_lba ≡ 0)

abbrev filled : ℕ → Room → Room
filled size r = record { sectors = add32 r.sectors size; free = add_free size r.free }

fill_more :
    (fuel : ℕ) (d : Device) (r : Room)
    → fitting_size 32 d.partition_max_size r.sectors d.total_lba ≢ 0
    → fill_room (suc fuel) d r
      ≡ fill_room fuel d (filled (fitting_size 32 d.partition_max_size r.sectors d.total_lba) r)
unfolding fill_room
fill_more fuel d r fits =
    let more : (fitting_size 32 d.partition_max_size r.sectors d.total_lba == 0) ≡ false =
      ground arith in
    rw (more, fill_room) refl

filled_on :
    (fuel : ℕ) (d : Device) (r : Room) (size : ℕ)
    → d.total_lba ≤ u32_mod
    → d.total_lba ≤ r.sectors + suc fuel * 262144
    → IsFitting size r.sectors d.total_lba
    → (d.total_lba ≤ (filled size r).sectors + fuel * 262144)
      × ((filled size r).sectors < d.total_lba)
      × (r.sectors ≤ (filled size r).sectors)
filled_on fuel d r size small enough (least, whole, inside) =
    let more = suc-mul fuel 262144 in (omega arith, omega arith, omega arith)

fill_done :
    (fuel : ℕ) (d : Device) (r : Room)
    → r.sectors < d.total_lba
    → fitting_size 32 d.partition_max_size r.sectors d.total_lba ≡ 0
    → EndsFilled d r (fill_room (suc fuel) d r)
unfolding fill_room
fill_done fuel d r inside none_fits =
    let ended : (fitting_size 32 d.partition_max_size r.sectors d.total_lba == 0) ≡ true =
      ground arith in
    (r, rw (ended, fill_room) refl, omega arith, inside, none_fits)

-- On a disk of at most 2 ^ 32 sectors the filling of the room behind the partitions ends, with a
-- round for each 262144 sectors that are left and one to end; the sectors that it counts stay on
-- the disk, and no size fits behind them.
pub fill_room_total :
    (fuel : ℕ) (d : Device) (r : Room)
    → d.total_lba ≤ u32_mod
    → d.total_lba ≤ r.sectors + fuel * 262144
    → r.sectors < d.total_lba
    → EndsFilled d r (fill_room (suc fuel) d r)
fill_room_total zero d r small enough inside =
    elim (ℕ_discrete (fitting_size 32 d.partition_max_size r.sectors d.total_lba) 0) [
      | yes none_fits ↦ fill_done 0 d r inside none_fits
      | no fits ↦
          let (least, whole, end) =
            fitting_size-IsFitting 32 d.partition_max_size r.sectors d.total_lba fits in
          absurd (omega arith)
    ]
fill_room_total (suc fuel) d r small enough inside =
    elim (ℕ_discrete (fitting_size 32 d.partition_max_size r.sectors d.total_lba) 0) [
      | yes none_fits ↦ fill_done (suc fuel) d r inside none_fits
      | no fits ↦
          let size = fitting_size 32 d.partition_max_size r.sectors d.total_lba in
          let (enough', inside', up) =
            filled_on fuel d r size small enough
              (fitting_size-IsFitting 32 d.partition_max_size r.sectors d.total_lba fits) in
          let (r', run, up', inside2, none_fits) =
            fill_room_total fuel d (filled size r) small enough' inside' in
          (r', fill_more (suc fuel) d r fits ∙ run, omega arith, inside2, none_fits)
    ]
