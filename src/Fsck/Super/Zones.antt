-- ===== src/Fsck/Super/Zones.antt =====
-- On CheckSuperBlock of fsck/fsck.c: its end, the fields that it accepts, and ZoneMap.
use hddchecker.Prelude.{ℕ, suc, ◌-◌, ◌/◌, ◌^◌, ◌≤◌, ◌<◌, ◌≡◌, false, RetCode, is_neg, add32}
use Prim.Native.Nat.{bit_and}
use hddchecker.Fsck.Layout.{Super, Mount}
use hddchecker.Fsck.Device.{Device}
use hddchecker.Fsck.Run.{Env}
use hddchecker.Fsck.Run.Leads.{Leads}
use hddchecker.Fsck.Run.Settled.{IsQuiet}
use hddchecker.Fsck.Super.{count_zone}

-- The map at the first `n` sub-partitions: each begins where the one before it ends.
abbrev pub IsMapped : ℕ → Mount → Type 0
IsMapped n m =
    (i : ℕ)
    → suc i < n
    → m.zone_map (suc i) ≡ add32 (m.zone_sizes i / 2 ^ m.sector_scale) (m.zone_map i)

count_zone-IsMapped :
    (n sub free : ℕ) (m : Mount) → IsMapped n m → IsMapped n (count_zone sub free m)
count_zone-IsMapped n sub free m h = h

-- What the loop over the sub-partitions makes of a mount.
abbrev IsMapOf : ℕ → Mount → Mount → Type 0
IsMapOf t m m' = IsMapped t m' × (m'.num_subs ≡ m.num_subs) × (m'.zsize ≡ m.zsize)

-- A mount with a zone size from 2048 to 131072 that is a power of two, and the map of all its
-- sub-partitions.
abbrev pub IsOpened : Mount → Type 0
IsOpened m =
    (2048 ≤ m.zsize)
    × (m.zsize ≤ 131072)
    × (bit_and m.zsize (m.zsize - 1) ≡ 0)
    × IsMapped (suc m.num_subs) m

-- The device has held a super block in its buffer: its magic is "PFS" and a zero, 0x50465300.
abbrev pub HasSuper : {W : Type 0} → Device W → Type 0
HasSuper {W} dev = (w : W) × (((dev.get_super w).0).magic ≡ 0x50465300)

-- The result of the opening: an error, or a mount as above of such a device.
abbrev pub IsOpening : {W : Type 0} → Device W → RetCode × Mount → Env W → Type 0
IsOpening dev r s = is_neg r.0 ≡ false → HasSuper dev × IsOpened r.1

module _ {W : Type 0} (dev : Device W) where
  -- Where the search for a super block gives no error, the buffer has held one.
  abbrev Finds : RetCode → Env W → Type 0
  Finds r s = IsQuiet s × (is_neg r ≡ false → HasSuper dev)
