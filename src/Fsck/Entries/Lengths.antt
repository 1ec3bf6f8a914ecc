-- ===== src/Fsck/Entries/Lengths.antt =====
-- On the repairs of the length of an entry in fsckCheckFiles, and on fsckFixDEntry, of fsck/fsck.c.
use hddchecker.Prelude.{ℕ, ◌<◌, ◌≤◌, ◌⊎◌}
use hddchecker.Fsck.Device.{Pfs}
use hddchecker.Fsck.Run.{Env}
use hddchecker.Fsck.Run.Leads.{Leads}
use hddchecker.Fsck.Run.Settled.{IsQuiet}
use hddchecker.Fsck.Entries.Chain.{Reaches, EntryLaws, entry_at, InChain, IsQuietChain}

-- The length of an entry, at least 1 and at most the room.
abbrev pub IsLength : ℕ → ℕ → Type 0
IsLength room size = (0 < size) × (size ≤ room)

module _ {W : Type 0} (pfs : Pfs W) (laws : EntryLaws pfs) (link at : ℕ) where
  abbrev P : Env W → Type 0
  P = IsQuietChain pfs link at

  -- The walk from an entry of the chain.
  abbrev OnWalk : ℕ → ℕ → Env W → Type 0
  OnWalk n here s = IsQuiet s × Reaches n (entry_at pfs s.world link) at here

  -- What the second repair gives: the room, or a length that the third may repair.
  abbrev IsGrown : ℕ → ℕ → Env W → Type 0
  IsGrown room n s = (IsQuiet s × ((n ≤ room) ⊎ InChain pfs link at s.world)) × (0 < n)
