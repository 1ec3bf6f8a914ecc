-- ===== src/Fsck/Entries/Chain.antt =====
-- The entries in front of one in its block of 512 bytes, which fsckFixDEntry of fsck/fsck.c walks.
use hddchecker.Prelude.{ℕ, zero, suc, ◌+◌, ◌*◌, ◌/◌, ◌≤◌, ◌≡◌, sym, subst, arith}
use hddchecker.Fsck.Layout.{Entry}
use hddchecker.Fsck.Device.{Pfs}
use hddchecker.Fsck.Run.{Env}
use hddchecker.Fsck.Run.Settled.{IsQuiet}
use hddchecker.Fsck.Entries.{entry_length}

-- From the offset `here`, `n` entries of at least 8 bytes, which is the shortest an entry can be,
-- lead to `at`.
abbrev pub Reaches : ℕ → (ℕ → Entry) → ℕ → ℕ → Type 0
Reaches zero v at here = here ≡ at
Reaches (suc n) v at here =
    (8 ≤ entry_length (v here)) × Reaches n v at (here + entry_length (v here))

pub Reaches-le : (n : ℕ) (v : ℕ → Entry) (at here : ℕ) → Reaches n v at here → here + n * 8 ≤ at
Reaches-le zero v at here h = omega arith
Reaches-le (suc n) v at here h =
    let rest = Reaches-le n v at (here + entry_length (v here)) h.1 in
    let least = h.0 in omega arith

-- They look at nothing that begins less than 8 bytes in front of `at`.
pub Reaches-same :
    (n : ℕ) (u v : ℕ → Entry) (at here : ℕ)
    → ((o : ℕ) → o + 8 ≤ at → u o ≡ v o)
    → Reaches n v at here
    → Reaches n u at here
Reaches-same zero u v at here same h = h
Reaches-same (suc n) u v at here same h =
    let le = Reaches-le (suc n) v at here h in
    let eq : u here ≡ v here = same here (omega arith) in
    subst (λ e. (8 ≤ entry_length e) × Reaches n u at (here + entry_length e)) (sym eq)
      (h.0, Reaches-same n u v at (here + entry_length (v here)) same h.1)

module _ {W : Type 0} (pfs : Pfs W) where
  abbrev pub entry_at : W → ℕ → ℕ → Entry
  entry_at w link o = (pfs.get_entry link o w).0

  -- A chunk of entries in memory: a read changes none, a write only what begins less than the 8
  -- bytes of an entry's fields in front of it, and the flag of the buffer is no entry.
  pub record EntryLaws : Type 0 where
    pub reads :
        (link at l o : ℕ) (w : W) → entry_at (pfs.get_entry link at w).1 l o ≡ entry_at w l o
    pub puts :
        (link at o : ℕ) (e : Entry) (w : W)
        → o + 8 ≤ at
        → entry_at (pfs.put_entry link at e w).1 link o ≡ entry_at w link o
    pub marks : (link l o : ℕ) (w : W) → entry_at (pfs.mark_dirty link w).1 l o ≡ entry_at w l o

  -- The entry at `at` is in the chain of entries of its block.
  abbrev pub InChain : ℕ → ℕ → W → Type 0
  InChain link at w = (n : ℕ) × Reaches n (entry_at w link) at (at / 512 * 512)

  -- The same of a state in a mode in which no key is read.
  abbrev pub IsQuietChain : ℕ → ℕ → Env W → Type 0
  IsQuietChain link at s = IsQuiet s × InChain link at s.world
