-- ===== src/Fsck/Entries.antt =====
-- fsckCheckSelfEntry, fsckCheckParentEntry, fsckFixDEntry and the repairs of the length of an entry
-- in fsckCheckFiles of fsck/fsck.c. A pointer to an entry is its offset in a chunk of 1024 bytes.
pub mod Chain
pub mod Kept
pub mod Lengths
mod Tests
use hddchecker.Prelude.{
  ℕ, zero, suc, ◌+◌, ◌-◌, ◌*◌, ◌/◌, ◌%◌, ◌^◌, Bool, true, false, not, ◌&&◌, ◌||◌, ltb, leb, ◌==◌,
  if◌then◌else◌, RetCode, ret, err, eio, is_neg, is_zero, add32, Option, none, some,
}
use Prim.Native.Nat.{bit_or}
use hddchecker.Fsck.Layout.{
  Mount, BlockInfo, Inode, Entry, BlockPos, Fetched, shl, is_dir, is_reg, type_bits, dentry_size,
}
use hddchecker.Fsck.Device.{Device, Pfs}
use hddchecker.Fsck.Run.{
  Action, Status, pure, io, gives_up, on_option, on_fetched, ◌>>=◌, ◌>>◌, prompt, mark_error,
  get_status, set_status, stopped,
}

-- `aLen & 0x0FFF`, `(aLen & 0xF000) | size` with a size below 4096, and the room that a name needs.
abbrev pub entry_length : Entry → ℕ
entry_length e = e.a_len % 4096

abbrev pub set_size : Entry → ℕ → Entry
set_size e size = record e { a_len = type_bits e.a_len + size }

abbrev pub needed : Entry → ℕ
needed e = (e.p_len + 11) / 4 * 4

-- The entry in front takes over the length of the entry that is dropped: the sum may reach into the
-- type bits.
abbrev pub absorb : Entry → ℕ → Entry
absorb e len = record e { a_len = bit_or (type_bits e.a_len) (entry_length e + len) % 65536 }

module _ {W : Type 0} (pfs : Pfs W) where
  pub clear_inode : ℕ → ℕ → Action W (Unit {0})
  clear_inode link at = do
    e ← io (pfs.get_entry link at)
    io (pfs.put_entry link at (record e { inode = 0 }))

  -- The entry at `at` is dropped: the entry in front of it grows, and the first of a block is emptied.
  pub drop_entry : ℕ → ℕ → Option ℕ → Action W (Unit {0})
  drop_entry link at before = do
    e ← io (pfs.get_entry link at)
    on_option before (io (pfs.put_entry link at (record e { inode = 0; p_len = 0 }))) (λ prev. do
      front ← io (pfs.get_entry link prev)
      io (pfs.put_entry link prev (absorb front (entry_length e))))
    io (pfs.mark_dirty link)

  -- The loop of fsckFixDEntry over the entries of a block of 512 bytes. An entry of length 0 in it
  -- would hold it for ever; that run has no value.
  pub fix_from : ℕ → ℕ → ℕ → ℕ → Option ℕ → ℕ → Action W (Unit {0})
  unfolding drop_entry
  fix_from zero link at here before offset = gives_up
  fix_from (suc fuel) link at here before offset =
      if leb dentry_size offset
      then pure tt
      else if here == at
      then drop_entry link at before
      else do
        e ← io (pfs.get_entry link here)
        let len = entry_length e
        fix_from fuel link at (here + len) (some here) (offset + len)

  -- fsckFixDEntry
  pub fix_entry : ℕ → ℕ → Action W (Unit {0})
  unfolding fix_from
  fix_entry link at = fix_from (suc dentry_size) link at (at / 512 * 512) none 0

  -- fsckCheckSelfEntry and fsckCheckParentEntry: `inode` is the buffer that the entry must name.
  pub check_link_entry : ℕ → ℕ → ℕ → Action W (Unit {0})
  check_link_entry inode link at = do
    e ← io (pfs.get_entry link at)
    sub ← io (pfs.get_sub inode)
    ino ← io (pfs.get_inode inode)
    if (sub == e.sub) && (ino.inode_block.number == e.inode) then pure tt else do
      agreed ← prompt true
      if agreed
          then io (
              pfs.put_entry link at
                (record e { sub = ino.inode_block.subpart % 256; inode = ino.inode_block.number }))
            >> io (pfs.mark_dirty link)
          else pure tt

  -- The three repairs of a length in the loop of fsckCheckFiles, `room` bytes before its end. Each
  -- gives the length to go on with.
  pub fix_alignment : ℕ → ℕ → ℕ → Action W ℕ
  fix_alignment link at room = do
    e ← io (pfs.get_entry link at)
    if entry_length e % 4 == 0 then pure (entry_length e) else do
      agreed ← prompt true
      if agreed
          then io (pfs.put_entry link at (set_size e room)) >> io (pfs.mark_dirty link) >> pure room
          else pure room

  pub grow_entry : ℕ → ℕ → ℕ → Entry → Action W (Unit {0})
  unfolding fix_entry clear_inode
  grow_entry link at room e = do
    agreed ← prompt true
    if not agreed
        then clear_inode link at
        else if ltb (needed e) room
        then io (pfs.put_entry link at (set_size e room)) >> io (pfs.mark_dirty link)
        else fix_entry link at >> clear_inode link at

  pub fix_short : ℕ → ℕ → ℕ → ℕ → Action W ℕ
  unfolding grow_entry
  fix_short link at room size = do
    e ← io (pfs.get_entry link at)
    if ltb size (needed e) then grow_entry link at room e >> pure room else pure size

  pub fix_long : ℕ → ℕ → ℕ → ℕ → Action W ℕ
  unfolding fix_entry clear_inode
  fix_long link at room size =
      if ltb room size
      then (do
        agreed ← prompt true
        if agreed then fix_entry link at else pure tt
        clear_inode link at
        pure room)
      else pure size

  pub fix_length : ℕ → ℕ → ℕ → Action W ℕ
  unfolding fix_alignment fix_short fix_long
  fix_length link at room = do
    aligned ← fix_alignment link at room
    long_enough ← fix_short link at room aligned
    fix_long link at room long_enough
