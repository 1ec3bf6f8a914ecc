-- ===== src/Fsck/Entries/Kept.antt =====
-- fsckFixDEntry and the repairs of entries of fsck/fsck.c, and what is stable.
use hddchecker.Prelude.{ℕ, zero, suc, Option, none}
use hddchecker.Fsck.Layout.{Entry}
use hddchecker.Fsck.Device.{Pfs}
use hddchecker.Fsck.Run.{Env}
use hddchecker.Fsck.Run.Keeps.{Keeps, Stable, kept_rules}
use hddchecker.Fsck.Entries.{
  clear_inode, drop_entry, fix_from, fix_entry, check_link_entry, fix_alignment, grow_entry,
  fix_short, fix_long, fix_length,
}

module _ {W : Type 0} (pfs : Pfs W) {P : Option (Env W) → Type 0} (st : Stable P) where
  pub clear_inode-Keeps : (link : ℕ) (at : ℕ) → Keeps P (clear_inode pfs link at)
  unfolding clear_inode
  clear_inode-Keeps link at = search kept_rules depth 40 fits 4000

  pub drop_entry-Keeps :
      (link : ℕ) (at : ℕ) (before : Option ℕ) → Keeps P (drop_entry pfs link at before)
  unfolding drop_entry
  drop_entry-Keeps link at before = search kept_rules depth 40 fits 4000

module _ {W : Type 0} (pfs : Pfs W) {P : Option (Env W) → Type 0} (st : Stable P)
    (ends : P none) where
  pub fix_from-Keeps :
      (fuel : ℕ) (link : ℕ) (at : ℕ) (here : ℕ) (before : Option ℕ) (offset : ℕ)
      → Keeps P (fix_from pfs fuel link at here before offset)
  unfolding fix_from
  fix_from-Keeps zero link at here before offset = search kept_rules depth 40 fits 4000
  fix_from-Keeps (suc fuel) link at here before offset =
      search (kept_rules, drop_entry-Keeps, fix_from-Keeps fuel) depth 40 fits 4000

  pub fix_entry-Keeps : (link : ℕ) (at : ℕ) → Keeps P (fix_entry pfs link at)
  unfolding fix_entry
  fix_entry-Keeps link at = search (kept_rules, fix_from-Keeps) depth 40 fits 4000

module _ {W : Type 0} (pfs : Pfs W) {P : Option (Env W) → Type 0} (st : Stable P) where
  pub check_link_entry-Keeps :
      (inode : ℕ) (link : ℕ) (at : ℕ) → Keeps P (check_link_entry pfs inode link at)
  unfolding check_link_entry
  check_link_entry-Keeps inode link at = search kept_rules depth 40 fits 4000

  pub fix_alignment-Keeps :
      (link : ℕ) (at : ℕ) (room : ℕ) → Keeps P (fix_alignment pfs link at room)
  unfolding fix_alignment
  fix_alignment-Keeps link at room = search kept_rules depth 40 fits 4000

module _ {W : Type 0} (pfs : Pfs W) {P : Option (Env W) → Type 0} (st : Stable P)
    (ends : P none) where
  pub grow_entry-Keeps :
      (link : ℕ) (at : ℕ) (room : ℕ) (e : Entry) → Keeps P (grow_entry pfs link at room e)
  unfolding grow_entry
  grow_entry-Keeps link at room e =
      search (kept_rules, fix_entry-Keeps, clear_inode-Keeps) depth 40 fits 4000

  pub fix_short-Keeps :
      (link : ℕ) (at : ℕ) (room : ℕ) (size : ℕ) → Keeps P (fix_short pfs link at room size)
  unfolding fix_short
  fix_short-Keeps link at room size = search (kept_rules, grow_entry-Keeps) depth 40 fits 4000

  pub fix_long-Keeps :
      (link : ℕ) (at : ℕ) (room : ℕ) (size : ℕ) → Keeps P (fix_long pfs link at room size)
  unfolding fix_long
  fix_long-Keeps link at room size =
      search (kept_rules, fix_entry-Keeps, clear_inode-Keeps) depth 40 fits 4000

  pub fix_length-Keeps : (link : ℕ) (at : ℕ) (room : ℕ) → Keeps P (fix_length pfs link at room)
  unfolding fix_length
  fix_length-Keeps link at room =
      search (kept_rules, fix_alignment-Keeps, fix_short-Keeps, fix_long-Keeps) depth 40 fits 4000
