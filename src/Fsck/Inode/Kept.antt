-- ===== src/Fsck/Inode/Kept.antt =====
-- pfsInitDirEnt and fsckFillInode of fsck/fsck.c, and what is stable.
use hddchecker.Prelude.{ℕ, zero, suc, Bool, Option, RetCode}
use hddchecker.Fsck.Layout.{Mount, BlockInfo, Inode}
use hddchecker.Fsck.Device.{Pfs}
use hddchecker.Fsck.Run.{Env}
use hddchecker.Fsck.Run.Keeps.{Keeps, Stable, kept_rules}
use hddchecker.Fsck.Inode.{Walk}
use hddchecker.Fsck.Inode.{
  write_self_and_parent, set_length, fill_entries, init_dir_ent, fill_inode, remove_rest,
  read_dir_sectors, read_dir_blocks,
}

module _ {W : Type 0} (pfs : Pfs W) (m : Mount) {P : Option (Env W) → Type 0} (st : Stable P) where
  pub write_self_and_parent-Keeps :
      (link : ℕ) (number : ℕ) (sub : ℕ) → Keeps P (write_self_and_parent pfs m link number sub)
  unfolding write_self_and_parent
  write_self_and_parent-Keeps link number sub = search kept_rules depth 40 fits 4000

  pub set_length-Keeps : (link : ℕ) (at : ℕ) → Keeps P (set_length pfs m link at)
  unfolding set_length
  set_length-Keeps link at = search kept_rules depth 40 fits 4000

  pub fill_entries-Keeps :
      (link : ℕ) (number : ℕ) (sub : ℕ) (is_first : Bool)
      → Keeps P (fill_entries pfs m link number sub is_first)
  unfolding fill_entries
  fill_entries-Keeps link number sub is_first =
      search (kept_rules, write_self_and_parent-Keeps, set_length-Keeps) depth 40 fits 4000

  pub init_dir_ent-Keeps :
      (sub : ℕ) (inode : ℕ) (number : ℕ) (is_first : Bool)
      → Keeps P (init_dir_ent pfs m sub inode number is_first)
  unfolding init_dir_ent
  init_dir_ent-Keeps sub inode number is_first =
      search (kept_rules, fill_entries-Keeps) depth 40 fits 4000

  pub fill_inode-Keeps :
      (inode : ℕ) (link : ℕ) (blocks : ℕ) (entries : ℕ) (segdesg : ℕ)
      → Keeps P (fill_inode pfs m inode link blocks entries segdesg)
  unfolding fill_inode
  fill_inode-Keeps inode link blocks entries segdesg = search kept_rules depth 40 fits 4000

  pub remove_rest-Keeps :
      (inode : ℕ) (index : ℕ) (walk : Walk) (done : RetCode) (kept : RetCode)
      → Keeps P (remove_rest pfs m inode index walk done kept)
  unfolding remove_rest
  remove_rest-Keeps inode index walk done kept =
      search (kept_rules, fill_inode-Keeps) depth 40 fits 4000

  pub read_dir_sectors-Keeps :
      (ino : Inode) (index : ℕ) (i : ℕ) (start : ℕ) (b : BlockInfo) (n : ℕ) (sector : ℕ)
      (offset : ℕ)
      → Keeps P (read_dir_sectors pfs m ino index i start b n sector offset)
  unfolding read_dir_sectors
  read_dir_sectors-Keeps ino index i start b zero sector offset =
      search kept_rules depth 40 fits 4000
  read_dir_sectors-Keeps ino index i start b (suc n) sector offset =
      search
        (
          kept_rules,
          init_dir_ent-Keeps,
          (λ (a : Inode) (b : ℕ) (c : ℕ) (d : ℕ) (e : BlockInfo).
              read_dir_sectors-Keeps a b c d e n),
        )
        depth 40 fits 4000

  pub read_dir_blocks-Keeps :
      (ino : Inode) (index : ℕ) (i : ℕ) (b : BlockInfo) (n : ℕ) (offset : ℕ)
      → Keeps P (read_dir_blocks pfs m ino index i b n offset)
  unfolding read_dir_blocks
  read_dir_blocks-Keeps ino index i b zero offset = search kept_rules depth 40 fits 4000
  read_dir_blocks-Keeps ino index i b (suc n) offset =
      search
        (
          kept_rules,
          read_dir_sectors-Keeps,
          (λ (a : Inode) (b : ℕ) (c : ℕ) (d : BlockInfo). read_dir_blocks-Keeps a b c d n),
        )
        depth 40 fits 4000
