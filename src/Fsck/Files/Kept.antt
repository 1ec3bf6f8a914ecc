-- ===== src/Fsck/Files/Kept.antt =====
-- fsckCheckFiles of fsck/fsck.c, and what is stable.
use hddchecker.Prelude.{ℕ, zero, suc, Option, none}
use hddchecker.Fsck.Layout.{Mount, BlockPos, Inode, Entry}
use hddchecker.Fsck.Device.{Device, Pfs}
use hddchecker.Fsck.Run.{Env, Action}
use hddchecker.Fsck.Run.Keeps.{Keeps, Stable, OnCache, kept_rules}
use hddchecker.Fsck.Entries.Kept.{check_link_entry-Keeps, fix_entry-Keeps, fix_length-Keeps}
use hddchecker.Fsck.Segments.Kept.{check_dirent_inode-Keeps}
use hddchecker.Fsck.Files.{
  init_attribute, check_file_attribute, check_file, visit_file, visit_entry, check_entries,
  end_files, next_chunk, check_chunks, check_files_with, check_files, check_root,
}

module _ {W : Type 0} (dev : Device W) (pfs : Pfs W) (m : Mount) {P : Option (Env W) → Type 0}
    (st : Stable P) where
  pub init_attribute-Keeps : (sub : ℕ) (sector : ℕ) → Keeps P (init_attribute dev pfs m sub sector)
  unfolding init_attribute
  init_attribute-Keeps sub sector = search kept_rules depth 40 fits 4000

  pub check_file_attribute-Keeps : (link : ℕ) → Keeps P (check_file_attribute dev pfs m link)
  unfolding check_file_attribute
  check_file_attribute-Keeps link = search (kept_rules, init_attribute-Keeps) depth 40 fits 4000

module _ {W : Type 0} (dev : Device W) (pfs : Pfs W) (m : Mount) {P : Option (Env W) → Type 0}
    (st : Stable P) (ends : P none) (oc : OnCache P) where
  pub check_file-Keeps :
      (check_dir : ℕ → ℕ → Action W (Unit {0})) (parent : ℕ) (link : ℕ) (e : Entry)
      → ((p i : ℕ) → Keeps P (check_dir p i))
      → Keeps P (check_file dev pfs m check_dir parent link e)
  unfolding check_file
  check_file-Keeps check_dir parent link e h =
      search (kept_rules, check_file_attribute-Keeps, check_dirent_inode-Keeps) depth 40 fits 4000

  pub visit_file-Keeps :
      (check_dir : ℕ → ℕ → Action W (Unit {0})) (inode : ℕ) (chunk : ℕ) (at : ℕ) (e : Entry)
      → ((p i : ℕ) → Keeps P (check_dir p i))
      → Keeps P (visit_file dev pfs m check_dir inode chunk at e)
  unfolding visit_file
  visit_file-Keeps check_dir inode chunk at e h =
      search (kept_rules, fix_entry-Keeps, check_file-Keeps) depth 40 fits 4000

  pub visit_entry-Keeps :
      (check_dir : ℕ → ℕ → Action W (Unit {0})) (parent : ℕ) (inode : ℕ) (chunk : ℕ) (at : ℕ)
      → ((p i : ℕ) → Keeps P (check_dir p i))
      → Keeps P (visit_entry dev pfs m check_dir parent inode chunk at)
  unfolding visit_entry
  visit_entry-Keeps check_dir parent inode chunk at h =
      search (kept_rules, check_link_entry-Keeps, visit_file-Keeps) depth 40 fits 4000

  pub check_entries-Keeps :
      (fuel : ℕ) (check_dir : ℕ → ℕ → Action W (Unit {0})) (parent : ℕ) (inode : ℕ) (chunk : ℕ)
      (end : ℕ) (at : ℕ) (offset : ℕ)
      → ((p i : ℕ) → Keeps P (check_dir p i))
      → Keeps P (check_entries dev pfs m fuel check_dir parent inode chunk end at offset)
  unfolding check_entries
  check_entries-Keeps zero check_dir parent inode chunk end at offset h =
      search kept_rules depth 40 fits 4000
  check_entries-Keeps (suc fuel) check_dir parent inode chunk end at offset h =
      search (kept_rules, fix_length-Keeps, visit_entry-Keeps, check_entries-Keeps fuel) depth 40
        fits 4000

module _ {W : Type 0} (dev : Device W) (pfs : Pfs W) (m : Mount) {P : Option (Env W) → Type 0}
    (st : Stable P) where
  pub end_files-Keeps : (chunk : ℕ) (pos : BlockPos) → Keeps P (end_files dev pfs m chunk pos)
  unfolding end_files
  end_files-Keeps chunk pos = search kept_rules depth 40 fits 4000

  pub next_chunk-Keeps :
      (ino : Inode) (chunk : ℕ) (at : ℕ) (pos : BlockPos)
      → Keeps P (next_chunk dev pfs m ino chunk at pos)
  unfolding next_chunk
  next_chunk-Keeps ino chunk at pos = search (kept_rules, end_files-Keeps) depth 40 fits 4000

module _ {W : Type 0} (dev : Device W) (pfs : Pfs W) (m : Mount) {P : Option (Env W) → Type 0}
    (st : Stable P) (ends : P none) (oc : OnCache P) where
  pub check_chunks-Keeps :
      (fuel : ℕ) (check_dir : ℕ → ℕ → Action W (Unit {0})) (parent : ℕ) (inode : ℕ) (chunk : ℕ)
      (at : ℕ) (pos : BlockPos) (offset : ℕ)
      → ((p i : ℕ) → Keeps P (check_dir p i))
      → Keeps P (check_chunks dev pfs m fuel check_dir parent inode chunk at pos offset)
  unfolding check_chunks
  check_chunks-Keeps zero check_dir parent inode chunk at pos offset h =
      search kept_rules depth 40 fits 4000
  check_chunks-Keeps (suc fuel) check_dir parent inode chunk at pos offset h =
      search
        (
          kept_rules,
          end_files-Keeps,
          next_chunk-Keeps,
          check_entries-Keeps,
          check_chunks-Keeps fuel,
        )
        depth 40 fits 4000

  pub check_files_with-Keeps :
      (check_dir : ℕ → ℕ → Action W (Unit {0})) (parent : ℕ) (inode : ℕ)
      → ((p i : ℕ) → Keeps P (check_dir p i))
      → Keeps P (check_files_with dev pfs m check_dir parent inode)
  unfolding check_files_with
  check_files_with-Keeps check_dir parent inode h =
      search (kept_rules, check_chunks-Keeps) depth 40 fits 4000

  pub check_files-Keeps :
      (levels : ℕ) (parent : ℕ) (inode : ℕ) → Keeps P (check_files dev pfs m levels parent inode)
  unfolding check_files
  check_files-Keeps zero parent inode = search kept_rules depth 40 fits 4000
  check_files-Keeps (suc levels) parent inode =
      search (kept_rules, check_files_with-Keeps, check_files-Keeps levels) depth 40 fits 4000

  pub check_root-Keeps : Keeps P (check_root dev pfs m)
  unfolding check_root
  check_root-Keeps = search (kept_rules, check_dirent_inode-Keeps) depth 40 fits 4000
