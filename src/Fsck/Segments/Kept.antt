-- ===== src/Fsck/Segments/Kept.antt =====
-- fsckCheckDirentryInode of fsck/fsck.c, and what is stable.
use hddchecker.Prelude.{ℕ, zero, suc, Option, none, RetCode}
use hddchecker.Fsck.Layout.{Mount, BlockInfo, Inode}
use hddchecker.Fsck.Device.{Device, Pfs}
use hddchecker.Fsck.Run.{Env}
use hddchecker.Fsck.Run.Keeps.{Keeps, Stable, OnCache, kept_rules}
use hddchecker.Fsck.Inode.{Walk}
use hddchecker.Fsck.Inode.Kept.{remove_rest-Keeps, read_dir_blocks-Keeps}
use hddchecker.Fsck.FileBitmap.Kept.{check_file_bitmap-Keeps}
use hddchecker.Fsck.Segments.{
  read_file_blocks, claim_zones, read_segment, check_segment, next_segment, end_walk,
  check_segments, check_dirent_inode,
}

module _ {W : Type 0} (dev : Device W) (pfs : Pfs W) (m : Mount) {P : Option (Env W) → Type 0}
    (st : Stable P) where
  pub read_file_blocks-Keeps :
      (inode : ℕ) (index : ℕ) (walk : Walk) (b : BlockInfo) (i : ℕ) (n : ℕ)
      → Keeps P (read_file_blocks dev pfs m inode index walk b i n)
  unfolding read_file_blocks
  read_file_blocks-Keeps inode index walk b i zero = search kept_rules depth 40 fits 4000
  read_file_blocks-Keeps inode index walk b i (suc n) =
      search
        (
          kept_rules,
          remove_rest-Keeps,
          (λ (a : ℕ) (b : ℕ) (c : Walk) (d : BlockInfo) (e : ℕ).
              read_file_blocks-Keeps a b c d e n),
        )
        depth 40 fits 4000

module _ {W : Type 0} (dev : Device W) (pfs : Pfs W) (m : Mount) {P : Option (Env W) → Type 0}
    (st : Stable P) (ends : P none) (oc : OnCache P) where
  pub claim_zones-Keeps :
      (inode : ℕ) (index : ℕ) (walk : Walk) (b : BlockInfo)
      → Keeps P (claim_zones dev pfs m inode index walk b)
  unfolding claim_zones
  claim_zones-Keeps inode index walk b =
      search (kept_rules, check_file_bitmap-Keeps, remove_rest-Keeps) depth 40 fits 4000

module _ {W : Type 0} (dev : Device W) (pfs : Pfs W) (m : Mount) {P : Option (Env W) → Type 0}
    (st : Stable P) where
  pub read_segment-Keeps :
      (inode : ℕ) (ino : Inode) (index : ℕ) (walk : Walk) (b : BlockInfo)
      → Keeps P (read_segment dev pfs m inode ino index walk b)
  unfolding read_segment
  read_segment-Keeps inode ino index walk b =
      search (kept_rules, read_dir_blocks-Keeps, read_file_blocks-Keeps) depth 40 fits 4000

module _ {W : Type 0} (dev : Device W) (pfs : Pfs W) (m : Mount) {P : Option (Env W) → Type 0}
    (st : Stable P) (ends : P none) (oc : OnCache P) where
  pub check_segment-Keeps :
      (inode : ℕ) (ino : Inode) (index : ℕ) (walk : Walk) (b : BlockInfo)
      → Keeps P (check_segment dev pfs m inode ino index walk b)
  unfolding check_segment
  check_segment-Keeps inode ino index walk b =
      search (kept_rules, remove_rest-Keeps, read_segment-Keeps, claim_zones-Keeps) depth 40 fits
        4000

module _ {W : Type 0} (dev : Device W) (pfs : Pfs W) (m : Mount) {P : Option (Env W) → Type 0}
    (st : Stable P) (ends : P none) where
  pub next_segment-Keeps : (walk : Walk) → Keeps P (next_segment dev pfs m walk)
  unfolding next_segment
  next_segment-Keeps walk = search kept_rules depth 40 fits 4000

module _ {W : Type 0} (dev : Device W) (pfs : Pfs W) (m : Mount) {P : Option (Env W) → Type 0}
    (st : Stable P) where
  pub end_walk-Keeps : (link : Option ℕ) (r : RetCode) → Keeps P (end_walk dev pfs m link r)
  unfolding end_walk
  end_walk-Keeps link r = search kept_rules depth 40 fits 4000

module _ {W : Type 0} (dev : Device W) (pfs : Pfs W) (m : Mount) {P : Option (Env W) → Type 0}
    (st : Stable P) (ends : P none) (oc : OnCache P) where
  pub check_segments-Keeps :
      (inode : ℕ) (ino : Inode) (n : ℕ) (index : ℕ) (walk : Walk)
      → Keeps P (check_segments dev pfs m inode ino n index walk)
  unfolding check_segments
  check_segments-Keeps inode ino zero index walk = search kept_rules depth 40 fits 4000
  check_segments-Keeps inode ino (suc n) index walk =
      search
        (
          kept_rules,
          check_segment-Keeps,
          next_segment-Keeps,
          end_walk-Keeps,
          (λ (a : ℕ) (b : Inode). check_segments-Keeps a b n),
        )
        depth 40 fits 4000

  pub check_dirent_inode-Keeps : (inode : ℕ) → Keeps P (check_dirent_inode dev pfs m inode)
  unfolding check_dirent_inode
  check_dirent_inode-Keeps inode = search (kept_rules, check_segments-Keeps) depth 40 fits 4000
