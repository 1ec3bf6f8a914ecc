-- ===== src/Hdck/Repairs/Laws.antt =====
-- What the theorems on the repairs of the partition table ask of the library's calls.
use hddchecker.Prelude.{ℕ, ◌≡◌, ◌≢◌, ◌∙◌, true, Option, some, ◌==◌, if◌then◌else◌}
use hddchecker.Hdck.{Header, Apa, save}
use hddchecker.Hdck.Links.{ApaLaws}
use hddchecker.Hdck.Repairs.{Library}

-- A header that is held is the one at its address; an entry is given for every address, and it and
-- apaRemovePartition change nothing at another address; a flush changes no header in the cache.
pub record LibraryLaws {W : Type 0} (lib : Library W) (at : W → ℕ → Option Header) : Type 0 where
  pub cache : ApaLaws lib.apa at
  pub held : (lba : ℕ) (h : Header) (w : W) → at w lba ≡ some h → lib.peek lba w ≡ h
  pub claims : (lba : ℕ) (w : W) → (lib.claim lba w).0 ≡ true
  pub claim_keeps : (lba l : ℕ) (w : W) → l ≢ lba → at (lib.claim lba w).1 l ≡ at w l
  pub remove_keeps :
      (start next prev length l : ℕ) (w : W)
      → l ≢ start
      → at (lib.remove_partition start next prev length w).1 l ≡ at w l
  pub flush_all_keeps : (l : ℕ) (w : W) → at (lib.flush_all w) l ≡ at w l

module _ {W : Type 0} (apa : Apa W) (at : W → ℕ → Option Header) (laws : ApaLaws apa at) where
  -- What a header that is changed and written leaves at each address.
  pub save_at :
      (lba l : ℕ) (h : Header) (w : W)
      → at (save apa lba h w) l ≡ (if l == lba then some h else at w l)
  save_at lba l h w = laws.flush_keeps lba l (apa.put lba h w) ∙ laws.puts lba l h w
