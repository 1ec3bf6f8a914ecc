-- ===== src/Hdck/Repair.antt =====
-- CheckAPAPartitionLinks ends, and where it finds no error partition the headers are linked.
use hddchecker.Prelude.{
  ℕ, ◌≡◌, ◌≢◌, ◌∙◌, refl, inl, inr, true, false, Option, none, some, List, [], ◌∷◌, arith,
  if◌then◌else◌, Bool-cases, RetCode, ret, is_zero,
}
use hddchecker.Hdck.{
  Header, Apa, ErrorPart, Way, forward, backward, ahead, behind, Pass, relink, scan_links,
  close_links, backward_pass, check_links,
}
use hddchecker.Hdck.Links.{
  ApaLaws, Linked, Scans, ScansRun, scan_links-Scans, relink_at, behind-relink,
}

-- A change of header 0 alone leaves the others linked.
Linked-same :
    (way : Way) (f g : ℕ → Option Header) (parent current last : ℕ) (ls : List ℕ)
    → ((l : ℕ) → l ≢ 0 → g l ≡ f l)
    → Linked way f parent current ls last
    → Linked way g parent current ls last
Linked-same way f g parent current last [] same h = h
Linked-same way f g parent current last (l ∷ ls) same (here, pos, h, found, back, rest) = (
  here,
  pos,
  h,
  same l pos ∙ found,
  back,
  Linked-same way f g h.start (ahead way h) last ls same rest,
)

module _ {W : Type 0} (apa : Apa W) (at : W → ℕ → Option Header) (laws : ApaLaws apa at) where
  -- The headers form one list from header 0 to header 0 again.
  pub record Closed (way : Way) (mbr : Header) (w : W) : Type 0 where
    pub origin : at w 0 ≡ some mbr
    pub path : List ℕ
    pub linked : Linked way (at w) 0 (ahead way mbr) path (behind way mbr)

  ahead-relink :
      (way : Way) (lba parent : ℕ) (h : Header) (w : W)
      → ahead way (relink apa way lba parent h w).0 ≡ ahead way h
  unfolding relink
  ahead-relink forward lba parent h w = ground arith
  ahead-relink backward lba parent h w = ground arith

  close-Closed :
      (way : Way) (mbr : Header) (p : Pass) (result : RetCode) (w w1 : W)
      → at w 0 ≡ some mbr
      → is_zero p.result ≡ true
      → Scans apa at laws way [] 0 (ahead way mbr) result w p w1
      → let done = close_links apa way mbr p.parent w1 in Closed way done.0 done.1
  unfolding close_links
  close-Closed way mbr p result w w1 zeroth ok v =
      let (ls, h) = v.linked ok in
      let here = relink_at apa at laws way 0 p.parent in
      record {
        origin = ground (arith, here 0 mbr w1 (v.origin ∙ zeroth));
        path = ls;
        linked =
            rw (ahead-relink way 0 p.parent mbr w1, behind-relink apa at laws way 0 p.parent mbr w1)
              (Linked-same way (at w1) (at (close_links apa way mbr p.parent w1).1) 0
                (ahead way mbr) p.parent ls
                (λ l pos. ground (arith, here l mbr w1 (v.origin ∙ zeroth))) h);
      }

  -- What a run says that ends without an error partition.
  abbrev Closes : Option (ErrorPart × Header × W) → Type 0
  Closes none = Unit {0}
  Closes (some (e, mbr, w)) = e.lba ≡ 0 → (way : Way) × Closed way mbr w

  backward-Closes :
      (fuel : ℕ) (p : Pass) (mbr : Header) (w w1 : W)
      → at w 0 ≡ some mbr
      → at w1 0 ≡ at w 0
      → p.current ≢ 0
      → Closes (backward_pass apa fuel p mbr w1)
  unfolding backward_pass
  backward-Closes fuel p mbr w w1 zeroth kept pos =
      split (scan_links apa backward fuel [] mbr.prev 0 p.result w1)
        (scan_links-Scans apa at laws backward fuel [] mbr.prev 0 p.result w1)
    where
      split :
          (o : Option (Pass × W))
          → ScansRun apa at laws backward [] 0 mbr.prev p.result w1 o
          → Closes (elim o [
            | none ↦ none
            | some (q, w2) ↦
                let (mbr', w3) = close_links apa backward mbr q.parent w2 in
                if is_zero q.result
                then some
                    (record { lba = 0; lba2 = 0; prev_lba = p.parent; prev_lba2 = 0 }, mbr', w3)
                else some (
                  record {
                    lba = p.current;
                    lba2 = q.current;
                    prev_lba = p.parent;
                    prev_lba2 = q.parent;
                  },
                  mbr,
                  w2,
                )
          ])
      split none v = tt
      split (some (q, w2)) v = elim (Bool-cases (is_zero q.result)) [
        | inl ok ↦
            rw ok (λ z. (backward, close-Closed backward mbr q p.result w1 w2 (kept ∙ zeroth) ok v))
        | inr bad ↦ rw bad (λ z. absurd (pos z))
      ]

  check_links-Closes :
      (fuel : ℕ) (mbr : Header) (w : W) → at w 0 ≡ some mbr → Closes (check_links apa fuel mbr w)
  unfolding check_links
  check_links-Closes fuel mbr w zeroth =
      split (scan_links apa forward fuel [] mbr.next 0 (ret 0) w)
        (scan_links-Scans apa at laws forward fuel [] mbr.next 0 (ret 0) w)
    where
      split :
          (o : Option (Pass × W))
          → ScansRun apa at laws forward [] 0 mbr.next (ret 0) w o
          → Closes (elim o [
            | none ↦ none
            | some (p, w1) ↦
                let (mbr', w2) = close_links apa forward mbr p.parent w1 in
                elim (is_zero p.result) [
                  | true ↦
                      some (record { lba = 0; lba2 = 0; prev_lba = 0; prev_lba2 = 0 }, mbr', w2)
                  | false ↦ backward_pass apa fuel p mbr w1
                ]
          ])
      split none v = tt
      split (some (p, w1)) v = elim (Bool-cases (is_zero p.result)) [
        | inl ok ↦ rw ok (λ z. (forward, close-Closed forward mbr p (ret 0) w w1 zeroth ok v))
        | inr bad ↦ rw bad (
            backward-Closes fuel p mbr w w1 zeroth v.origin (λ z. ground (arith, v.stopped refl z)))
      ]

  -- If the check of the links ends without an error partition, then following the links in one of
  -- the two directions from header 0 visits headers that each link back to the one before, and
  -- header 0 links back to the last one: what was wrong with those links has been repaired.
  pub check_links_closes :
      (fuel : ℕ) (mbr mbr' : Header) (w w' : W) (e : ErrorPart)
      → at w 0 ≡ some mbr
      → check_links apa fuel mbr w ≡ some (e, mbr', w')
      → e.lba ≡ 0
      → (way : Way) × Closed way mbr' w'
  check_links_closes fuel mbr mbr' w w' e zeroth run clean =
      let h : Closes (some (e, mbr', w')) = rw run at (check_links-Closes fuel mbr w zeroth) in
      h clean
