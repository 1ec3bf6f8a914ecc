-- ===== src/Hdck/Ends.antt =====
-- CheckAPAPartitionLinks ends: a link to a header that was visited before ends a pass.
use hddchecker.Prelude.{
  ℕ, zero, suc, ◌<◌, ◌≡◌, refl, inl, inr, true, false, Option, none, some, List, [], ◌∷◌, ◌++◌,
  arith, ◌==◌, if◌then◌else◌, Bool-cases, RetCode, ret, is_zero,
}
use hddchecker.Hdck.{
  Header, Apa, ErrorPart, Way, forward, backward, ahead, listed, Pass, relink, scan_links,
  close_links, backward_pass, check_links,
}
use hddchecker.Hdck.Links.{unvisited, unvisited_less, unvisited_bound}

abbrev Ends : {A : Type 0} → Option A → Type 0
Ends none = ⊥
Ends (some x) = Unit {0}

module _ {W : Type 0} (apa : Apa W) (n : ℕ)
    (inside : (l : ℕ) (h : Header) (w : W) → (apa.get l w).1 ≡ some h → l < n) where
  scan_links-Ends :
      (way : Way) (fuel : ℕ) (list : List ℕ) (current parent : ℕ) (result : RetCode) (w : W)
      → unvisited n list < fuel
      → Ends (scan_links apa way fuel list current parent result w)
  unfolding scan_links
  scan_links-Ends way zero list current parent result w enough = absurd (omega arith)
  scan_links-Ends way (suc fuel) list current parent result w enough =
      elim (Bool-cases (current == 0)) [
        | inl e ↦ rw (e, scan_links) tt
        | inr e ↦
            rw (e, scan_links)
              (elim (Bool-cases (listed current list)) [
                | inl seen ↦ rw seen tt
                | inr new ↦ rw new (
                    got (apa.get current w).1 refl (λ h less.
                      let r = relink apa way current parent h (apa.get current w).2 in
                      scan_links-Ends way fuel (list ++ current ∷ []) (ahead way r.0) (r.0).start
                        (apa.get current w).0 r.1
                        (omega (arith, unvisited_less n current list less new))))
              ])
      ]
    where
      w1 : W
      w1 = (apa.get current w).2

      got :
          (o : Option Header)
          → (apa.get current w).1 ≡ o
          → ((h : Header)
              → current < n
              → let r = relink apa way current parent h w1 in
                Ends (
                  scan_links apa way fuel
                    (list ++ current ∷ [])
                    (ahead way r.0)
                    (r.0).start
                    (apa.get current w).0
                    r.1))
          → Ends {A = Pass × W} (elim o [
            | none ↦
                some (
                  record { result = (apa.get current w).0; current = current; parent = parent },
                  w1,
                )
            | some h ↦
                let (h', w2) = relink apa way current parent h w1 in
                scan_links apa way fuel
                  (list ++ current ∷ [])
                  (ahead way h')
                  h'.start
                  (apa.get current w).0
                  w2
          ])
      got none e rest = tt
      got (some h) e rest = rest h (inside current h w e)

  backward-Ends : (p : Pass) (mbr : Header) (w : W) → Ends (backward_pass apa (suc n) p mbr w)
  unfolding backward_pass
  backward-Ends p mbr w = split (scan_links apa backward (suc n) [] mbr.prev 0 p.result w) (
      scan_links-Ends backward (suc n) [] mbr.prev 0 p.result w
        (omega (arith, unvisited_bound n [])))
    where
      split :
          (o : Option (Pass × W))
          → Ends o
          → Ends {A = ErrorPart × Header × W} (elim o [
            | none ↦ none
            | some (q, w2) ↦
                let (mbr', w3) = close_links apa backward mbr q.parent w2 in
                if is_zero q.result
                then some
                    (record { lba = 0; lba2 = 0; prev_lba = p.parent; prev_lba2 = 0 }, mbr', w3)
                else some (
                  record {
                    lba = p.current;
                    lba2 = q.current;
                    prev_lba = p.parent;
                    prev_lba2 = q.parent;
                  },
                  mbr,
                  w2,
                )
          ])
      split none v = v
      split (some (q, w2)) v = elim (Bool-cases (is_zero q.result)) [
        | inl ok ↦ rw ok tt
        | inr bad ↦ rw bad tt
      ]

  -- On a disk of `n` sectors the check of the links ends, in at most `n + 1` rounds of each pass,
  -- whatever the links are: one that leads back to a visited header ends its pass.
  pub check_links_total :
      (mbr : Header) (w : W)
      → (e : ErrorPart) × (mbr' : Header) × (w' : W) × (check_links apa (suc n) mbr w
          ≡ some (e, mbr', w'))
  check_links_total mbr w = given (check_links apa (suc n) mbr w) ends
    where
      given :
          (o : Option (ErrorPart × Header × W))
          → Ends o
          → (e : ErrorPart) × (mbr' : Header) × (w' : W) × (o ≡ some (e, mbr', w'))
      given none v = absurd v
      given (some (e, mbr', w')) v = (e, mbr', w', refl)

      split :
          (o : Option (Pass × W))
          → Ends o
          → Ends {A = ErrorPart × Header × W} (elim o [
            | none ↦ none
            | some (p, w1) ↦
                let (mbr', w2) = close_links apa forward mbr p.parent w1 in
                elim (is_zero p.result) [
                  | true ↦
                      some (record { lba = 0; lba2 = 0; prev_lba = 0; prev_lba2 = 0 }, mbr', w2)
                  | false ↦ backward_pass apa (suc n) p mbr w1
                ]
          ])
      split none v = v
      split (some (p, w1)) v = elim (Bool-cases (is_zero p.result)) [
        | inl ok ↦ rw ok tt
        | inr bad ↦ rw bad (backward-Ends p mbr w1)
      ]

      ends : Ends (check_links apa (suc n) mbr w)
      ends =
          unfold check_links in
          split (scan_links apa forward (suc n) [] mbr.next 0 (ret 0) w) (
            scan_links-Ends forward (suc n) [] mbr.next 0 (ret 0) w
              (omega (arith, unvisited_bound n [])))
