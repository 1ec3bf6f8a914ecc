-- ===== src/Hdck/Repairs/Recovery.antt =====
-- RecoverPartitionIfSub writes the header of a lost sub-partition again, from its main partition's
-- list.
use hddchecker.Prelude.{
  ℕ, zero, suc, ◌+◌, ◌≡◌, ◌≢◌, ◌≤◌, ◌<◌, ◌∙◌, refl, sym, ap, subst, inl, inr, true, false, not,
  ◌&&◌, Option, some, [], arith, ltb, ◌==◌, if◌then◌else◌, Bool-cases, add32,
}
use hddchecker.Hdck.{Header, ErrorPart, save}
use hddchecker.Hdck.Repairs.{
  Library, sub_at, recovered, recover_sub, recover_first, recover_second, recover_subs,
}
use hddchecker.Hdck.Repairs.Laws.{LibraryLaws, save_at}

module _ {W : Type 0} (lib : Library W) (at : W → ℕ → Option Header)
    (laws : LibraryLaws lib at) where
  -- Entries that name no error partition.
  abbrev NamesNone : ℕ → ErrorPart → Type 0
  NamesNone start e =
      (not (e.lba == 0) && (start == e.lba) ≡ false)
      × (not (e.lba2 == 0) && (start == e.lba2) ≡ false)

  entry_passes :
      (fuel lba sub : ℕ) (h : Header) (e : ErrorPart) (w : W)
      → lib.peek lba w ≡ h
      → sub < h.nsub
      → NamesNone (sub_at sub h.subs).0 e
      → recover_subs lib (suc fuel) lba sub e w ≡ recover_subs lib fuel lba (sub + 1) e w
  unfolding recover_subs recover_first recover_second
  entry_passes fuel lba sub h e w eq lt (first, second) =
      let more : ltb sub (lib.peek lba w).nsub ≡ true = rw eq (ground arith) in
      let first' : not (e.lba == 0) && ((sub_at sub (lib.peek lba w).subs).0 == e.lba) ≡ false =
        rw eq first in
      let second' : not (e.lba2 == 0) && ((sub_at sub (lib.peek lba w).subs).0 == e.lba2) ≡ false =
        rw eq second in
      rw (more, first', second', recover_subs, recover_first, recover_second) refl

  list_ends :
      (fuel lba sub : ℕ) (h : Header) (e : ErrorPart) (w : W)
      → lib.peek lba w ≡ h
      → h.nsub ≤ sub
      → recover_subs lib (suc fuel) lba sub e w ≡ some (e, w)
  unfolding recover_subs
  list_ends fuel lba sub h e w eq le =
      let past : ltb sub (lib.peek lba w).nsub ≡ false = rw eq (ground arith) in
      rw (past, recover_subs) refl

  -- When no error partition is left, the rest of the list is passed over.
  rest_passes :
      (fuel lba sub : ℕ) (h : Header) (e : ErrorPart) (w : W)
      → lib.peek lba w ≡ h
      → sub ≤ h.nsub
      → h.nsub < sub + fuel
      → e.lba ≡ 0
      → e.lba2 ≡ 0
      → recover_subs lib fuel lba sub e w ≡ some (e, w)
  rest_passes zero lba sub h e w eq le enough z z2 = absurd (omega arith)
  rest_passes (suc fuel) lba sub h e w eq le enough z z2 = elim (Bool-cases (ltb sub h.nsub)) [
    | inl more ↦
        entry_passes fuel lba sub h e w eq (ground arith) (ground arith, ground arith)
        ∙ rest_passes fuel lba (sub + 1) h e w eq (ground arith) (omega arith) z z2
    | inr past ↦ list_ends fuel lba sub h e w eq (ground arith)
  ]

  -- The header that is written for the error partition, from an entry of a main partition.
  abbrev rewritten : ErrorPart → ℕ → Header → Header → Header
  rewritten e sub h mbr =
      recovered mbr e.lba e.prev_lba (sub_at sub h.subs).1 h.start h.kind (sub + 1)

  abbrev written : ErrorPart → ℕ → Header → Header → W → W
  written e sub h mbr w = save lib.apa e.lba (rewritten e sub h mbr) (lib.claim e.lba w).1

  written_at :
      (e : ErrorPart) (sub l : ℕ) (h mbr : Header) (w : W)
      → at (written e sub h mbr w) l ≡ (if l == e.lba then some (rewritten e sub h mbr) else at w l)
  written_at e sub l h mbr w = elim (Bool-cases (l == e.lba)) [
    | inl same ↦ rw same (back ∙ ground arith)
    | inr other ↦ rw other (back ∙ ground (arith, laws.claim_keeps e.lba l w))
  ]
    where
      back :
          at (written e sub h mbr w) l
          ≡ (if l == e.lba then some (rewritten e sub h mbr) else at (lib.claim e.lba w).1 l)
      back = save_at lib.apa at laws.cache e.lba l (rewritten e sub h mbr) (lib.claim e.lba w).1

  first_recovers :
      (lba sub : ℕ) (h mbr : Header) (e : ErrorPart) (w : W)
      → lib.peek lba w ≡ h
      → at w 0 ≡ some mbr
      → (sub_at sub h.subs).0 ≡ e.lba
      → e.lba2 ≡ e.lba
      → e.lba ≢ 0
      → recover_first lib lba sub e w ≡ some (record e { lba = 0; lba2 = 0 }, written e sub h mbr w)
  unfolding recover_first recover_sub
  first_recovers lba sub h mbr e w eq zeroth names one pos =
      let root : lib.peek 0 (lib.claim e.lba w).1 ≡ mbr =
        laws.held 0 mbr (lib.claim e.lba w).1
          (laws.claim_keeps e.lba 0 w (λ z. pos (sym z)) ∙ zeroth) in
      let test : not (e.lba == 0) && ((sub_at sub (lib.peek lba w).subs).0 == e.lba) ≡ true =
        rw eq (ground arith) in
      let same : (e.lba2 == e.lba) ≡ true = ground arith in
      rw (test, recover_first, laws.claims e.lba w, recover_sub, root, same)
        (ap (λ g. some (record e { lba = 0; lba2 = 0 }, written e sub g mbr w)) eq)

  -- From the entry that names the only error partition on.
  names_it :
      (fuel lba sub : ℕ) (h mbr : Header) (e : ErrorPart) (w : W)
      → at w lba ≡ some h
      → at w 0 ≡ some mbr
      → sub < h.nsub
      → h.nsub < sub + fuel
      → (sub_at sub h.subs).0 ≡ e.lba
      → e.lba2 ≡ e.lba
      → e.lba ≢ 0
      → e.lba ≢ lba
      → recover_subs lib fuel lba sub e w
        ≡ some (record e { lba = 0; lba2 = 0 }, written e sub h mbr w)
  unfolding recover_subs recover_second
  names_it zero lba sub h mbr e w here zeroth lt enough names one pos other = absurd (omega arith)
  names_it (suc fuel) lba sub h mbr e w here zeroth lt enough names one pos other =
      let eq = laws.held lba h w here in
      let more : ltb sub (lib.peek lba w).nsub ≡ true = rw eq (ground arith) in
      let first = first_recovers lba sub h mbr e w eq zeroth names one pos in
      let still : lib.peek lba (written e sub h mbr w) ≡ h =
        laws.held lba h (written e sub h mbr w)
          (ground (arith, written_at e sub lba h mbr w, here)) in
      rw (more, recover_subs, first, recover_second)
        (rest_passes fuel lba (sub + 1) h (record e { lba = 0; lba2 = 0 }) (written e sub h mbr w)
          still (omega arith) (omega arith) refl refl)

  -- From `n` entries in front of it.
  leads_to_it :
      (n fuel lba sub k : ℕ) (h mbr : Header) (e : ErrorPart) (w : W)
      → at w lba ≡ some h
      → at w 0 ≡ some mbr
      → k < h.nsub
      → ((i : ℕ) → i < k → NamesNone (sub_at i h.subs).0 e)
      → (sub_at k h.subs).0 ≡ e.lba
      → e.lba2 ≡ e.lba
      → e.lba ≢ 0
      → e.lba ≢ lba
      → sub + n ≡ k
      → h.nsub < sub + fuel
      → recover_subs lib fuel lba sub e w
        ≡ some (record e { lba = 0; lba2 = 0 }, written e k h mbr w)
  leads_to_it zero fuel lba sub k h mbr e w here zeroth lt pass names one pos other at_k enough =
      let same : sub ≡ k = omega arith in
      subst
        (λ s.
          recover_subs lib fuel lba s e w
          ≡ some (record e { lba = 0; lba2 = 0 }, written e k h mbr w))
        (sym same) (names_it fuel lba k h mbr e w here zeroth lt (omega arith) names one pos other)
  leads_to_it (suc n) zero lba sub k h mbr e w here zeroth lt pass names one pos other at_k enough =
      absurd (omega arith)
  leads_to_it (suc n) (suc fuel) lba sub k h mbr e w here zeroth lt pass names one pos other at_k
        enough =
      entry_passes fuel lba sub h e w (laws.held lba h w here) (omega arith)
        (pass sub (omega arith))
      ∙ leads_to_it n fuel lba (sub + 1) k h mbr e w here zeroth lt pass names one pos other
          (omega arith) (omega arith)

  -- If the list of a main partition names the only error partition, and first in its entry k, the
  -- loop over the list ends with no error partition left, writes at its address the header of a
  -- sub-partition of that main partition, with the length of the entry, the kind of the main
  -- partition, the number k + 1, the link back of the error and the link on to its own end, or to 0
  -- if it is the last, and changes no other header.
  pub recover_subs_restores :
      (lba k : ℕ) (h mbr : Header) (e : ErrorPart) (w : W)
      → at w lba ≡ some h
      → at w 0 ≡ some mbr
      → k < h.nsub
      → ((i : ℕ) → i < k → (sub_at i h.subs).0 ≢ e.lba)
      → (sub_at k h.subs).0 ≡ e.lba
      → e.lba2 ≡ e.lba
      → e.lba ≢ 0
      → e.lba ≢ lba
      → (w' : W) × (recover_subs lib (h.nsub + 1) lba 0 e w
          ≡ some (record e { lba = 0; lba2 = 0 }, w'))
        × (at w' e.lba
            ≡ some (record {
              start = e.lba;
              length = (sub_at k h.subs).1;
              next = if ltb e.lba mbr.prev then add32 e.lba (sub_at k h.subs).1 else 0;
              prev = e.prev_lba;
              kind = h.kind;
              is_sub = true;
              main = h.start;
              number = k + 1;
              nsub = 0;
              subs = [];
            }))
        × ((l : ℕ) → l ≢ e.lba → at w' l ≡ at w l)
  recover_subs_restores lba k h mbr e w here zeroth lt before names one pos other =
      let passes : (i : ℕ) → i < k → NamesNone (sub_at i h.subs).0 e =
        λ i le. let new = before i le in (ground arith, ground arith) in
      let same : (e.lba == e.lba) ≡ true = ground arith in
      (
        written e k h mbr w,
        leads_to_it k (h.nsub + 1) lba 0 k h mbr e w here zeroth lt passes names one pos other
            (omega arith) (omega arith),
        written_at e k e.lba h mbr w ∙ rw same refl,
        λ l apart.
            let differ : (l == e.lba) ≡ false = ground arith in
            written_at e k l h mbr w ∙ rw differ refl,
      )
