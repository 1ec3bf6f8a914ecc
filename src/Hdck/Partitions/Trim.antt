-- ===== src/Hdck/Partitions/Trim.antt =====
-- What CheckPartitions does with the list of a main partition.
use mathlib.Core.Option.{some-injective}
use hddchecker.Prelude.{
  ℕ, zero, suc, ◌+◌, ◌≡◌, ◌≤◌, ◌<◌, ◌⊎◌, ◌∙◌, refl, sym, ap, subst, inl, inr, Bool, true, false,
  Option, some, List, [], ◌∷◌, arith, ltb, ◌==◌, if◌then◌else◌, Bool-cases, not_both, RetCode, ret,
}
use hddchecker.Hdck.{Header, listed, save}
use hddchecker.Hdck.Partitions.{main_subs, check_mains}
use hddchecker.Hdck.Repairs.{Library, sub_at}
use hddchecker.Hdck.Repairs.Laws.{LibraryLaws, save_at}

-- Where a list is cut: all entries before are in the map, and it is the end of the list or an entry
-- that is missing in the map.
abbrev pub IsCut : List ℕ → Header → ℕ → Type 0
IsCut map h n =
    (n ≤ h.nsub)
    × ((i : ℕ) → i < n → listed (sub_at i h.subs).0 map ≡ true)
    × ((n ≡ h.nsub) ⊎ (listed (sub_at n h.subs).0 map ≡ false))

IsCut-trans :
    (map : List ℕ) (h : Header) (n m : ℕ)
    → IsCut map h n
    → IsCut map (record h { nsub = n }) m
    → IsCut map h m
IsCut-trans map h n m (le, present, ended) (le2, present2, inl e) = (
  omega arith,
  present2,
  subst (λ k. (k ≡ h.nsub) ⊎ (listed (sub_at k h.subs).0 map ≡ false)) (sym e) ended,
)
IsCut-trans map h n m (le, present, ended) (le2, present2, inr gone) =
    (omega arith, present2, inr gone)

abbrev cut_to : ℕ → Header → Header
cut_to n h = record h { nsub = n }

-- The list of one header is cut, and nothing else changes.
abbrev pub Trims : List ℕ → Header → ℕ → (ℕ → Option Header) → (ℕ → Option Header) → Type 0
Trims map h lba before after =
    (n : ℕ) × IsCut map h n
    × ((l : ℕ) → after l ≡ (if l == lba then some (record h { nsub = n }) else before l))

module _ {W : Type 0} (lib : Library W) (at : W → ℕ → Option Header)
    (laws : LibraryLaws lib at) where
  after_cut :
      (fuel : ℕ) (map : List ℕ) (lba sub : ℕ) (h : Header) (result : RetCode) (w : W)
      → at w lba ≡ some h
      → h.nsub ≤ sub
      → (missing : Bool) → main_subs lib fuel map lba sub missing result w ≡ (result, w)
  unfolding main_subs
  after_cut zero map lba sub h result w here le missing = refl
  after_cut (suc fuel) map lba sub h result w here le missing =
      let past : ltb sub h.nsub ≡ false = ground arith in
      rw (laws.held lba h w here, past, main_subs) refl

  -- The rounds at an entry that is in the map, and at the first one that is not.
  entry_there :
      (fuel : ℕ) (map : List ℕ) (lba sub : ℕ) (h : Header) (result : RetCode) (w : W)
      → lib.peek lba w ≡ h
      → ltb sub h.nsub ≡ true
      → listed (sub_at sub h.subs).0 map ≡ true
      → main_subs lib (suc fuel) map lba sub false result w
        ≡ main_subs lib fuel map lba (sub + 1) false result w
  unfolding main_subs
  entry_there fuel map lba sub h result w e more there =
      let more' : ltb sub (lib.peek lba w).nsub ≡ true = rw e more in
      let there' : listed (sub_at sub (lib.peek lba w).subs).0 map ≡ true = rw e there in
      rw (more', there', main_subs) refl

  entry_gone :
      (fuel : ℕ) (map : List ℕ) (lba sub : ℕ) (h : Header) (result : RetCode) (w : W)
      → lib.peek lba w ≡ h
      → ltb sub h.nsub ≡ true
      → listed (sub_at sub h.subs).0 map ≡ false
      → main_subs lib (suc fuel) map lba sub false result w
        ≡ main_subs lib fuel map lba
            (sub + 1)
            true
            result
            (save lib.apa lba (record h { nsub = sub }) w)
  unfolding main_subs
  entry_gone fuel map lba sub h result w e more gone =
      let more' : ltb sub (lib.peek lba w).nsub ≡ true = rw e more in
      let gone' : listed (sub_at sub (lib.peek lba w).subs).0 map ≡ false = rw e gone in
      rw (more', gone', main_subs)
        (ap
          (λ g.
            main_subs lib fuel map lba (sub + 1) true result (save lib.apa lba (cut_to sub g) w))
          e)

  main_subs-Trims :
      (fuel : ℕ) (map : List ℕ) (lba sub : ℕ) (h : Header) (result : RetCode) (w : W)
      → at w lba ≡ some h
      → sub ≤ h.nsub
      → h.nsub < sub + fuel
      → ((i : ℕ) → i < sub → listed (sub_at i h.subs).0 map ≡ true)
      → (w' : W) × (main_subs lib fuel map lba sub false result w ≡ (result, w'))
        × Trims map h lba (at w) (at w')
  unfolding main_subs
  main_subs-Trims zero map lba sub h result w here le enough before = absurd (omega arith)
  main_subs-Trims (suc fuel) map lba sub h result w here le enough before =
      elim (Bool-cases (ltb sub h.nsub)) [
        | inr past ↦ (w, rw (laws.held lba h w here, past, main_subs) refl, whole past)
        | inl more ↦ elim (Bool-cases (listed (sub_at sub h.subs).0 map)) [
          | inl there ↦
              let (w', run, t) =
                main_subs-Trims fuel map lba (sub + 1) h result w here (ground arith) (omega arith)
                  (ground arith) in
              (
                w',
                entry_there fuel map lba sub h result w (laws.held lba h w here) more there ∙ run,
                t,
              )
          | inr gone ↦ (
            save lib.apa lba (record h { nsub = sub }) w,
            entry_gone fuel map lba sub h result w (laws.held lba h w here) more gone
                ∙ after_cut fuel map lba (sub + 1) (record h { nsub = sub }) result
                    (save lib.apa lba (record h { nsub = sub }) w)
                    (save_at lib.apa at laws.cache lba lba (record h { nsub = sub }) w
                      ∙ ground arith)
                    (omega arith) true,
            (
              sub,
              (le, before, inr gone),
              λ l. save_at lib.apa at laws.cache lba l (record h { nsub = sub }) w,
            ),
          )
        ]
      ]
    where
      own : sub ≡ h.nsub → some h ≡ some (record h { nsub = sub })
      own e = ap (λ n. some (record h { nsub = n })) (sym e)

      whole : ltb sub h.nsub ≡ false → Trims map h lba (at w) (at w)
      whole past =
          (sub, (le, before, inl (ground arith)), λ l. ground (arith, here, own (ground arith)))

  -- What happened to the header at an address: cut where it is in the list, and kept elsewhere.
  abbrev pub CutAt : List ℕ → List ℕ → W → W → ℕ → Type 0
  CutAt map mains w w' l =
      (listed l mains ≡ false → at w' l ≡ at w l)
      × ((h : Header)
          → at w l ≡ some h
          → listed l mains ≡ true
          → (n : ℕ) × IsCut map h n × (at w' l ≡ some (record h { nsub = n })))

  CutAt-cons :
      (map mains : List ℕ) (lba n : ℕ) (h : Header) (w w1 w2 : W) (l : ℕ)
      → at w lba ≡ some h
      → IsCut map h n
      → at w1 l ≡ (if l == lba then some (cut_to n h) else at w l)
      → CutAt map mains w1 w2 l
      → CutAt map (lba ∷ mains) w w2 l
  CutAt-cons map mains lba n h w w1 w2 l here cut after (kept, cuts) = (
    λ out. ground (arith, kept, after),
    λ g there i. elim (Bool-cases (listed l mains)) [
      | inl again ↦ elim (Bool-cases (l == lba)) [
        | inl same ↦
            let (m, more, e) = cuts (cut_to n h) (ground (arith, after)) again in
            let whole = IsCut-trans map h n m cut more in
            let eq = is_own g there (ground arith) in
            (m, subst (λ k. IsCut map k m) eq whole, e ∙ ap (λ k. some (cut_to m k)) eq)
        | inr other ↦ cuts g (ground (arith, after)) again
      ]
      | inr last ↦
          let eq = is_own g there (ground arith) in
          (
            n,
            subst (λ k. IsCut map k n) eq cut,
            kept last ∙ ground (arith, after) ∙ ap (λ k. some (cut_to n k)) eq,
          )
    ],
  )
    where
      is_own : (g : Header) → at w l ≡ some g → l ≡ lba → h ≡ g
      is_own g there e = some-injective h g (sym here ∙ ap (at w) (sym e) ∙ there)

  one_main :
      (map mains : List ℕ) (lba : ℕ) (h : Header) (w : W)
      → at w lba ≡ some h
      → (w1 : W) × (n : ℕ) × (check_mains lib map (lba ∷ mains) (ret 0) w
          ≡ check_mains lib map mains (ret 0) w1)
        × IsCut map h n
        × ((l : ℕ) → at w1 l ≡ (if l == lba then some (cut_to n h) else at w l))
  unfolding check_mains
  one_main map mains lba h w here =
      let got : ((lib.apa).get lba w).1 ≡ some h = (laws.cache).gets lba w ∙ here in
      let fine : ((lib.apa).get lba w).0 ≡ ret 0 = (laws.cache).found lba h w got in
      let same : (l : ℕ) → at ((lib.apa).get lba w).2 l ≡ at w l =
        λ l. (laws.cache).get_keeps lba l w in
      let (w1, run, (n, cut, after)) =
        main_subs-Trims (h.nsub + 1) map lba 0 h (ret 0) ((lib.apa).get lba w).2 (same lba ∙ here)
          (omega arith) (omega arith) (λ i lt. absurd (omega arith)) in
      (
        w1,
        n,
        rw (got, fine, run, check_mains) refl,
        cut,
        λ l. after l ∙ ap (λ o. if l == lba then some (cut_to n h) else o) (same l),
      )

  -- If all main partitions have headers, the check of the main partitions ends with 0, and the list
  -- of each is cut in front of its first entry that is not in the map of sub-partitions, if there
  -- is one; no other header changes, those of the sub-partitions behind that entry included.
  pub check_mains_cuts :
      (map mains : List ℕ) (w : W)
      → ((l : ℕ) → listed l mains ≡ true → (h : Header) × (at w l ≡ some h))
      → (w' : W) × (check_mains lib map mains (ret 0) w ≡ (ret 0, w'))
        × ((l : ℕ) → CutAt map mains w w' l)
  unfolding check_mains
  check_mains_cuts map [] w have =
      (w, refl, λ l. (λ out. refl, λ h e i. elim (not_both false i refl) [ ]))
  check_mains_cuts map (lba ∷ mains) w have =
      begin (have lba (ground arith)) (λ w1 all. check_mains_cuts map mains w1 all)
    where
      still :
          (h : Header) (n l : ℕ) (w1 : W)
          → at w1 l ≡ (if l == lba then some (cut_to n h) else at w l)
          → (h' : Header) × (at w l ≡ some h')
          → (h' : Header) × (at w1 l ≡ some h')
      still h n l w1 e (h', there) = elim (Bool-cases (l == lba)) [
        | inl same ↦ (cut_to n h, ground (arith, e))
        | inr other ↦ (h', ground (arith, e))
      ]

      begin :
          (h : Header) × (at w lba ≡ some h)
          → ((w1 : W)
              → ((l : ℕ) → listed l mains ≡ true → (h : Header) × (at w1 l ≡ some h))
              → (w' : W) × (check_mains lib map mains (ret 0) w1 ≡ (ret 0, w'))
                × ((l : ℕ) → CutAt map mains w1 w' l))
          → (w' : W) × (check_mains lib map (lba ∷ mains) (ret 0) w ≡ (ret 0, w'))
            × ((l : ℕ) → CutAt map (lba ∷ mains) w w' l)
      begin (h, here) rest_of =
          let (w1, n, run, cut, after) = one_main map mains lba h w here in
          let (w2, rest, cuts) =
            rest_of w1 (λ l i. still h n l w1 (after l) (have l (ground arith))) in
          (w2, run ∙ rest, λ l. CutAt-cons map mains lba n h w w1 w2 l here cut (after l) (cuts l))
