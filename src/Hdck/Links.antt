-- ===== src/Hdck/Links.antt =====
-- A pass over the partition headers leaves them linked.
use hddchecker.Prelude.{
  ℕ, zero, suc, ◌+◌, ◌≤◌, ◌<◌, ◌≡◌, ◌≢◌, ◌∙◌, refl, sym, inl, inr, true, false, Option, none, some,
  List, [], ◌∷◌, ◌++◌, arith, ◌==◌, if◌then◌else◌, Bool-cases, RetCode, ret, is_zero,
}
use hddchecker.Hdck.{
  Header, Apa, Way, forward, backward, ahead, behind, set_behind, listed, Pass, relink, scan_links,
}

-- What the cache promises: a header that is got is the one at the address, with a result of 0, and a
-- missing one has another result; a change is seen at its address, and writing changes nothing.
pub record ApaLaws {W : Type 0} (apa : Apa W) (at : W → ℕ → Option Header) : Type 0 where
  pub gets : (lba : ℕ) (w : W) → (apa.get lba w).1 ≡ at w lba
  pub found :
      (lba : ℕ) (h : Header) (w : W) → (apa.get lba w).1 ≡ some h → (apa.get lba w).0 ≡ ret 0
  pub missing : (lba : ℕ) (w : W) → (apa.get lba w).1 ≡ none → is_zero (apa.get lba w).0 ≡ false
  pub get_keeps : (lba l : ℕ) (w : W) → at (apa.get lba w).2 l ≡ at w l
  pub puts :
      (lba l : ℕ) (h : Header) (w : W)
      → at (apa.put lba h w) l ≡ (if l == lba then some h else at w l)
  pub flush_keeps : (lba l : ℕ) (w : W) → at (apa.flush_dirty lba w) l ≡ at w l

-- The headers at the addresses `ls` form a list from `current`, behind `parent`, to `last`: each
-- one's link ahead is the next address, and its link back the start of the one before.
abbrev pub Linked : Way → (ℕ → Option Header) → ℕ → ℕ → List ℕ → ℕ → Type 0
Linked way at parent current [] last = (current ≡ 0) × (last ≡ parent)
Linked way at parent current (l ∷ ls) last =
    (current ≡ l)
    × (l ≢ 0)
    × (h : Header) × (at l ≡ some h)
    × (behind way h ≡ parent)
    × Linked way at h.start (ahead way h) ls last

-- The sectors below `n` that a list leaves out.
abbrev pub unvisited : ℕ → List ℕ → ℕ
unvisited zero ls = 0
unvisited (suc n) ls = (if listed n ls then 0 else 1) + unvisited n ls

listed-append :
    (n m : ℕ) (ls : List ℕ) → listed n (ls ++ m ∷ []) ≡ (if m == n then true else listed n ls)
listed-append n m [] = refl
listed-append n m (l ∷ ls) = ground (arith, listed-append n m ls)

unvisited_more : (n m : ℕ) (ls : List ℕ) → unvisited n (ls ++ m ∷ []) ≤ unvisited n ls
unvisited_more zero m ls = omega arith
unvisited_more (suc n) m ls = ground (arith, unvisited_more n m ls, listed-append n m ls)

pub unvisited_less :
    (n m : ℕ) (ls : List ℕ)
    → m < n
    → listed m ls ≡ false
    → unvisited n (ls ++ m ∷ []) < unvisited n ls
unvisited_less zero m ls lt new = absurd (omega arith)
unvisited_less (suc n) m ls lt new = elim (Bool-cases (m == n)) [
  | inl e ↦ ground (arith, unvisited_more n m ls, listed-append n m ls)
  | inr e ↦ ground (arith, unvisited_less n m ls, listed-append n m ls)
]

pub unvisited_bound : (n : ℕ) (ls : List ℕ) → unvisited n ls ≤ n
unvisited_bound zero ls = omega arith
unvisited_bound (suc n) ls = ground (arith, unvisited_bound n ls)

module _ {W : Type 0} (apa : Apa W) (at : W → ℕ → Option Header) (laws : ApaLaws apa at) where
  -- What a repair leaves at each address.
  pub relink_at :
      (way : Way) (lba parent l : ℕ) (h : Header) (w : W)
      → at w lba ≡ some h
      → let r = relink apa way lba parent h w in at r.1 l ≡ (if l == lba then some r.0 else at w l)
  unfolding relink
  relink_at way lba parent l h w e = elim (Bool-cases (behind way h == parent)) [
    | inl good ↦ rw good (ground arith)
    | inr bad ↦ rw bad (
        laws.flush_keeps lba l (apa.put lba (set_behind way parent h) w)
        ∙ laws.puts lba l (set_behind way parent h) w)
  ]

  pub behind-relink :
      (way : Way) (lba parent : ℕ) (h : Header) (w : W)
      → behind way (relink apa way lba parent h w).0 ≡ parent
  unfolding relink
  behind-relink forward lba parent h w = ground arith
  behind-relink backward lba parent h w = ground arith

  -- What a pass that ends has done: it keeps the headers that it came past before, and header 0; it
  -- stops short only at a header; and without an error what it came past is linked.
  pub record Scans (way : Way) (list : List ℕ) (parent current : ℕ) (result : RetCode) (w : W)
      (p : Pass) (w' : W) : Type 0 where
    pub kept : (l : ℕ) → listed l list ≡ true → at w' l ≡ at w l
    pub origin : at w' 0 ≡ at w 0
    pub linked :
        is_zero p.result ≡ true → (ls : List ℕ) × Linked way (at w') parent current ls p.parent
    pub stopped : is_zero result ≡ true → p.current ≡ 0 → is_zero p.result ≡ true

  abbrev pub ScansRun : Way → List ℕ → ℕ → ℕ → RetCode → W → Option (Pass × W) → Type 0
  ScansRun way list parent current result w none = Unit {0}
  ScansRun way list parent current result w (some (p, w')) =
      Scans way list parent current result w p w'

  step-Scans :
      (way : Way) (list : List ℕ) (parent current : ℕ) (result r0 : RetCode) (h : Header) (w w1 : W)
      → is_zero r0 ≡ true
      → current ≢ 0
      → listed current list ≡ false
      → at w1 current ≡ some h
      → ((l : ℕ) → at w1 l ≡ at w l)
      → let r = relink apa way current parent h w1 in
        (o : Option (Pass × W))
        → ScansRun way (list ++ current ∷ []) (r.0).start (ahead way r.0) r0 r.1 o
        → ScansRun way list parent current result w o
  step-Scans way list parent current result r0 h w w1 fine pos new here same none v = tt
  step-Scans way list parent current result r0 h w w1 fine pos new here same (some (p, w')) v =
      let back = relink_at way current parent in
      record {
        kept =
            λ l i. ground (arith, v.kept l, listed-append l current list, back l h w1 here, same l);
        origin = ground (arith, v.origin, back 0 h w1 here, same 0);
        linked = λ ok.
            let (ls, rest) = v.linked ok in
            (
              current ∷ ls,
              (
                refl,
                pos,
                (relink apa way current parent h w1).0,
                v.kept current (ground (arith, listed-append current current list))
                    ∙ ground (arith, back current h w1 here),
                behind-relink way current parent h w1,
                rest,
              ),
            );
        stopped = λ _ e. v.stopped fine e;
      }

  pub scan_links-Scans :
      (way : Way) (fuel : ℕ) (list : List ℕ) (current parent : ℕ) (result : RetCode) (w : W)
      → ScansRun way list parent current result w
          (scan_links apa way fuel list current parent result w)
  unfolding scan_links
  scan_links-Scans way zero list current parent result w = tt
  scan_links-Scans way (suc fuel) list current parent result w = elim (Bool-cases (current == 0)) [
    | inl e ↦
        rw (e, scan_links)
          (record {
            kept = λ l i. refl;
            origin = refl;
            linked = λ ok. ([], (ground arith, refl));
            stopped = λ ok z. ok;
          })
    | inr e ↦
        rw (e, scan_links)
          (elim (Bool-cases (listed current list)) [
            | inl seen ↦ rw seen (record {
              kept = λ l i. refl;
              origin = refl;
              linked = λ ok. ground arith;
              stopped = λ ok z. ground arith;
            })
            | inr new ↦ rw new (
                got new (ground arith) (apa.get current w).1 refl (λ h.
                  let r = relink apa way current parent h (apa.get current w).2 in
                  scan_links-Scans way fuel (list ++ current ∷ []) (ahead way r.0) (r.0).start
                    (apa.get current w).0 r.1))
          ])
  ]
    where
      w1 : W
      w1 = (apa.get current w).2

      got :
          listed current list ≡ false
          → current ≢ 0
          → (o : Option Header) → (apa.get current w).1 ≡ o
          → ((h : Header)
              → let r = relink apa way current parent h w1 in
                ScansRun way
                  (list ++ current ∷ [])
                  (r.0).start
                  (ahead way r.0)
                  (apa.get current w).0
                  r.1
                  (scan_links apa way fuel
                    (list ++ current ∷ [])
                    (ahead way r.0)
                    (r.0).start
                    (apa.get current w).0
                    r.1))
          → ScansRun way list parent current result w (elim o [
            | none ↦
                some (
                  record { result = (apa.get current w).0; current = current; parent = parent },
                  w1,
                )
            | some h ↦
                let (h', w2) = relink apa way current parent h w1 in
                scan_links apa way fuel
                  (list ++ current ∷ [])
                  (ahead way h')
                  h'.start
                  (apa.get current w).0
                  w2
          ])
      got new pos none e rest = record {
        kept = λ l i. laws.get_keeps current l w;
        origin = laws.get_keeps current 0 w;
        linked = λ ok. absurd (ground (arith, laws.missing current w e));
        stopped = λ ok z. absurd (pos z);
      }
      got new pos (some h) e rest =
          step-Scans way list parent current result (apa.get current w).0 h w w1
            (ground (arith, laws.found current h w e)) pos new
            (laws.get_keeps current current w ∙ sym (laws.gets current w) ∙ e)
            (λ l. laws.get_keeps current l w)
            (scan_links apa way fuel (list ++ current ∷ [])
              (ahead way (relink apa way current parent h w1).0)
              ((relink apa way current parent h w1).0).start (apa.get current w).0
              (relink apa way current parent h w1).1)
            (rest h)
