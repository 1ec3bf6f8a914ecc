-- ===== src/Hdck/Maps.antt =====
-- ReadPartitionMap and DeleteFreePartitions of hdck/hdck.c, which walk along the links.
use hddchecker.Prelude.{
  ℕ, zero, suc, ◌+◌, ◌<◌, ◌≡◌, ◌∙◌, refl, ap, fun_ext, inl, inr, Bool, true, false, Option, none,
  some, List, [], ◌∷◌, ◌++◌, arith, ◌==◌, if◌then◌else◌, Bool-cases, RetCode, ret,
}
use hddchecker.Hdck.{Header, Apa, forward}
use hddchecker.Hdck.Links.{ApaLaws, Linked}

-- MainMap and SubMap, less their counts.
pub record PartMap : Type 0 where
  pub mains : List ℕ
  pub subs : List ℕ

abbrev pub record_header : Header → PartMap → PartMap
record_header h m =
    if h.kind == 0
    then m
    else if h.is_sub
    then record m { subs = m.subs ++ h.start ∷ [] }
    else record m { mains = m.mains ++ h.start ∷ [] }

module _ {W : Type 0} (apa : Apa W) where
  pub map_loop : ℕ → ℕ → RetCode → PartMap → W → Option (RetCode × PartMap × W)
  map_loop zero sector result m w = none
  map_loop (suc fuel) sector result m w = elim (sector == 0) [
    | true ↦ some (result, m, w)
    | false ↦
        let (r, found, w1) = apa.get sector w in
        elim found [
          | none ↦ some (r, m, w1)
          | some h ↦ map_loop fuel h.next r (record_header h m) w1
        ]
  ]

  pub read_map : ℕ → Header → W → Option (RetCode × PartMap × W)
  read_map fuel mbr w = map_loop fuel mbr.next (ret 0) (record { mains = []; subs = [] }) w

  -- apaDeleteFixPrev is the parameter `delete`: the header that it gives, or none for NULL.
  pub delete_free : (ℕ → Header → W → Option Header × W) → ℕ → ℕ → W → Option W
  delete_free delete zero sector w = none
  delete_free delete (suc fuel) sector w = elim (sector == 0) [
    | true ↦ some w
    | false ↦
        let (r, found, w1) = apa.get sector w in
        elim found [
          | none ↦ some w1
          | some h ↦ elim (h.kind == 0) [
            | false ↦ delete_free delete fuel h.next w1
            | true ↦
                let (merged, w2) = delete sector h w1 in
                elim merged [ none ↦ some w2 | some h' ↦ delete_free delete fuel h'.next w2 ]
          ]
        ]
  ]

-- The starts of the headers at the addresses `ls` that are in use and are sub-partitions, or main
-- partitions, in their order.
abbrev pub add_start : Bool → Header → List ℕ → List ℕ
add_start is_sub h ls =
    if h.kind == 0
    then ls
    else if h.is_sub
    then if is_sub then h.start ∷ ls else ls
    else if is_sub
    then ls
    else h.start ∷ ls

abbrev pub starts : Bool → (ℕ → Option Header) → List ℕ → List ℕ
starts is_sub f [] = []
starts is_sub f (l ∷ ls) = elim (f l) [
  | none ↦ starts is_sub f ls
  | some h ↦ add_start is_sub h (starts is_sub f ls)
]

abbrev pub count : List ℕ → ℕ
count [] = 0
count (l ∷ ls) = count ls + 1

append_one : (xs ys : List ℕ) (x : ℕ) → (xs ++ x ∷ []) ++ ys ≡ xs ++ x ∷ ys
append_one [] ys x = refl
append_one (z ∷ xs) ys x = ap (λ t. z ∷ t) (append_one xs ys x)

append_none : (xs : List ℕ) → xs ++ [] ≡ xs
append_none [] = refl
append_none (x ∷ xs) = ap (λ t. x ∷ t) (append_none xs)

abbrev extend : (ℕ → Option Header) → List ℕ → PartMap → PartMap
extend f ls m = record { mains = m.mains ++ starts false f ls; subs = m.subs ++ starts true f ls }

starts_at :
    (b : Bool) (f : ℕ → Option Header) (l : ℕ) (ls : List ℕ) (h : Header)
    → f l ≡ some h
    → add_start b h (starts b f ls) ≡ starts b f (l ∷ ls)
starts_at b f l ls h e = rw (e, starts) refl

mains_grow :
    (h : Header) (m : PartMap) (xs : List ℕ)
    → (record_header h m).mains ++ xs ≡ m.mains ++ add_start false h xs
mains_grow h m xs = elim (Bool-cases (h.kind == 0)) [
  | inl unused ↦ rw unused refl
  | inr in_use ↦ rw in_use (elim (Bool-cases h.is_sub) [
    | inl sub ↦ rw sub refl
    | inr main ↦ rw main (append_one m.mains xs h.start)
  ])
]

subs_grow :
    (h : Header) (m : PartMap) (xs : List ℕ)
    → (record_header h m).subs ++ xs ≡ m.subs ++ add_start true h xs
subs_grow h m xs = elim (Bool-cases (h.kind == 0)) [
  | inl unused ↦ rw unused refl
  | inr in_use ↦ rw in_use (elim (Bool-cases h.is_sub) [
    | inl sub ↦ rw sub (append_one m.subs xs h.start)
    | inr main ↦ rw main refl
  ])
]

extend-record_header :
    (f : ℕ → Option Header) (l : ℕ) (ls : List ℕ) (h : Header) (m : PartMap)
    → f l ≡ some h
    → extend f ls (record_header h m) ≡ extend f (l ∷ ls) m
extend-record_header f l ls h m e =
    ap (λ t. record { mains = t; subs = (record_header h m).subs ++ starts true f ls })
      (mains_grow h m (starts false f ls) ∙ ap (λ t. m.mains ++ t) (starts_at false f l ls h e))
    ∙ ap (λ t. record { mains = m.mains ++ starts false f (l ∷ ls); subs = t })
        (subs_grow h m (starts true f ls) ∙ ap (λ t. m.subs ++ t) (starts_at true f l ls h e))

module _ {W : Type 0} (apa : Apa W) (at : W → ℕ → Option Header) (laws : ApaLaws apa at) where
  map_loop-Linked :
      (f : ℕ → Option Header) (fuel parent sector last : ℕ) (ls : List ℕ) (m : PartMap) (w : W)
      → at w ≡ f
      → Linked forward f parent sector ls last
      → count ls < fuel
      → (w' : W) × (map_loop apa fuel sector (ret 0) m w ≡ some (ret 0, extend f ls m, w'))
  unfolding map_loop
  map_loop-Linked f zero parent sector last ls m w same h enough = absurd (omega arith)
  map_loop-Linked f (suc fuel) parent sector last [] m w same (z, e) enough =
      (w, rw z (ap (λ t. some (ret 0, t, w)) (nothing m)))
    where
      nothing : (m : PartMap) → m ≡ extend f [] m
      nothing m = rw (append_none m.mains, append_none m.subs) refl
  map_loop-Linked f (suc fuel) parent sector last (l ∷ ls) m w same
        (here, pos, h, found, back, rest) enough =
      let found' : (apa.get sector w).1 ≡ some h =
        laws.gets sector w ∙ ap (λ g. g sector) same ∙ ap f here ∙ found in
      let zeroth : (sector == 0) ≡ false = ground arith in
      let (w', run) =
        map_loop-Linked f fuel h.start h.next last ls (record_header h m) (apa.get sector w).2
          (fun_ext (λ a. laws.get_keeps sector a w) ∙ same) rest (omega arith) in
      (
        w',
        rw (zeroth, found', laws.found sector h w found', map_loop)
            (run ∙ ap (λ t. some (ret 0, t, w')) (extend-record_header f l ls h m found)),
      )

  -- If the headers are linked forward from header 0 and the fuel is more than their number, the
  -- map has no error, and lists the starts of the main partitions among them, and of the
  -- sub-partitions, each in the order of the links; headers that are not in use are left out.
  pub read_map_lists :
      (fuel last : ℕ) (path : List ℕ) (mbr : Header) (w : W)
      → Linked forward (at w) 0 mbr.next path last
      → count path < fuel
      → (w' : W) × (read_map apa fuel mbr w
          ≡ some (
            ret 0,
            record { mains = starts false (at w) path; subs = starts true (at w) path },
            w',
          ))
  unfolding read_map
  read_map_lists fuel last path mbr w h enough =
      map_loop-Linked (at w) fuel 0 mbr.next last path (record { mains = []; subs = [] }) w refl h
        enough
