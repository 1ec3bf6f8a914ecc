-- ===== src/Hdsk/Sim/Find.antt =====
-- What the searches of hdsk/sim.c find.
use hddchecker.Prelude.{
  ℕ, zero, suc, ◌≡◌, ◌≢◌, ◌<◌, ◌⊎◌, refl, sym, subst, inl, inr, Bool, true, false, not, ◌&&◌, some,
  List, [], ◌∷◌, length, arith, ltb, ◌==◌, if◌then◌else◌, Bool-cases,
}
use hddchecker.Hdsk.Sim.{Slots, head, is_empty_of, is_chosen, find_empty, find_last_used}

-- The entries behind `part`, up to the last one.
abbrev pub Behind : Slots → ℕ → List ℕ → Type 0
Behind s part [] = (s part).next ≡ head
Behind s part (l ∷ ls) = ((s part).next ≡ l) × (l ≢ head) × (l ≢ 0) × Behind s l ls

-- All entries from `part` on but the last one.
abbrev pub all_but_last : ℕ → List ℕ → List ℕ
all_but_last part [] = []
all_but_last part (l ∷ ls) = part ∷ all_but_last l ls

abbrev pub is_in : ℕ → List ℕ → Bool
is_in p [] = false
is_in p (l ∷ ls) = if p == l then true else is_in p ls

-- The search either gives an entry that fits or none of those it looks at does.
abbrev pub FindsEmpty : ℕ → Slots → List ℕ → ℕ → Type 0
FindsEmpty size s ls p =
    ((is_in p ls ≡ true) × (is_empty_of size (s p) ≡ true))
    ⊎ ((p ≡ 0) × ((q : ℕ) → is_in q ls ≡ true → is_empty_of size (s q) ≡ false))

-- The search for an empty partition ends, with one of the size that is asked for, or with NULL
-- where no entry of the list but the last one, which it does not look at, is empty and of that
-- size.
pub find_empty_finds :
    (fuel size part : ℕ) (ls : List ℕ) (s : Slots)
    → Behind s part ls
    → length ls < fuel
    → (p : ℕ) × (find_empty fuel size part s ≡ some p) × FindsEmpty size s (all_but_last part ls) p
unfolding find_empty
find_empty_finds zero size part ls s h enough = absurd (omega arith)
find_empty_finds (suc fuel) size part [] s h enough =
    let last : ((s part).next == head) ≡ true = ground arith in
    (0, rw (last, find_empty) refl, inr (refl, λ q i. absurd (ground arith)))
find_empty_finds (suc fuel) size part (l ∷ ls) s (here, other, pos, h) enough =
    let more : ((s part).next == head) ≡ false = ground arith in
    elim (Bool-cases (is_empty_of size (s part))) [
      | inl fits ↦ (part, rw (more, find_empty, fits) refl, inl (ground arith, fits))
      | inr no_fit ↦
          let (p, run, found) = find_empty_finds fuel size l ls s h (omega arith) in
          (p, rw (more, find_empty, no_fit, here) run, carry no_fit found)
    ]
  where
    is_same : (q : ℕ) → (q == part) ≡ true → q ≡ part
    is_same q e = ground arith

    carry :
        {p : ℕ}
        → is_empty_of size (s part) ≡ false
        → FindsEmpty size s (all_but_last l ls) p
        → FindsEmpty size s (part ∷ all_but_last l ls) p
    carry no_fit (inl (i, fits)) = inl (ground arith, fits)
    carry no_fit (inr (z, absent)) = inr (
      z,
      λ q i. elim (Bool-cases (q == part)) [
        | inl same ↦ rw (is_same q same) no_fit
        | inr different ↦ absent q (ground arith)
      ],
    )

-- The entries from `part` backwards, up to the head.
abbrev pub Back : Slots → ℕ → List ℕ → Type 0
Back s part [] = part ≡ head
Back s part (l ∷ ls) = (part ≡ l) × (l ≢ 0) × Back s (s l).prev ls

-- A used partition of the size that begins behind `start`; in the second mode, one whose neighbour of
-- twice the size is empty, or that is the last.
abbrev pub IsUsed : ℕ → ℕ → Bool → Slots → ℕ → Type 0
IsUsed size start mode s p =
    (start < (s p).start)
    × ((s p).length ≡ size)
    × ((s p).kind ≢ 0)
    × (is_chosen size mode p s ≡ true)

-- The search for the last used partition ends, with NULL or with a used partition of the size that is
-- asked for, which begins behind the empty one, and which the mode allows.
pub find_last_used_finds :
    (fuel size start : ℕ) (mode : Bool) (part : ℕ) (ls : List ℕ) (s : Slots)
    → Back s part ls
    → length ls < fuel
    → (p : ℕ) × (find_last_used fuel size start mode part s ≡ some p)
      × ((p ≡ 0) ⊎ IsUsed size start mode s p)
unfolding find_last_used
find_last_used_finds zero size start mode part ls s h enough = absurd (omega arith)
find_last_used_finds (suc fuel) size start mode part [] s h enough =
    let ended : (ltb start (s part).start && not (part == head)) ≡ false = ground arith in
    (0, rw (ended, find_last_used) refl, inl refl)
find_last_used_finds (suc fuel) size start mode part (l ∷ ls) s (here, pos, h) enough =
    elim (Bool-cases (ltb start (s part).start && not (part == head))) [
      | inr ended ↦ (0, rw (ended, find_last_used) refl, inl refl)
      | inl goes_on ↦
          let back : Back s (s part).prev ls = subst (λ k. Back s (s k).prev ls) (sym here) h in
          elim (Bool-cases
            (((s part).length == size) && not ((s part).kind == 0) && is_chosen size mode part s)) [
              | inl fits ↦ (part, rw (goes_on, find_last_used, fits) refl, inr (ground arith))
              | inr no_fit ↦
                  let (p, run, found) =
                    find_last_used_finds fuel size start mode (s part).prev ls s back
                      (omega arith) in
                  (p, rw (goes_on, find_last_used, no_fit) run, found)
            ]
    ]
