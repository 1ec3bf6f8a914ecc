-- ===== src/Fsck/Prompts/Counts.antt =====
-- The counts of the prompts agree with the error flag.
use hddchecker.Prelude.{
  ℕ, ◌+◌, ◌≤◌, ◌<◌, ◌≡◌, refl, Bool, true, false, Option, none, some, List, [], ◌∷◌, arith,
  if◌then◌else◌,
}
use hddchecker.Fsck.Prompts.{
  Key, Session, read_answer, count_error, repaired, left, prompt_action, prompt_action2,
}

-- No more errors are repaired than are counted, and the flag stands where one was left.
pub record IsCounted (s : Session) : Type 0 where
  pub bounded : s.fixed ≤ s.errors
  pub flagged : s.fixed < s.errors → s.has_error ≡ true

-- Prompts one after the other: each with its automatic answer, and whether it counts an error.
unfoldable pub prompts : List (Bool × Bool) → Session → List Key → Option (Session × List Key)
prompts [] s ks = some (s, ks)
prompts ((counts, mode) ∷ ps) s ks =
    elim (if counts then prompt_action mode s ks else prompt_action2 mode s ks) [
      | none ↦ none
      | some (answer, s', ks') ↦ prompts ps s' ks'
    ]

abbrev Counts : ℕ → Option (Bool × Session × List Key) → Type 0
Counts n none = Unit {0}
Counts n (some (answer, s, ks)) = IsCounted s × (s.errors ≤ n)

left-IsCounted : (s : Session) → IsCounted s → IsCounted (left s)
left-IsCounted s v = record { bounded = v.bounded; flagged = λ h. refl }

module _ (s : Session) (v : IsCounted s) (small : s.errors < 4294967295) where
  noted-IsCounted : IsCounted (left (count_error s))
  noted-IsCounted = record { bounded = ground (arith, v.bounded); flagged = λ h. refl }

  repaired-IsCounted : IsCounted (repaired (count_error s))
  repaired-IsCounted = record {
    bounded = ground (arith, v.bounded);
    flagged = λ h. v.flagged (ground (arith, v.bounded));
  }

  action-Counts : (mode : Bool) (ks : List Key) → Counts (s.errors + 1) (prompt_action mode s ks)
  unfolding prompt_action
  action-Counts mode ks = go mode s.write_enabled s.auto_mode
    where
      asked :
          (o : Option (Bool × List Key))
          → Counts (s.errors + 1) (elim o [
            | none ↦ none
            | some (true, ks') ↦ some (true, repaired (count_error s), ks')
            | some (false, ks') ↦ some (false, left (count_error s), ks')
          ])
      asked none = tt
      asked (some (true, ks')) = (repaired-IsCounted, omega arith)
      asked (some (false, ks')) = (noted-IsCounted, omega arith)

      go :
          (m w a : Bool)
          → Counts (s.errors + 1) (
              if w
              then if a
                then some (m, if m then repaired (count_error s) else left (count_error s), ks)
                else elim (read_answer ks) [
                  | none ↦ none
                  | some (true, ks') ↦ some (true, repaired (count_error s), ks')
                  | some (false, ks') ↦ some (false, left (count_error s), ks')
                ]
              else some (false, left (count_error s), ks))
      go m false a = (noted-IsCounted, omega arith)
      go true true true = (repaired-IsCounted, omega arith)
      go false true true = (noted-IsCounted, omega arith)
      go m true false = asked (read_answer ks)

  action2-Counts : (mode : Bool) (ks : List Key) → Counts (s.errors + 1) (prompt_action2 mode s ks)
  unfolding prompt_action2
  action2-Counts mode ks = go mode s.write_enabled s.auto_mode
    where
      asked :
          (o : Option (Bool × List Key))
          → Counts (s.errors + 1) (elim o [
            | none ↦ none
            | some (true, ks') ↦ some (true, s, ks')
            | some (false, ks') ↦ some (false, left s, ks')
          ])
      asked none = tt
      asked (some (true, ks')) = (v, omega arith)
      asked (some (false, ks')) = (left-IsCounted s v, omega arith)

      go :
          (m w a : Bool)
          → Counts (s.errors + 1) (
              if w
              then if a then some (m, if m then s else left s, ks) else elim (read_answer ks) [
                | none ↦ none
                | some (true, ks') ↦ some (true, s, ks')
                | some (false, ks') ↦ some (false, left s, ks')
              ]
              else some (false, left s, ks))
      go m false a = (left-IsCounted s v, omega arith)
      go true true true = (v, omega arith)
      go false true true = (left-IsCounted s v, omega arith)
      go m true false = asked (read_answer ks)

  prompt-Counts :
      (counts mode : Bool) (ks : List Key)
      → Counts (s.errors + 1) (if counts then prompt_action mode s ks else prompt_action2 mode s ks)
  prompt-Counts true mode ks = action-Counts mode ks
  prompt-Counts false mode ks = action2-Counts mode ks

abbrev size : List (Bool × Bool) → ℕ
size [] = 0
size (p ∷ ps) = size ps + 1

abbrev Counted : Option (Session × List Key) → Type 0
Counted none = Unit {0}
Counted (some (s, ks)) = IsCounted s

prompts-Counted :
    (ps : List (Bool × Bool)) (s : Session) (ks : List Key)
    → IsCounted s
    → s.errors + size ps < 4294967296
    → Counted (prompts ps s ks)
unfolding prompts
prompts-Counted [] s ks v small = v
prompts-Counted ((counts, mode) ∷ ps) s ks v small =
    next (if counts then prompt_action mode s ks else prompt_action2 mode s ks)
      (prompt-Counts s v (omega arith) counts mode ks)
      (λ s' ks' v' le. prompts-Counted ps s' ks' v' (omega arith))
  where
    next :
        (o : Option (Bool × Session × List Key))
        → Counts (s.errors + 1) o
        → ((s' : Session) (ks' : List Key)
            → IsCounted s'
            → s'.errors ≤ s.errors + 1
            → Counted (prompts ps s' ks'))
        → Counted (elim o [ none ↦ none | some (answer, s', ks') ↦ prompts ps s' ks' ])
    next none h rest = tt
    next (some (answer, s', ks')) (v', le) rest = rest s' ks' v' le

-- After fewer than 2 ^ 32 prompts, in any mode and with any keys, at most as many errors are
-- counted as repaired as were found; and if the error flag does not stand, all that were found
-- are counted as repaired.
pub prompts_repaired :
    (ps : List (Bool × Bool)) (s s' : Session) (ks ks' : List Key)
    → IsCounted s
    → s.errors + size ps < 4294967296
    → prompts ps s ks ≡ some (s', ks')
    → (s'.fixed ≤ s'.errors) × (s'.has_error ≡ false → s'.fixed ≡ s'.errors)
prompts_repaired ps s s' ks ks' v small run =
    let h : Counted (some (s', ks')) = rw run at (prompts-Counted ps s ks v small) in
    (h.bounded, λ e. ground (arith, h.bounded, h.flagged))
