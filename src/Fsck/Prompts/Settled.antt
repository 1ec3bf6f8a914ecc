-- ===== src/Fsck/Prompts/Settled.antt =====
-- The prompts as they keep the error flag and the counts in agreement.
use hddchecker.Prelude.{
  ℕ, zero, suc, ◌-◌, ◌==◌, ◌≡◌, Bool, true, false, Option, none, some, List, if◌then◌else◌, RetCode,
  ret, arith,
}
use hddchecker.Fsck.Prompts.{
  Attribute, is_eio, part, attribute_sectors, nullify, repair_attribute, check_parts,
  check_attribute, Key, Session, left, repaired, count_error, read_answer, prompt_action,
  prompt_action2,
}

-- As long as the error flag does not stand, every error that was counted is counted as repaired.
abbrev pub IsSettled : Session → Type 0
IsSettled s = s.has_error ≡ false → s.errors ≡ s.fixed

abbrev pub AnswersIn : (Session → Type 0) → Option (Bool × Session × List Key) → Type 0
AnswersIn P none = Unit {0}
AnswersIn P (some (a, s, ks)) = P s

abbrev pub Settles : Option (Bool × Session × List Key) → Type 0
Settles o = AnswersIn IsSettled o

pub action-Settles :
    (mode : Bool) (s : Session) (ks : List Key) → IsSettled s → Settles (prompt_action mode s ks)
unfolding prompt_action
action-Settles mode s ks h = go mode s.write_enabled s.auto_mode
  where
    fine : IsSettled (repaired (count_error s))
    fine e = ground (arith, h e)

    asked :
        (o : Option (Bool × List Key))
        → Settles (elim o [
          | none ↦ none
          | some (true, ks') ↦ some (true, repaired (count_error s), ks')
          | some (false, ks') ↦ some (false, left (count_error s), ks')
        ])
    asked none = tt
    asked (some (true, ks')) = fine
    asked (some (false, ks')) = λ e. cc

    go :
        (m w a : Bool)
        → Settles (
            if w
            then if a
              then some (m, if m then repaired (count_error s) else left (count_error s), ks)
              else elim (read_answer ks) [
                | none ↦ none
                | some (true, ks') ↦ some (true, repaired (count_error s), ks')
                | some (false, ks') ↦ some (false, left (count_error s), ks')
              ]
            else some (false, left (count_error s), ks))
    go m false a = λ e. cc
    go true true true = fine
    go false true true = λ e. cc
    go m true false = asked (read_answer ks)

pub action2-Settles :
    (mode : Bool) (s : Session) (ks : List Key) → IsSettled s → Settles (prompt_action2 mode s ks)
unfolding prompt_action2
action2-Settles mode s ks h = go mode s.write_enabled s.auto_mode
  where
    asked :
        (o : Option (Bool × List Key))
        → Settles (elim o [
          | none ↦ none
          | some (true, ks') ↦ some (true, s, ks')
          | some (false, ks') ↦ some (false, left s, ks')
        ])
    asked none = tt
    asked (some (true, ks')) = h
    asked (some (false, ks')) = λ e. cc

    go :
        (m w a : Bool)
        → Settles (
            if w
            then if a then some (m, if m then s else left s, ks) else elim (read_answer ks) [
              | none ↦ none
              | some (true, ks') ↦ some (true, s, ks')
              | some (false, ks') ↦ some (false, left s, ks')
            ]
            else some (false, left s, ks))
    go m false a = λ e. cc
    go true true true = h
    go false true true = λ e. cc
    go m true false = asked (read_answer ks)

-- The check of the extended attribute keeps what its prompt keeps.
abbrev pub ResultIn :
    {W : Type 0} → (Session → Type 0) → Option (RetCode × Session × List Key × W) → Type 0
ResultIn P none = Unit {0}
ResultIn P (some (r, s, ks, w)) = P s

module _ {W : Type 0} (io : Attribute W) (buffer : ℕ) (P : Session → Type 0)
    (k : (mode : Bool) (s : Session) (ks : List Key)
      → P s
      → AnswersIn P (prompt_action mode s ks)) where
  repair-ResultIn :
      (done : RetCode × W) (s : Session) (ks : List Key)
      → P s
      → ResultIn P (repair_attribute io buffer done s ks)
  unfolding repair_attribute
  repair-ResultIn done s ks h = asked (prompt_action true s ks) (k true s ks h)
    where
      nullified :
          (s' : Session) (ks' : List Key) (o : Option (RetCode × W))
          → P s'
          → ResultIn P (elim o [ none ↦ none | some (r, w') ↦ some (r, s', ks', w') ])
      nullified s' ks' none h = tt
      nullified s' ks' (some (r, w')) h = h

      asked :
          (o : Option (Bool × Session × List Key))
          → AnswersIn P o
          → ResultIn P (elim o [
            | none ↦ none
            | some (false, s', ks') ↦ some (ret 0, s', ks', done.1)
            | some (true, s', ks') ↦
                elim (nullify io buffer
                  (suc attribute_sectors)
                  attribute_sectors
                  (ret 0)
                  (io.rewind done.1)) [ none ↦ none | some (r, w') ↦ some (r, s', ks', w') ]
          ])
      asked none h = tt
      asked (some (false, s', ks')) h = h
      asked (some (true, s', ks')) h =
          nullified s' ks'
            (nullify io buffer (suc attribute_sectors) attribute_sectors (ret 0) (io.rewind done.1))
            h

  parts-ResultIn :
      (fuel remaining : ℕ) (s : Session) (ks : List Key) (w : W)
      → P s
      → ResultIn P (check_parts io buffer fuel remaining s ks w)
  unfolding check_parts
  parts-ResultIn zero remaining s ks w h = tt
  parts-ResultIn (suc fuel) remaining s ks w h =
      go (remaining == 0) (is_eio (io.read (part buffer remaining) w).0) (
        parts-ResultIn fuel (remaining - part buffer remaining) s ks
          (io.read (part buffer remaining) w).1 h)
    where
      go :
          (b e : Bool)
          → ResultIn P (
              check_parts io buffer fuel
                (remaining - part buffer remaining)
                s
                ks
                (io.read (part buffer remaining) w).1)
          → ResultIn P (elim b [
            | true ↦ some (ret 0, s, ks, w)
            | false ↦ elim e [
              | true ↦ repair_attribute io buffer (io.read (part buffer remaining) w) s ks
              | false ↦
                  check_parts io buffer fuel
                    (remaining - part buffer remaining)
                    s
                    ks
                    (io.read (part buffer remaining) w).1
            ]
          ])
      go true e r = h
      go false true r = repair-ResultIn (io.read (part buffer remaining) w) s ks h
      go false false r = r

  pub attribute-ResultIn :
      (s : Session) (ks : List Key) (w : W) → P s → ResultIn P (check_attribute io buffer s ks w)
  unfolding check_attribute
  attribute-ResultIn s ks w h =
      parts-ResultIn (suc attribute_sectors) attribute_sectors s ks (io.rewind w) h
