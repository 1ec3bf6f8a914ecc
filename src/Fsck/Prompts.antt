-- ===== src/Fsck/Prompts.antt =====
-- The prompts of fsck/fsck.c, which decide whether an error is repaired and count it, and the check
-- of the extended attribute, which uses one. The keys that the user presses are a list.
pub mod Ending
pub mod Counts
pub mod Modes
pub mod Settled
mod Tests
use hddchecker.Prelude.{
  ℕ, zero, suc, ◌+◌, ◌-◌, Bool, true, false, not, Option, none, some, List, [], ◌∷◌, ltb, ◌==◌,
  if◌then◌else◌, RetCode, ret, err, eio, is_neg, add32,
}

pub data Key : Type 0 where
  yes_key no_key other_key : Key

-- fsckWriteEnabled, fsckAutoMode, and the counts of fsckRuntimeData.
pub record Session : Type 0 where
  pub write_enabled : Bool
  pub auto_mode : Bool
  pub errors : ℕ
  pub fixed : ℕ
  pub has_error : Bool

-- The loop that reads keys until one answers.
pub read_answer : List Key → Option (Bool × List Key)
read_answer [] = none
read_answer (yes_key ∷ ks) = some (true, ks)
read_answer (no_key ∷ ks) = some (false, ks)
read_answer (other_key ∷ ks) = read_answer ks

-- An error that is counted, and that is repaired or left.
abbrev pub count_error : Session → Session
count_error s = record s { errors = add32 s.errors 1 }

abbrev pub repaired : Session → Session
repaired s = record s { fixed = add32 s.fixed 1 }

abbrev pub left : Session → Session
left s = record s { has_error = true }

-- fsckPromptUserAction; `mode` is the answer of the automatic mode.
pub prompt_action : Bool → Session → List Key → Option (Bool × Session × List Key)
unfolding read_answer
prompt_action mode s ks =
    let s1 = count_error s in
    if s.write_enabled
    then if s.auto_mode
      then some (mode, if mode then repaired s1 else left s1, ks)
      else elim (read_answer ks) [
        | none ↦ none
        | some (true, ks') ↦ some (true, repaired s1, ks')
        | some (false, ks') ↦ some (false, left s1, ks')
      ]
    else some (false, left s1, ks)

-- fsckPromptUserAction2, which counts nothing.
pub prompt_action2 : Bool → Session → List Key → Option (Bool × Session × List Key)
unfolding read_answer
prompt_action2 mode s ks =
    if s.write_enabled
    then if s.auto_mode
      then some (mode, if mode then s else left s, ks)
      else elim (read_answer ks) [
        | none ↦ none
        | some (true, ks') ↦ some (true, s, ks')
        | some (false, ks') ↦ some (false, left s, ks')
      ]
    else some (false, left s, ks)

-- lseek to the start, read and write of the partition's file, in sectors.
pub record Attribute (W : Type 0) : Type 0 where
  pub rewind : W → W
  pub read : ℕ → W → RetCode × W
  pub write_zeros : ℕ → W → RetCode × W

-- 0x1FF8 sectors, at most IO_BUFFER_SIZE at a time.
abbrev pub attribute_sectors : ℕ
attribute_sectors = 8184

abbrev pub part : ℕ → ℕ → ℕ
part buffer remaining = if ltb buffer remaining then buffer else remaining

-- `-EIO` alone counts as a failed read.
abbrev pub is_eio : RetCode → Bool
is_eio (err eio) = true
is_eio r = false

module _ {W : Type 0} (io : Attribute W) (buffer : ℕ) where
  -- The inner loop, which overwrites the whole attribute.
  pub nullify : ℕ → ℕ → RetCode → W → Option (RetCode × W)
  nullify zero remaining result w = none
  nullify (suc fuel) remaining result w =
      let done = io.write_zeros (part buffer remaining) w in
      let rest = nullify fuel (remaining - part buffer remaining) done.0 done.1 in
      if remaining == 0 then some (result, w) else if is_neg done.0 then some done else rest

  -- What follows a failed read.
  pub repair_attribute :
      RetCode × W → Session → List Key → Option (RetCode × Session × List Key × W)
  unfolding prompt_action nullify
  repair_attribute done s ks = elim (prompt_action true s ks) [
    | none ↦ none
    | some (false, s', ks') ↦ some (ret 0, s', ks', done.1)
    | some (true, s', ks') ↦
        elim (nullify (suc attribute_sectors) attribute_sectors (ret 0) (io.rewind done.1)) [
          | none ↦ none
          | some (r, w') ↦ some (r, s', ks', w')
        ]
  ]

  pub check_parts : ℕ → ℕ → Session → List Key → W → Option (RetCode × Session × List Key × W)
  unfolding repair_attribute
  check_parts zero remaining s ks w = none
  check_parts (suc fuel) remaining s ks w =
      let done = io.read (part buffer remaining) w in
      elim (remaining == 0) [
        | true ↦ some (ret 0, s, ks, w)
        | false ↦ elim (is_eio done.0) [
          | true ↦ repair_attribute done s ks
          | false ↦ check_parts fuel (remaining - part buffer remaining) s ks done.1
        ]
      ]

  -- fsckCheckExtendedAttribute
  pub check_attribute : Session → List Key → W → Option (RetCode × Session × List Key × W)
  unfolding check_parts
  check_attribute s ks w = check_parts (suc attribute_sectors) attribute_sectors s ks (io.rewind w)
