-- ===== src/Fsck/Prompts/Ending.antt =====
-- The check of the extended attribute ends.
use hddchecker.Prelude.{
  ℕ, zero, suc, ◌-◌, ◌<◌, ◌≡◌, refl, inl, inr, Bool, true, false, Option, none, some, List, arith,
  ◌==◌, Bool-cases, RetCode, ret, is_neg,
}
use hddchecker.Fsck.Prompts.{
  Key, Session, prompt_action, Attribute, attribute_sectors, part, is_eio, nullify,
  repair_attribute, check_parts, check_attribute,
}

abbrev Ends : {A : Type 0} → Option A → Type 0
Ends none = ⊥
Ends (some x) = Unit {0}

action-Ends :
    (mode : Bool) (s : Session) (ks : List Key)
    → s.auto_mode ≡ true
    → Ends (prompt_action mode s ks)
unfolding prompt_action
action-Ends mode s ks auto = elim (Bool-cases s.write_enabled) [
  | inl e ↦ rw (e, auto) tt
  | inr e ↦ rw e tt
]

module _ {W : Type 0} (io : Attribute W) (buffer : ℕ) (pos : 0 < buffer) where
  nullify-Ends :
      (fuel remaining : ℕ) (result : RetCode) (w : W)
      → remaining < fuel
      → Ends (nullify io buffer fuel remaining result w)
  unfolding nullify
  nullify-Ends zero remaining result w enough = absurd (omega arith)
  nullify-Ends (suc fuel) remaining result w enough = elim (Bool-cases (remaining == 0)) [
    | inl e ↦ rw e tt
    | inr e ↦ rw e (elim (Bool-cases (is_neg done.0)) [
      | inl bad ↦ rw bad tt
      | inr ok ↦
          rw ok (nullify-Ends fuel (remaining - part buffer remaining) done.0 done.1 (ground arith))
    ])
  ]
    where
      done : RetCode × W
      done = io.write_zeros (part buffer remaining) w

  repair-Ends :
      (done : RetCode × W) (s : Session) (ks : List Key)
      → s.auto_mode ≡ true
      → Ends (repair_attribute io buffer done s ks)
  unfolding repair_attribute
  repair-Ends done s ks auto = asked (prompt_action true s ks) (action-Ends true s ks auto)
    where
      written :
          (s' : Session) (ks' : List Key) (o : Option (RetCode × W))
          → Ends o
          → Ends {A = RetCode × Session × List Key × W}
              (elim o [ none ↦ none | some (r, w') ↦ some (r, s', ks', w') ])
      written s' ks' none h = h
      written s' ks' (some (r, w')) h = tt

      asked :
          (o : Option (Bool × Session × List Key))
          → Ends o
          → Ends {A = RetCode × Session × List Key × W} (elim o [
            | none ↦ none
            | some (false, s', ks') ↦ some (ret 0, s', ks', done.1)
            | some (true, s', ks') ↦
                elim (nullify io buffer
                  (suc attribute_sectors)
                  attribute_sectors
                  (ret 0)
                  (io.rewind done.1)) [ none ↦ none | some (r, w') ↦ some (r, s', ks', w') ]
          ])
      asked none h = h
      asked (some (false, s', ks')) h = tt
      asked (some (true, s', ks')) h =
          written s' ks'
            (nullify io buffer (suc attribute_sectors) attribute_sectors (ret 0) (io.rewind done.1))
            (nullify-Ends (suc attribute_sectors) attribute_sectors (ret 0) (io.rewind done.1)
              (omega arith))

  parts-Ends :
      (fuel remaining : ℕ) (s : Session) (ks : List Key) (w : W)
      → s.auto_mode ≡ true
      → remaining < fuel
      → Ends (check_parts io buffer fuel remaining s ks w)
  unfolding check_parts
  parts-Ends zero remaining s ks w auto enough = absurd (omega arith)
  parts-Ends (suc fuel) remaining s ks w auto enough = elim (Bool-cases (remaining == 0)) [
    | inl e ↦ rw (e, check_parts) tt
    | inr e ↦
        rw (e, check_parts)
          (elim (Bool-cases (is_eio done.0)) [
            | inl bad ↦ rw bad (repair-Ends done s ks auto)
            | inr ok ↦ rw ok (
                parts-Ends fuel (remaining - part buffer remaining) s ks done.1 auto (ground arith))
          ])
  ]
    where
      done : RetCode × W
      done = io.read (part buffer remaining) w

  -- In the automatic mode, with a buffer of at least one sector, the check of the extended attribute
  -- ends, whatever the reads and the writes return.
  pub check_attribute_total :
      (s : Session) (ks : List Key) (w : W)
      → s.auto_mode ≡ true
      → (r : RetCode) × (s' : Session) × (ks' : List Key) × (w' : W) × (check_attribute io buffer s
            ks w
          ≡ some (r, s', ks', w'))
  unfolding check_attribute
  check_attribute_total s ks w auto =
      given (check_parts io buffer (suc attribute_sectors) attribute_sectors s ks (io.rewind w))
        (parts-Ends (suc attribute_sectors) attribute_sectors s ks (io.rewind w) auto (omega arith))
    where
      given :
          (o : Option (RetCode × Session × List Key × W))
          → Ends o
          → (r : RetCode) × (s' : Session) × (ks' : List Key) × (w' : W) × (o
              ≡ some (r, s', ks', w'))
      given none h = absurd h
      given (some (r, s', ks', w')) h = (r, s', ks', w', refl)
