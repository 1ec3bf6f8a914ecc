-- ===== src/Fsck/Run/Keeps.antt =====
-- Invariants of the actions of fsck, with a rule for each way to build one.
use hddchecker.Prelude.{ℕ, Bool, true, false, Option, none, some, RetCode, if◌then◌else◌}
use hddchecker.Fsck.Bitmap.{Cache}
use hddchecker.Fsck.Layout.{Fetched, fetched, failed}
use hddchecker.Fsck.Run.{
  with_cache, on_option, on_fetched, Status, Env, Action, pure, gives_up, io, continue, ◌>>=◌,
  prompt, prompt2, mark_error, has_error, fixed_count, get_status, set_status, stopped,
}

-- `P` of how a run ends: in a state, or with no value.
abbrev pub Holds : {W A : Type 0} → (Option (Env W) → Type 0) → Option (A × Env W) → Type 0
Holds P none = P none
Holds P (some (a, s)) = P (some s)

-- From a state with `P`, a run of `m` ends with `P`.
pub record Keeps {W A : Type 0} (P : Option (Env W) → Type 0) (m : Action W A) : Type 0 where
  pub at : (s : Env W) → P (some s) → Holds P (m s)

-- `P` of the state that a run ends in, and `N` of one that has no value: nothing is said of those,
-- or there is none.
abbrev pub Ending : {W : Type 0} → Type 0 → (Env W → Type 0) → Option (Env W) → Type 0
Ending N P none = N
Ending N P (some s) = P s

abbrev pub Within : {W : Type 0} → (Env W → Type 0) → Option (Env W) → Type 0
Within P = Ending (Unit {0}) P

abbrev pub Always : {W : Type 0} → (Env W → Type 0) → Option (Env W) → Type 0
Always P = Ending ⊥ P

module _ {W A : Type 0} {P : Option (Env W) → Type 0} where
  pub Keeps-pure : (a : A) → Keeps P (pure a)
  unfolding pure
  Keeps-pure a = record { at = λ s h. h }

  pub Keeps-gives_up : P none → Keeps P (gives_up {W = W} {A = A})
  unfolding gives_up
  Keeps-gives_up n = record { at = λ s h. n }

  pub Keeps-if :
      (b : Bool) (m n : Action W A) → Keeps P m → Keeps P n → Keeps P (if b then m else n)
  Keeps-if true m n km kn = km
  Keeps-if false m n km kn = kn

module _ {W A B : Type 0} {P : Option (Env W) → Type 0} where
  pub continue-Holds :
      (f : A → Action W B) (o : Option (A × Env W))
      → ((a : A) → Keeps P (f a))
      → Holds P o
      → Holds P (continue o f)
  continue-Holds f none kf h = h
  continue-Holds f (some (a, s)) kf h = (kf a).at s h

  pub Keeps-bind :
      (m : Action W A) (f : A → Action W B)
      → Keeps P m
      → ((a : A) → Keeps P (f a))
      → Keeps P (m >>= f)
  unfolding ◌>>=◌
  Keeps-bind m f km kf = record { at = λ s h. continue-Holds f (m s) kf (km.at s h) }

module _ {W A B : Type 0} {P : Option (Env W) → Type 0} where
  pub Keeps-on_option :
      (o : Option A) (m : Action W B) (f : A → Action W B)
      → Keeps P m
      → ((a : A) → Keeps P (f a))
      → Keeps P (on_option o m f)
  unfolding on_option
  Keeps-on_option none m f km kf = km
  Keeps-on_option (some a) m f km kf = kf a

module _ {W B : Type 0} {P : Option (Env W) → Type 0} where
  pub Keeps-on_fetched :
      (o : Fetched) (m : RetCode → Action W B) (f : ℕ → Action W B)
      → ((r : RetCode) → Keeps P (m r))
      → ((h : ℕ) → Keeps P (f h))
      → Keeps P (on_fetched o m f)
  unfolding on_fetched
  Keeps-on_fetched (failed r) m f km kf = km r
  Keeps-on_fetched (fetched h) m f km kf = kf h

-- A property that does not look at the world.
module _ {W A : Type 0} {P : Option (Env W) → Type 0} where
  pub Keeps-any_io :
      (f : W → A × W)
      → ((s : Env W) (w : W) → P (some s) → P (some (record s { world = w })))
      → Keeps P (io f)
  unfolding io
  Keeps-any_io f h = record { at = λ s p. h s (f s.world).1 p }

pub ruleset keeps_rules =
    (Keeps-pure, Keeps-gives_up, Keeps-if, Keeps-bind, Keeps-on_option, Keeps-on_fetched)

-- `P` is about what the user, the marks of errors and the stop requests change, and holds whatever
-- the device does; and whatever the code of the bitmap does.
pub record Stable {W : Type 0} (P : Option (Env W) → Type 0) : Type 1 where
  pub on_prompt : (mode : Bool) → Keeps P (prompt mode)
  pub on_prompt2 : (mode : Bool) → Keeps P (prompt2 mode)
  pub on_mark_error : Keeps P mark_error
  pub on_set_status : (f : Status → Status) → Keeps P (set_status f)
  pub on_stopped : Keeps P stopped
  pub on_io : {A : Type 0} (f : W → A × W) → Keeps P (io f)

pub record OnCache {W : Type 0} (P : Option (Env W) → Type 0) : Type 1 where
  pub on_with_cache : {A : Type 0} (f : Cache → W → Option (A × Cache × W)) → Keeps P (with_cache f)

module _ {W : Type 0} {P : Option (Env W) → Type 0} (st : Stable P) where
  pub Keeps-prompt : (mode : Bool) → Keeps P (prompt mode)
  Keeps-prompt mode = st.on_prompt mode

  pub Keeps-prompt2 : (mode : Bool) → Keeps P (prompt2 mode)
  Keeps-prompt2 mode = st.on_prompt2 mode

  pub Keeps-mark_error : Keeps P mark_error
  Keeps-mark_error = st.on_mark_error

  pub Keeps-set_status : (f : Status → Status) → Keeps P (set_status f)
  Keeps-set_status f = st.on_set_status f

  pub Keeps-stopped : Keeps P stopped
  Keeps-stopped = st.on_stopped

  pub Keeps-io : {A : Type 0} (f : W → A × W) → Keeps P (io f)
  Keeps-io f = st.on_io f

module _ {W : Type 0} {P : Option (Env W) → Type 0} where
  pub Keeps-has_error : Keeps P has_error
  unfolding has_error
  Keeps-has_error = record { at = λ s h. h }

  pub Keeps-fixed_count : Keeps P fixed_count
  unfolding fixed_count
  Keeps-fixed_count = record { at = λ s h. h }

  pub Keeps-get_status : Keeps P get_status
  unfolding get_status
  Keeps-get_status = record { at = λ s h. h }

module _ {W A : Type 0} {P : Option (Env W) → Type 0} where
  pub Keeps-with_cache :
      (f : Cache → W → Option (A × Cache × W)) → OnCache P → Keeps P (with_cache f)
  Keeps-with_cache f oc = oc.on_with_cache f

pub ruleset kept_rules = (
  keeps_rules, Keeps-prompt, Keeps-prompt2, Keeps-mark_error, Keeps-has_error, Keeps-fixed_count,
  Keeps-get_status, Keeps-set_status, Keeps-stopped, Keeps-io, Keeps-with_cache,
)
