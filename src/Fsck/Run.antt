-- ===== src/Fsck/Run.antt =====
-- The code of fsck/fsck.c as actions: they read and write the counts of fsckRuntimeData, ask the
-- user, and call the file system's device, whose state is `W`. A run that has no value is one in
-- which the user's keys, or the fuel of a loop, ran out.
pub mod Keeps
pub mod Leads
pub mod Modes
pub mod Settled
use hddchecker.Prelude.{
  ℕ, zero, suc, ◌+◌, Bool, true, false, Option, none, some, List, [], ◌∷◌, ◌||◌, if◌then◌else◌,
  RetCode, ret, add32,
}
use hddchecker.Fsck.Bitmap.{Cache}
use hddchecker.Fsck.Layout.{Mount, Fetched, fetched, failed}
use hddchecker.Fsck.Prompts.{Key, Session, prompt_action, prompt_action2, left}

-- fsckStatus, less the counts of errors, which are in `Session`.
pub record Status : Type 0 where
  pub zone_used : ℕ
  pub block_count : ℕ
  pub files : ℕ
  pub directories : ℕ
  pub level : ℕ

-- `clears` counts the calls of HIOCGETPARTERROR, and `is_done` is the bit of the event flag.
-- `requests` says, for each time that the thread looks at stopFlag, whether a request to stop has
-- come in since it last looked.
pub record Env (W : Type 0) : Type 0 where
  pub session : Session
  pub keys : List Key
  pub status : Status
  pub is_stopped : Bool
  pub requests : List Bool
  pub clears : ℕ
  pub is_done : Bool
  pub fd : ℕ
  pub mount : Mount
  pub cache : Cache
  pub world : W

abbrev pub Action : Type 0 → Type 0 → Type 0
Action W A = Env W → Option (A × Env W)

abbrev pub stop_request : List Bool → Bool
stop_request [] = false
stop_request (r ∷ rs) = r

abbrev pub later_requests : List Bool → List Bool
later_requests [] = []
later_requests (r ∷ rs) = rs

module _ {W A : Type 0} where
  pub pure : A → Action W A
  pure a s = some (a, s)

  pub gives_up : Action W A
  gives_up s = none

  -- A call of the device.
  pub io : (W → A × W) → Action W A
  io f s = let (a, w) = f s.world in some (a, record s { world = w })

module _ {W A B : Type 0} where
  abbrev pub continue : Option (A × Env W) → (A → Action W B) → Option (B × Env W)
  continue none f = none
  continue (some (a, s)) f = f a s

  infixl 5 ◌>>=◌ ◌>>◌
  unfoldable pub ◌>>=◌ : Action W A → (A → Action W B) → Action W B
  ◌>>=◌ m f s = continue (m s) f

  abbrev pub ◌>>◌ : Action W A → Action W B → Action W B
  m >> n = m >>= λ _. n

module _ {W : Type 0} where
  abbrev pub answered : Env W → Option (Bool × Session × List Key) → Option (Bool × Env W)
  answered s none = none
  answered s (some (a, c, ks)) = some (a, record s { session = c; keys = ks })

  -- fsckPromptUserAction and fsckPromptUserAction2 of a repair.
  pub prompt : Bool → Action W Bool
  prompt mode s = answered s (prompt_action mode s.session s.keys)

  pub prompt2 : Bool → Action W Bool
  prompt2 mode s = answered s (prompt_action2 mode s.session s.keys)

  -- `fsckRuntimeData.hasError = 1`
  pub mark_error : Action W (Unit {0})
  mark_error s = some (tt, record s { session = left s.session })

  pub has_error : Action W Bool
  has_error s = some ((s.session).has_error, s)

  pub fixed_count : Action W ℕ
  fixed_count s = some ((s.session).fixed, s)

  pub get_status : Action W Status
  get_status s = some (s.status, s)

  pub set_status : (Status → Status) → Action W (Unit {0})
  set_status f s = some (tt, record s { status = f s.status })

  -- Reading stopFlag.
  pub stopped : Action W Bool
  stopped s =
      let now = s.is_stopped || stop_request s.requests in
      some (now, record s { is_stopped = now; requests = later_requests s.requests })

  -- A call of HIOCGETPARTERROR, and SetEventFlag.
  pub clear_part_error : (W → W) → Action W (Unit {0})
  clear_part_error f s = some (tt, record s { clears = s.clears + 1; world = f s.world })

  pub set_event : Action W (Unit {0})
  set_event s = some (tt, record s { is_done = true })

  -- The bitmap's code, which works on its buffers and on the device.
  abbrev pub worked : {A : Type 0} → Env W → Option (A × Cache × W) → Option (A × Env W)
  worked s none = none
  worked s (some (a, c, w)) = some (a, record s { cache = c; world = w })

  pub with_cache : {A : Type 0} → (Cache → W → Option (A × Cache × W)) → Action W A
  with_cache f s = worked s (f s.cache s.world)

-- What follows a call that may have no result.
module _ {W A B : Type 0} where
  pub on_option : Option A → Action W B → (A → Action W B) → Action W B
  on_option none m f = m
  on_option (some a) m f = f a

module _ {W B : Type 0} where
  pub on_fetched : Fetched → (RetCode → Action W B) → (ℕ → Action W B) → Action W B
  on_fetched (failed r) m f = m r
  on_fetched (fetched h) m f = f h
