-- ===== src/Fsck/Run/Leads.antt =====
-- Actions that lead from one property of the state to another, and that say something of their
-- values.
use hddchecker.Prelude.{
  ℕ, ◌+◌, ◌≡◌, refl, Bool, true, false, Option, none, some, List, if◌then◌else◌, ◌||◌, RetCode,
}
use hddchecker.Fsck.Layout.{Fetched, fetched, failed}
use hddchecker.Fsck.Prompts.{Key, Session, prompt_action}
use hddchecker.Fsck.Run.{
  Env, Action, pure, gives_up, io, continue, ◌>>=◌, has_error, get_status, stopped, answered,
  prompt, clear_part_error, set_event, on_option, on_fetched, later_requests, stop_request,
}
use hddchecker.Fsck.Run.Keeps.{Ending, Holds, Keeps}

-- `Q` of the value and the state that a run ends with, and `N` where it has none.
abbrev pub Ends : {W A : Type 0} → Type 0 → (A → Env W → Type 0) → Option (A × Env W) → Type 0
Ends N Q none = N
Ends N Q (some (a, s)) = Q a s

-- From a state with `P`, a run of `m` ends with `Q`.
pub record Leads {W A : Type 0} (N : Type 0) (P : Env W → Type 0) (Q : A → Env W → Type 0)
    (m : Action W A) : Type 0 where
  pub goes : (s : Env W) → P s → Ends N Q (m s)

module _ {W A : Type 0} {P : Env W → Type 0} {Q : A → Env W → Type 0} where
  Holds-Ends :
      (N : Type 0) (o : Option (A × Env W))
      → ((a : A) (s : Env W) → P s → Q a s)
      → Holds (Ending N P) o
      → Ends N Q o
  Holds-Ends N none f h = h
  Holds-Ends N (some (a, s)) f h = f a s h

module _ {W A : Type 0} {R Q : A → Env W → Type 0} where
  post :
      (N : Type 0) (o : Option (A × Env W))
      → ((a : A) (s : Env W) → R a s → Q a s)
      → Ends N R o
      → Ends N Q o
  post N none f h = h
  post N (some (a, s)) f h = f a s h

module _ {W A N : Type 0} {P : Env W → Type 0} {Q : A → Env W → Type 0} where
  pub Leads-pure : (a : A) → ((s : Env W) → P s → Q a s) → Leads N P Q (pure a)
  unfolding pure
  Leads-pure a h = record { goes = h }

  pub Leads-gives_up : N → Leads N P Q gives_up
  unfolding gives_up
  Leads-gives_up n = record { goes = λ s h. n }

  pub Leads-if :
      (b : Bool) (m n : Action W A)
      → (b ≡ true → Leads N P Q m)
      → (b ≡ false → Leads N P Q n)
      → Leads N P Q (if b then m else n)
  Leads-if true m n km kn = km refl
  Leads-if false m n km kn = kn refl

  pub Leads-weaken :
      (P' : Env W → Type 0) (m : Action W A)
      → Leads N P' Q m
      → ((s : Env W) → P s → P' s)
      → Leads N P Q m
  Leads-weaken P' m l h = record { goes = λ s p. l.goes s (h s p) }

  pub Leads-post :
      (R : A → Env W → Type 0) (m : Action W A)
      → Leads N P R m
      → ((a : A) (s : Env W) → R a s → Q a s)
      → Leads N P Q m
  Leads-post R m l f = record { goes = λ s p. post N (m s) f (l.goes s p) }

  -- A fact that does not look at the state.
  pub Leads-given : (F : Type 0) (m : Action W A) → (F → Leads N P Q m) → Leads N (λ s. P s × F) Q m
  Leads-given F m l = record { goes = λ s h. (l h.1).goes s h.0 }

  -- An action that keeps `P`, as one that leads from it.
  pub Leads-Keeps :
      (m : Action W A) → Keeps (Ending N P) m → ((a : A) (s : Env W) → P s → Q a s) → Leads N P Q m
  Leads-Keeps m k f = record { goes = λ s h. Holds-Ends N (m s) f (k.at s h) }

module _ {W A B : Type 0} {Q : B → Env W → Type 0} where
  continue-Ends :
      (N : Type 0) (R : A → Env W → Type 0) (o : Option (A × Env W)) (f : A → Action W B)
      → ((a : A) → Leads N (R a) Q (f a))
      → Ends N R o
      → Ends N Q (continue o f)
  continue-Ends N R none f l h = h
  continue-Ends N R (some (a, s)) f l h = (l a).goes s h

module _ {W A B N : Type 0} {P : Env W → Type 0} {Q : B → Env W → Type 0} where
  pub Leads-bind :
      (R : A → Env W → Type 0) (m : Action W A) (f : A → Action W B)
      → Leads N P R m
      → ((a : A) → Leads N (R a) Q (f a))
      → Leads N P Q (m >>= f)
  unfolding ◌>>=◌
  Leads-bind R m f l k = record { goes = λ s h. continue-Ends N R (m s) f k (l.goes s h) }

  -- Where `m` keeps the property and its value does not matter.
  pub Leads-after :
      (m : Action W A) (f : A → Action W B)
      → Keeps (Ending N P) m
      → ((a : A) → Leads N P Q (f a))
      → Leads N P Q (m >>= f)
  Leads-after m f k l = Leads-bind (λ a. P) m f (Leads-Keeps m k (λ a s h. h)) l

  pub Leads-on_option :
      (o : Option A) (m : Action W B) (f : A → Action W B)
      → Leads N P Q m
      → ((a : A) → Leads N P Q (f a))
      → Leads N P Q (on_option o m f)
  unfolding on_option
  Leads-on_option none m f lm lf = lm
  Leads-on_option (some a) m f lm lf = lf a

module _ {W N : Type 0} {P : Env W → Type 0} where
  pub has_error-Leads : Leads N P (λ b s. P s × ((s.session).has_error ≡ b)) has_error
  unfolding has_error
  has_error-Leads = record { goes = λ s h. (h, refl) }

  pub stopped-Leads :
      ((s : Env W) (b : Bool)
        → P s
        → P (record s { is_stopped = b; requests = later_requests s.requests }))
      → Leads N P (λ b s. P s × (s.is_stopped ≡ b)) stopped
  unfolding stopped
  stopped-Leads f = record { goes = λ s h. (f s (s.is_stopped || stop_request s.requests) h, refl) }

  pub clear-Leads :
      {Q : Unit {0} → Env W → Type 0} (f : W → W)
      → ((s : Env W) → P s → Q tt (record s { clears = s.clears + 1; world = f s.world }))
      → Leads N P Q (clear_part_error f)
  unfolding clear_part_error
  clear-Leads f h = record { goes = h }

  pub set_event-Leads :
      ((s : Env W) → P s → P (record s { is_done = true }))
      → Leads N P (λ a s. P s × (s.is_done ≡ true)) set_event
  unfolding set_event
  set_event-Leads f = record { goes = λ s h. (f s h, refl) }

module _ {W A N : Type 0} {P : Env W → Type 0} {Q : A → Env W → Type 0} where
  pub io-Leads :
      (f : W → A × W)
      → ((s : Env W) → P s → Q (f s.world).0 (record s { world = (f s.world).1 }))
      → Leads N P Q (io f)
  unfolding io
  io-Leads f h = record { goes = h }

module _ {W B N : Type 0} {P : Env W → Type 0} {Q : B → Env W → Type 0} where
  pub Leads-on_fetched :
      (o : Fetched) (m : RetCode → Action W B) (f : ℕ → Action W B)
      → ((r : RetCode) → Leads N P Q (m r))
      → ((h : ℕ) → Leads N P Q (f h))
      → Leads N P Q (on_fetched o m f)
  unfolding on_fetched
  Leads-on_fetched (failed r) m f lm lf = lm r
  Leads-on_fetched (fetched h) m f lm lf = lf h

module _ {W A B N : Type 0} {P : Env W → Type 0} {Q : B → Env W → Type 0} where
  -- Where there is no value to go on with.
  pub Leads-on_none :
      (o : Option A) (m : Action W B) (f : A → Action W B)
      → o ≡ none
      → Leads N P Q m
      → Leads N P Q (on_option o m f)
  unfolding on_option
  Leads-on_none o m f e l = rw e l

module _ {W N : Type 0} {P : Env W → Type 0} where
  pub get_status-Leads : Leads N P (λ st s. P s × (s.status ≡ st)) get_status
  unfolding get_status
  get_status-Leads = record { goes = λ s h. (h, refl) }

module _ {W A B N : Type 0} {P : Env W → Type 0} {Q : B → Env W → Type 0} where
  pub Leads-on_some :
      (o : Option A) (m : Action W B) (f : A → Action W B) (a : A)
      → o ≡ some a
      → Leads N P Q (f a)
      → Leads N P Q (on_option o m f)
  unfolding on_option
  Leads-on_some o m f a e l = rw e l

-- A prompt, with what is known of the device.
module _ {W : Type 0} (N : Type 0) (P : Env W → Type 0) where
  answered-world :
      (F : W → Type 0) (s : Env W) (o : Option (Bool × Session × List Key))
      → F s.world
      → Holds (Ending N P) (answered s o)
      → Ends N (λ a s'. P s' × F s'.world) (answered s o)
  answered-world F s none c h = h
  answered-world F s (some (a, b, ks)) c h = (h, c)

module _ {W N : Type 0} {P : Env W → Type 0} where
  pub prompt-Leads :
      (F : W → Type 0) (mode : Bool)
      → Keeps (Ending N P) (prompt mode)
      → Leads N (λ s. P s × F s.world) (λ a s. P s × F s.world) (prompt mode)
  unfolding prompt
  prompt-Leads F mode k = record {
    goes = λ s h. answered-world N P F s (prompt_action mode s.session s.keys) h.1 (k.at s h.0);
  }
