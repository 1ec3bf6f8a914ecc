-- ===== src/Fsck/Run/Modes.antt =====
-- The actions of fsck/fsck.c in runs that read no key, that write nothing, or that are to stop.
use hddchecker.Prelude.{
  ℕ, ◌≡◌, refl, sym, subst, inl, inr, Bool, true, false, Option, some, none, List, if◌then◌else◌,
  arith,
}
use hddchecker.Fsck.Bitmap.{Cache}
use hddchecker.Fsck.Prompts.{
  Key, Session, left, repaired, count_error, prompt_action, prompt_action2,
}
use hddchecker.Fsck.Prompts.Modes.{action-locked, action2-locked, action-auto, action2-auto}
use hddchecker.Fsck.Run.{
  Env, Status, io, answered, prompt, prompt2, mark_error, set_status, stopped, with_cache,
  set_event, clear_part_error,
}
use hddchecker.Fsck.Run.Keeps.{Always, Within, Holds, Keeps, Keeps-any_io, Stable, OnCache}
use hddchecker.Fsck.Run.Leads.{Ends, Leads}
use hddchecker.Fsck.Run.Settled.{IsQuiet, IsReadOnly, IsStopped, worked-Holds}

abbrev Answer : Type 0
Answer = Option (Bool × Session × List Key)

either : (P : Session → Type 0) (m : Bool) (c d : Session) → P c → P d → P (if m then c else d)
either P true c d hc hd = hc
either P false c d hc hd = hd

module _ {W : Type 0} where
  -- An answer without keys, put into the state.
  answered-Quiet :
      (s : Env W) (w a : Bool) (o : Answer) (m : Bool) (ks : List Key) (c d : Session)
      → ((s.session).write_enabled ≡ w)
      → ((s.session).auto_mode ≡ a)
      → IsQuiet s
      → ((s.session).write_enabled ≡ false → o ≡ some (false, left d, ks))
      → ((s.session).write_enabled ≡ true → (s.session).auto_mode ≡ true → o ≡ some (m, c, ks))
      → IsQuiet (record s { session = c })
      → IsQuiet (record s { session = d })
      → Holds (Always IsQuiet) (answered s o)
  answered-Quiet s false a o m ks c d e k q f g hc hd =
      subst (λ x. Holds (Always IsQuiet) (answered s x)) (sym (f e)) hd
  answered-Quiet s true true o m ks c d e k q f g hc hd =
      subst (λ x. Holds (Always IsQuiet) (answered s x)) (sym (g e k)) hc
  answered-Quiet s true false o m ks c d e k q f g hc hd = elim q [ inl z ↦ cc | inr z ↦ cc ]

  abbrev InSession : Env W → Session → Type 0
  InSession s c = IsQuiet (record s { session = c })

  pub IsQuiet-Stable : Stable {W = W} (Always IsQuiet)
  unfolding prompt prompt2 mark_error set_status stopped io
  IsQuiet-Stable = record {
    on_prompt = λ mode. record {
      at = λ s h.
          let c = count_error s.session in
          answered-Quiet s _ _ (prompt_action mode s.session s.keys) mode s.keys
            (if mode then repaired c else left c) c refl refl h
            (action-locked mode s.session s.keys) (action-auto mode s.session s.keys)
            (either (InSession s) mode (repaired c) (left c) h h) h;
    };
    on_prompt2 = λ mode. record {
      at = λ s h.
          answered-Quiet s _ _ (prompt_action2 mode s.session s.keys) mode s.keys
            (if mode then s.session else left s.session) s.session refl refl h
            (action2-locked mode s.session s.keys) (action2-auto mode s.session s.keys)
            (either (InSession s) mode s.session (left s.session) h h) h;
    };
    on_mark_error = record { at = λ s h. h };
    on_set_status = λ f. record { at = λ s h. h };
    on_stopped = record { at = λ s h. h };
    on_io = λ f. record { at = λ s h. h };
  }

  answered-ReadOnly :
      {n : ℕ} (s : Env W) (o : Answer) (ks : List Key) (d : Session)
      → o ≡ some (false, d, ks)
      → IsReadOnly n (record s { session = d })
      → Holds (Within (IsReadOnly n)) (answered s o)
  answered-ReadOnly {n = n} s o ks d e h =
      subst (λ x. Holds (Within (IsReadOnly n)) (answered s x)) (sym e) h

  pub IsReadOnly-Stable : {n : ℕ} → Stable {W = W} (Within (IsReadOnly n))
  unfolding prompt prompt2 mark_error set_status stopped io
  IsReadOnly-Stable = record {
    on_prompt = λ mode. record {
      at = λ s h.
          answered-ReadOnly s _ s.keys (left (count_error s.session))
            (action-locked mode s.session s.keys h.0) h;
    };
    on_prompt2 = λ mode. record {
      at = λ s h.
          answered-ReadOnly s _ s.keys (left s.session) (action2-locked mode s.session s.keys h.0)
            h;
    };
    on_mark_error = record { at = λ s h. h };
    on_set_status = λ f. record { at = λ s h. h };
    on_stopped = record { at = λ s h. h };
    on_io = λ f. record { at = λ s h. h };
  }

  pub IsReadOnly-OnCache : {n : ℕ} → OnCache {W = W} (Within (IsReadOnly n))
  unfolding with_cache
  IsReadOnly-OnCache {n = n} = record {
    on_with_cache =
        λ f. record { at = λ s h. worked-Holds (IsReadOnly n) s (f s.cache s.world) (λ c w. h) };
  }

  pub set_event-IsReadOnly : {n : ℕ} → Keeps {W = W} (Within (IsReadOnly n)) set_event
  unfolding set_event
  set_event-IsReadOnly = record { at = λ s h. h }

  pub clear-IsReadOnly :
      {n : ℕ} (f : W → W) → Keeps {W = W} (Within (IsReadOnly n)) (clear_part_error f)
  unfolding clear_part_error
  clear-IsReadOnly f = record { at = λ s h. h }

  answered-Stopped :
      (s : Env W) (o : Answer) → IsStopped s → Holds (Within IsStopped) (answered s o)
  answered-Stopped s none h = tt
  answered-Stopped s (some (a, c, ks)) h = h

  pub IsStopped-Stable : Stable {W = W} (Within IsStopped)
  unfolding prompt prompt2 mark_error set_status stopped io
  IsStopped-Stable = record {
    on_prompt =
        λ mode. record { at = λ s h. answered-Stopped s (prompt_action mode s.session s.keys) h };
    on_prompt2 =
        λ mode. record { at = λ s h. answered-Stopped s (prompt_action2 mode s.session s.keys) h };
    on_mark_error = record { at = λ s h. h };
    on_set_status = λ f. record { at = λ s h. h };
    on_stopped = record { at = λ s h. ground arith };
    on_io = λ f. record { at = λ s h. h };
  }

  pub IsStopped-OnCache : OnCache {W = W} (Within IsStopped)
  unfolding with_cache
  IsStopped-OnCache = record {
    on_with_cache =
        λ f. record { at = λ s h. worked-Holds IsStopped s (f s.cache s.world) (λ c w. h) };
  }

-- What a stop makes of the actions that need no key.
module _ {W : Type 0} where
  pub stopped-IsStopped : Leads {W = W} ⊥ IsStopped (λ b s. IsStopped s × (b ≡ true)) stopped
  unfolding stopped
  stopped-IsStopped = record { goes = λ s h. (ground arith, ground arith) }

  pub mark_error-IsStopped : Keeps {W = W} (Always IsStopped) mark_error
  unfolding mark_error
  mark_error-IsStopped = record { at = λ s h. h }

module _ {W A : Type 0} where
  pub io-IsStopped : (f : W → A × W) → Keeps (Always IsStopped) (io f)
  io-IsStopped f = Keeps-any_io f (λ s w h. h)

-- A run that has found nothing so far and that nobody stopped.
abbrev pub IsFresh : {W : Type 0} → Env W → Type 0
IsFresh s =
    ((s.session).errors ≡ 0)
    × ((s.session).fixed ≡ 0)
    × ((s.session).has_error ≡ false)
    × (s.is_stopped ≡ false)

module _ {W : Type 0} where
  pub set_status-IsFresh : (f : Status → Status) → Keeps {W = W} (Within IsFresh) (set_status f)
  unfolding set_status
  set_status-IsFresh f = record { at = λ s h. h }

  pub with_cache-IsFresh :
      {A : Type 0} (f : Cache → W → Option (A × Cache × W)) → Keeps (Within IsFresh) (with_cache f)
  unfolding with_cache
  with_cache-IsFresh f = record {
    at = λ s h. worked-Holds IsFresh s (f s.cache s.world) (λ c w. h);
  }

-- The automatic mode, in which a run repairs without asking.
abbrev pub IsAutomatic : {W : Type 0} → Env W → Type 0
IsAutomatic s = ((s.session).write_enabled ≡ true) × ((s.session).auto_mode ≡ true)

module _ {W N : Type 0} {P : Env W → Type 0} where
  pub prompt2-IsAutomatic :
      ((s : Env W) → P s → IsAutomatic s) → Leads N P (λ b s. P s × (b ≡ true)) (prompt2 true)
  unfolding prompt2
  prompt2-IsAutomatic f = record {
    goes = λ s h.
        subst (λ x. Ends N (λ b s'. P s' × (b ≡ true)) (answered s x))
          (sym (action2-auto true s.session s.keys (f s h).0 (f s h).1)) (h, refl);
  }

module _ {W A N : Type 0} {P : Env W → Type 0} where
  pub cache_value-Leads :
      (g : Cache → A)
      → Leads N P (λ v s. P s × (v ≡ g s.cache)) (with_cache (λ c w. some (g c, c, w)))
  unfolding with_cache
  cache_value-Leads g = record { goes = λ s h. (h, refl) }
