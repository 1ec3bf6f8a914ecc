-- ===== src/Fsck/Run/Settled.antt =====
-- Properties of the states of a run of fsck/fsck.c: its counts, its modes and its stop flag.
use hddchecker.Prelude.{ℕ, ◌≡◌, ◌⊎◌, Bool, true, false, Option, none, some, List}
use hddchecker.Fsck.Bitmap.{Cache}
use hddchecker.Fsck.Prompts.{Key, Session, prompt_action, prompt_action2}
use hddchecker.Fsck.Prompts.Settled.{IsSettled, Settles, action-Settles, action2-Settles}
use hddchecker.Fsck.Run.{
  worked, with_cache, Env, io, answered, prompt, prompt2, mark_error, set_status, stopped,
}
use hddchecker.Fsck.Run.Keeps.{Within, Holds, Stable, OnCache}

-- The counts of a run agree, and the record of errors of the partition has been asked for (which
-- clears it) `k` times.
abbrev pub Settled : {W : Type 0} → ℕ → Env W → Type 0
Settled k s = IsSettled s.session × (s.clears ≡ k)

module _ {W : Type 0} where
  pub worked-Holds :
      {A : Type 0} (P : Env W → Type 0) (s : Env W) (o : Option (A × Cache × W))
      → ((c : Cache) (w : W) → P (record s { cache = c; world = w }))
      → Holds (Within P) (worked s o)
  worked-Holds P s none h = tt
  worked-Holds P s (some (a, c, w)) h = h c w

module _ {W : Type 0} {k : ℕ} where
  answered-Holds :
      (s : Env W) (o : Option (Bool × Session × List Key))
      → Settles o
      → s.clears ≡ k
      → Holds (Within (Settled k)) (answered s o)
  answered-Holds s none h e = tt
  answered-Holds s (some (a, c, ks)) h e = (h, e)

  pub Settled-Stable : Stable {W = W} (Within (Settled k))
  unfolding prompt prompt2 mark_error set_status stopped io with_cache
  Settled-Stable = record {
    on_prompt = λ mode. record {
      at = λ s h.
          answered-Holds s (prompt_action mode s.session s.keys)
            (action-Settles mode s.session s.keys h.0) h.1;
    };
    on_prompt2 = λ mode. record {
      at = λ s h.
          answered-Holds s (prompt_action2 mode s.session s.keys)
            (action2-Settles mode s.session s.keys h.0) h.1;
    };
    on_mark_error = record { at = λ s h. (λ e. cc, h.1) };
    on_set_status = λ f. record { at = λ s h. h };
    on_stopped = record { at = λ s h. h };
    on_io = λ f. record { at = λ s h. h };
  }

  pub Settled-OnCache : OnCache {W = W} (Within (Settled k))
  unfolding with_cache
  Settled-OnCache = record {
    on_with_cache =
        λ f. record { at = λ s h. worked-Holds (Settled k) s (f s.cache s.world) (λ c w. h) };
  }

-- A run in which a prompt needs no key: without write mode, or in the automatic mode.
abbrev pub IsQuiet : {W : Type 0} → Env W → Type 0
IsQuiet s = ((s.session).write_enabled ≡ false) ⊎ ((s.session).auto_mode ≡ true)

-- A run without write mode that has repaired `n` errors.
abbrev pub IsReadOnly : {W : Type 0} → ℕ → Env W → Type 0
IsReadOnly n s = ((s.session).write_enabled ≡ false) × ((s.session).fixed ≡ n)

-- A run that is to stop.
abbrev pub IsStopped : {W : Type 0} → Env W → Type 0
IsStopped s = s.is_stopped ≡ true
