-- ===== src/Fsck/Control/Signals.antt =====
-- On the commands of FsckIoctl2 of fsck/fsck.c as steps of two signals: the thread has ended, and it
-- is to stop.
use hddchecker.Prelude.{
  ℕ, zero, suc, ◌≡◌, refl, subst, sym, Bool, true, false, if◌then◌else◌, RetCode, ret, none, some,
}
use hddchecker.Fsck.Layout.{Mount}
use hddchecker.Fsck.Device.{Device, Kernel}
use hddchecker.Fsck.Run.{Env, io}
use hddchecker.Fsck.Run.Keeps.{Ending, Keeps, keeps_rules, Keeps-any_io, Keeps-get_status}
use hddchecker.Fsck.Run.Leads.{Ends, Leads, Leads-pure, Leads-after, Leads-bind}
use hddchecker.Fsck.Open.Opening.{Keeps-get_mount}
use hddchecker.Fsck.Control.{
  Command, Output, get_estimate, start, wait, poll, status, stop, unknown, control, estimate,
  shortest, wait_event, poll_event, read_status, set_stop,
}

pub record Signals : Type 0 where
  pub has_ended : Bool
  pub is_stopping : Bool

-- The event flag is cleared by the command that sees it, and a stop is never taken back.
pub data Step : Command → Signals → RetCode → Signals → Type 0 where
  estimated : (p : Signals) → Step get_estimate p (ret 0) p
  started : (p : Signals) (r : RetCode) → Step start p r p
  waited :
      (b : Bool)
      → Step wait
          (record { has_ended = true; is_stopping = b })
          (ret 0)
          (record { has_ended = false; is_stopping = b })
  polled :
      (b : Bool)
      → Step poll
          (record { has_ended = true; is_stopping = b })
          (ret 0)
          (record { has_ended = false; is_stopping = b })
  not_yet :
      (b : Bool)
      → Step poll
          (record { has_ended = false; is_stopping = b })
          (ret 1)
          (record { has_ended = false; is_stopping = b })
  reported : (p : Signals) → Step status p (ret 0) p
  stopping :
      (b c : Bool)
      → Step stop
          (record { has_ended = b; is_stopping = c })
          (ret 0)
          (record { has_ended = b; is_stopping = true })
  ignored : (n : ℕ) (p : Signals) → Step (unknown n) p (ret 0) p

abbrev pub signals : {W : Type 0} → Env W → Signals
signals s = record { has_ended = s.is_done; is_stopping = s.is_stopped }

-- Only a wait for a thread that has not ended has no value.
abbrev pub IsWaiting : {W : Type 0} → Command → Env W → Type 0
IsWaiting c s = (c ≡ wait) × (s.is_done ≡ false)

abbrev pub IsStep : {W : Type 0} → Command → Signals → RetCode × Output → Env W → Type 0
IsStep c p r s' = Step c p r.0 (signals s')

module _ {W A : Type 0} {N : Type 0} {p : Signals} where
  same-io : (f : W → A × W) → Keeps (Ending N (λ s. signals s ≡ p)) (io f)
  same-io f = Keeps-any_io f (λ s w h. h)

module _ {W : Type 0} (dev : Device W) (kernel : Kernel W) {N : Type 0} {p : Signals} where
  shortest-Keeps :
      (m : Mount) (n clock : ℕ)
      → Keeps (Ending N (λ s. signals s ≡ p)) (shortest dev kernel m n clock)
  unfolding shortest
  shortest-Keeps m zero clock = search keeps_rules
  shortest-Keeps m (suc n) clock = search (keeps_rules, same-io, shortest-Keeps m n)

  estimate-Keeps : Keeps (Ending N (λ s. signals s ≡ p)) (estimate dev kernel)
  unfolding estimate
  estimate-Keeps = search (keeps_rules, Keeps-get_mount, shortest-Keeps, Keeps-get_status)

module _ {W : Type 0} where
  wait-Step :
      (s : Env W) (b : Bool)
      → s.is_done ≡ b
      → Ends
          (IsWaiting wait s)
          (λ r s'. Step wait (signals s) r (signals s'))
          (if b then some (ret 0, record s { is_done = false }) else none)
  wait-Step s true e =
      subst
        (λ x.
          Step wait (record { has_ended = x; is_stopping = s.is_stopped }) (ret 0)
            (record { has_ended = false; is_stopping = s.is_stopped }))
        (sym e) (waited s.is_stopped)
  wait-Step s false e = (refl, e)

  poll-Step :
      (s : Env W) (b : Bool)
      → s.is_done ≡ b
      → Ends
          (IsWaiting poll s)
          (λ r s'. Step poll (signals s) r (signals s'))
          (if b then some (ret 0, record s { is_done = false }) else some (ret 1, s))
  poll-Step s true e =
      subst
        (λ x.
          Step poll (record { has_ended = x; is_stopping = s.is_stopped }) (ret 0)
            (record { has_ended = false; is_stopping = s.is_stopped }))
        (sym e) (polled s.is_stopped)
  poll-Step s false e =
      subst
        (λ x.
          Step poll (record { has_ended = x; is_stopping = s.is_stopped }) (ret 1)
            (record { has_ended = x; is_stopping = s.is_stopped }))
        (sym e) (not_yet s.is_stopped)

  wait-Leads :
      (s : Env W)
      → Leads
          (IsWaiting wait s)
          (λ s'. s' ≡ s)
          (λ r s'. Step wait (signals s) r (signals s'))
          wait_event
  unfolding wait_event
  wait-Leads s = record {
    goes = λ s' q.
        subst
          (λ x.
            Ends (IsWaiting wait s) (λ r s''. Step wait (signals s) r (signals s'')) (wait_event x))
          (sym q) (wait-Step s s.is_done refl);
  }

  poll-Leads :
      (s : Env W)
      → Leads
          (IsWaiting poll s)
          (λ s'. s' ≡ s)
          (λ r s'. Step poll (signals s) r (signals s'))
          poll_event
  unfolding poll_event
  poll-Leads s = record {
    goes = λ s' q.
        subst
          (λ x.
            Ends (IsWaiting poll s) (λ r s''. Step poll (signals s) r (signals s'')) (poll_event x))
          (sym q) (poll-Step s s.is_done refl);
  }

  status-Leads :
      (s : Env W)
      → Leads
          (IsWaiting status s)
          (λ s'. s' ≡ s)
          (λ r s'. Step status (signals s) (ret 0) (signals s'))
          read_status
  unfolding read_status
  status-Leads s = record {
    goes = λ s' q.
        subst (λ x. Step status (signals s) (ret 0) (signals x)) (sym q) (reported (signals s));
  }

  stop-Leads :
      (s : Env W)
      → Leads
          (IsWaiting stop s)
          (λ s'. s' ≡ s)
          (λ r s'. Step stop (signals s) (ret 0) (signals s'))
          set_stop
  unfolding set_stop
  stop-Leads s = record {
    goes = λ s' q.
        subst
          (λ x.
            Step stop (signals s) (ret 0) (record { has_ended = x.is_done; is_stopping = true }))
          (sym q) (stopping s.is_done s.is_stopped);
  }

module _ {W : Type 0} (dev : Device W) (kernel : Kernel W) where
  -- Each command of FsckIoctl2 is a step of the two signals between the driver and its thread: only
  -- a wait or a poll clears the flag of the end, a poll returns 1 while it is not set, only a stop
  -- sets the flag that stops; and only a wait for a thread that has not ended has no value.
  pub control-IsStep :
      (c : Command) (s : Env W)
      → Ends (IsWaiting c s) (IsStep c (signals s)) (control dev kernel c s)
  unfolding control
  control-IsStep get_estimate s =
      (Leads-after {P = λ s'. signals s' ≡ signals s} _ _ (estimate-Keeps dev kernel) (λ n.
          Leads-pure _ (λ s' q.
            subst (Step get_estimate (signals s) (ret 0)) (sym q) (estimated (signals s))))).goes
        s refl
  control-IsStep start s =
      (Leads-after {P = λ s'. signals s' ≡ signals s} _ _ (same-io kernel.start_thread) (λ r.
          Leads-pure _
            (λ s' q. subst (Step start (signals s) r) (sym q) (started (signals s) r)))).goes
        s refl
  control-IsStep wait s =
      (Leads-bind _ _ _ (wait-Leads s) (λ r. Leads-pure _ (λ s' q. q))).goes s refl
  control-IsStep poll s =
      (Leads-bind _ _ _ (poll-Leads s) (λ r. Leads-pure _ (λ s' q. q))).goes s refl
  control-IsStep status s =
      (Leads-bind _ _ _ (status-Leads s) (λ r. Leads-pure _ (λ s' q. q))).goes s refl
  control-IsStep stop s =
      (Leads-bind _ _ _ (stop-Leads s) (λ r. Leads-pure _ (λ s' q. q))).goes s refl
  control-IsStep (unknown n) s =
      (Leads-pure {P = λ s'. signals s' ≡ signals s} _ (λ s' q.
          subst (Step (unknown n) (signals s) (ret 0)) (sym q) (ignored n (signals s)))).goes
        s refl
