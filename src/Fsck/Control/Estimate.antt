-- ===== src/Fsck/Control/Estimate.antt =====
-- On fsckGetEstimatedTime of fsck/fsck.c.
use hddchecker.Prelude.{
  ℕ, zero, suc, ◌+◌, ◌*◌, ◌/◌, ◌%◌, ◌<◌, ◌≤◌, ◌≡◌, refl, sym, subst, ap, ◌∙◌, ltb, if◌then◌else◌,
  ◌==◌, arith,
}
use native.Mathlib.Nat.{mul-le-mul_right}
use hddchecker.Fsck.Layout.{Mount}
use hddchecker.Fsck.Device.{Device, Kernel}
use hddchecker.Fsck.Run.{Env, io}
use hddchecker.Fsck.Run.Keeps.{Always, Keeps, Keeps-any_io}
use hddchecker.Fsck.Run.Leads.{
  Ends, Leads, Leads-pure, Leads-after, Leads-bind, Leads-given, get_status-Leads,
}
use hddchecker.Fsck.Open.Opening.{Keeps-get_mount}
use hddchecker.Fsck.Control.{clock_diff, shortest, estimate, estimate_seconds}

-- An estimate in seconds of `zones` zones: at least 1, and at most 1000400 microseconds for each.
abbrev pub IsEstimate : ℕ → ℕ → Type 0
IsEstimate zones n = (0 < n) × (n ≤ zones * 1000400 / 1000000 + 1)

estimate_seconds-IsEstimate :
    (clock zones : ℕ)
    → clock ≤ 1000000
    → zones < 4294967296
    → IsEstimate zones (estimate_seconds clock zones)
estimate_seconds-IsEstimate clock zones h k =
    let p : (clock + 400) * zones ≤ 1000400 * zones = mul-le-mul_right zones (omega arith) in
    bounds ((clock + 400) * zones) zones p k
  where
    bounds :
        (x zones : ℕ)
        → x ≤ 1000400 * zones
        → zones < 4294967296
        → IsEstimate zones
            (let n = x % 18446744073709551616 / 1000000 % 4294967296 in if n == 0 then 1 else n)
    bounds x zones h k = (ground arith, ground arith)

-- The run has `zones` zones in use.
abbrev Uses : {W : Type 0} → ℕ → Env W → Type 0
Uses zones s = (s.status).zone_used ≡ zones

module _ {W A : Type 0} {zones : ℕ} where
  Uses-io : (f : W → A × W) → Keeps (Always (Uses zones)) (io f)
  Uses-io f = Keeps-any_io f (λ s w h. h)

least : (usec clock : ℕ) → clock ≤ 1000000 → (if ltb usec clock then usec else clock) ≤ 1000000
least usec clock h = ground arith

module _ {W : Type 0} (dev : Device W) (kernel : Kernel W) {zones : ℕ} where
  shortest-Leads :
      (m : Mount) (n clock : ℕ)
      → clock ≤ 1000000
      → Leads ⊥ (Uses zones) (λ c s. Uses zones s × (c ≤ 1000000)) (shortest dev kernel m n clock)
  unfolding shortest
  shortest-Leads m zero clock h = Leads-pure clock (λ s q. (q, h))
  shortest-Leads m (suc n) clock h = Leads-after _ _ (Uses-io _) (λ t1.
      Leads-after _ _ (Uses-io _) (λ u.
        Leads-after _ _ (Uses-io _)
          (λ t2. shortest-Leads m n _ (least (kernel.usec_part (clock_diff t1 t2)) clock h))))

  estimate-Leads :
      zones < 4294967296 → Leads ⊥ (Uses zones) (λ n s. IsEstimate zones n) (estimate dev kernel)
  unfolding estimate
  estimate-Leads l = Leads-after _ _ Keeps-get_mount (λ m.
      Leads-bind _ _ _ (shortest-Leads m 4 1000000 (omega arith)) (λ clock.
        Leads-given {P = Uses zones} (clock ≤ 1000000) _ (λ h.
          Leads-bind _ _ _ get_status-Leads (λ st. Leads-pure _ (λ s q.
            subst (λ z. IsEstimate zones (estimate_seconds clock z))
              (sym q.0 ∙ ap (λ x. x.zone_used) q.1)
              (estimate_seconds-IsEstimate clock zones h l))))))

module _ {W : Type 0} (dev : Device W) (kernel : Kernel W) where
  -- The estimate of the time of a scan always ends, and is at least one second and at most 1000400
  -- microseconds for each zone in use, rounded down, and a second more, whatever the clock says.
  pub estimate-IsEstimate :
      (s : Env W)
      → (s.status).zone_used < 4294967296
      → Ends ⊥ (λ n s'. IsEstimate (s.status).zone_used n) (estimate dev kernel s)
  estimate-IsEstimate s l = (estimate-Leads dev kernel l).goes s refl
