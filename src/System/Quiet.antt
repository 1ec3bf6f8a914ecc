-- ===== src/System/Quiet.antt =====
-- What the panel's steps leave alone: a test of the disk's sectors.
use hddchecker.Prelude.{ℕ, ◌≡◌, Bool}
use hddchecker.System.{Panel, Screen, Message}

pub record PanelLaws {W : Type 0} (ui : Panel W) (is_marked : W → ℕ → Bool) : Type 0 where
  pub ticks : (s : ℕ) (w : W) → is_marked (ui.ticks w).1 s ≡ is_marked w s
  pub draw : (v : Screen) (a b c s : ℕ) (w : W) → is_marked (ui.draw v a b c w) s ≡ is_marked w s
  pub cancelled : (s : ℕ) (w : W) → is_marked (ui.cancelled w).1 s ≡ is_marked w s
  pub confirm : (m : Message) (s : ℕ) (w : W) → is_marked (ui.confirm m w).1 s ≡ is_marked w s
  pub inform : (m : Message) (s : ℕ) (w : W) → is_marked (ui.inform m w) s ≡ is_marked w s
  pub show_error : (m : Message) (s : ℕ) (w : W) → is_marked (ui.show_error m w) s ≡ is_marked w s
  pub lock : (s : ℕ) (w : W) → is_marked (ui.lock w) s ≡ is_marked w s
  pub unlock : (s : ℕ) (w : W) → is_marked (ui.unlock w) s ≡ is_marked w s
  pub screen : (v : Screen) (s : ℕ) (w : W) → is_marked (ui.progress_screen v w) s ≡ is_marked w s
  pub reboot : (s : ℕ) (w : W) → is_marked (ui.reboot w) s ≡ is_marked w s
