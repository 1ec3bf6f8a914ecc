-- ===== src/Fsck/Prompts/Modes.antt =====
-- The prompts in the modes in which no key is read.
use hddchecker.Prelude.{◌≡◌, Bool, true, false, some, List, if◌then◌else◌}
use hddchecker.Fsck.Prompts.{
  Key, Session, left, repaired, count_error, prompt_action, prompt_action2,
}

module _ (mode : Bool) (s : Session) (ks : List Key) where
  pub action-locked :
      s.write_enabled ≡ false → prompt_action mode s ks ≡ some (false, left (count_error s), ks)
  unfolding prompt_action
  action-locked h = rw h

  pub action2-locked : s.write_enabled ≡ false → prompt_action2 mode s ks ≡ some (false, left s, ks)
  unfolding prompt_action2
  action2-locked h = rw h

  pub action-auto :
      s.write_enabled ≡ true
      → s.auto_mode ≡ true
      → prompt_action mode s ks
        ≡ some (mode, if mode then repaired (count_error s) else left (count_error s), ks)
  unfolding prompt_action
  action-auto h k = rw (h, k)

  pub action2-auto :
      s.write_enabled ≡ true
      → s.auto_mode ≡ true
      → prompt_action2 mode s ks ≡ some (mode, if mode then s else left s, ks)
  unfolding prompt_action2
  action2-auto h k = rw (h, k)
