-- ===== src/Fsck/Prompts/Tests.antt =====
-- Three prompts, of which the user answers one with no.
use hddchecker.Prelude.{
  ℕ, ◌+◌, ◌≤◌, ◌≡◌, refl, Bool, true, false, some, ret, err, eio, List, [], ◌∷◌, arith,
}
use hddchecker.Fsck.Prompts.{
  Key, yes_key, no_key, other_key, Session, read_answer, prompt_action, prompt_action2, Attribute,
}
use hddchecker.Fsck.Prompts.Counts.{IsCounted, prompts, prompts_repaired}

abbrev fresh : Session
fresh = record { write_enabled = true; auto_mode = false; errors = 0; fixed = 0; has_error = false }

abbrev done : Session
done = record { write_enabled = true; auto_mode = false; errors = 2; fixed = 1; has_error = true }

abbrev keys : List Key
keys = yes_key ∷ other_key ∷ no_key ∷ yes_key ∷ []

abbrev asked : List (Bool × Bool)
asked = (true, true) ∷ (true, false) ∷ (false, true) ∷ []

asked_run : prompts asked fresh keys ≡ some (done, [])
unfolding prompts prompt_action prompt_action2 read_answer
asked_run = refl

fresh-IsCounted : IsCounted fresh
fresh-IsCounted = record { bounded = omega arith; flagged = λ h. absurd (omega arith) }

prompts_repaired_example :
    (done.fixed ≤ done.errors) × (done.has_error ≡ false → done.fixed ≡ done.errors)
prompts_repaired_example =
    prompts_repaired asked fresh done keys [] fresh-IsCounted (omega arith) asked_run

-- A partition that can be written but not read; its state is the number of sectors written.
abbrev unreadable : Attribute ℕ
unreadable = record {
  rewind = λ w. w;
  read = λ n w. (err eio, w);
  write_zeros = λ n w. (ret (n + n), w + n);
}

abbrev automatic : Session
automatic = record {
  write_enabled = true;
  auto_mode = true;
  errors = 0;
  fixed = 0;
  has_error = false;
}
