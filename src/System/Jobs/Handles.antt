-- ===== src/System/Jobs/Handles.antt =====
-- The descriptors of files and directories that are open, through the calls of a job.
use hddchecker.Prelude.{
  ℕ, zero, suc, ◌+◌, ◌≡◌, ◌∙◌, refl, sym, ap, subst, fun_ext, inl, inr, Bool, true, false,
  ℕ_discrete, ◌==◌, if◌then◌else◌, Option, none, some, arith, Bool-cases, RetCode, Errno, ret, err,
  sub32,
}
use hddchecker.System.{Panel, Screen, Message}
use hddchecker.System.Clock.{Clock, advance, percentage, rate, time_left}
use hddchecker.System.Jobs.{
  Dirent, Files, Progress, is_one, second_bar, close_dir, show_progress, watch, begin_watch,
  count_entries, count_partitions,
}

-- The descriptors that are open.
abbrev pub Fds : Type 0
Fds = ℕ → Bool

abbrev pub with_fd : ℕ → Fds → Fds
with_fd fd s g = if g == fd then true else s g

abbrev pub without_fd : ℕ → Fds → Fds
without_fd fd s g = if g == fd then false else s g

-- A descriptor that was not open is closed again.
pub without_fd-with_fd : (fd : ℕ) (s : Fds) → s fd ≡ false → without_fd fd (with_fd fd s) ≡ s
without_fd-with_fd fd s fresh = fun_ext λ g. elim (ℕ_discrete g fd) [
  | yes same ↦ let here : (g == fd) ≡ true = ground arith in rw here (sym (ap s same ∙ fresh))
  | no other ↦ let not_it : (g == fd) ≡ false = ground arith in rw not_it refl
]

-- An opening that succeeds gives a descriptor that was not open, a closing closes the descriptor
-- that it names and no other, and nothing else opens or closes one.
pub record HandleLaws {W : Type 0} (ui : Panel W) (files : Files W) (held : W → Fds) : Type 0 where
  pub dopen :
      (bfd : ℕ) (w : W)
      → (files.dopen w).0 ≡ ret bfd
      → (held w bfd ≡ false) × (held (files.dopen w).1 ≡ with_fd bfd (held w))
  pub no_dir : (w : W) → ((n : ℕ) → (files.dopen w).0 ≡ ret n → ⊥) → held (files.dopen w).1 ≡ held w
  pub dread : (bfd : ℕ) (w : W) → held (files.dread bfd w).1 ≡ held w
  pub dclose : (bfd : ℕ) (w : W) → held (files.dclose bfd w) ≡ without_fd bfd (held w)
  pub opened :
      (name fd : ℕ) (w : W)
      → (files.open_part name w).0 ≡ ret fd
      → (held w fd ≡ false) × (held (files.open_part name w).1 ≡ with_fd fd (held w))
  pub no_file :
      (name : ℕ) (w : W)
      → ((n : ℕ) → (files.open_part name w).0 ≡ ret n → ⊥)
      → held (files.open_part name w).1 ≡ held w
  pub start : (fd : ℕ) (w : W) → held (files.start fd w).1 ≡ held w
  pub poll : (fd : ℕ) (w : W) → held (files.poll fd w).1 ≡ held w
  pub stop : (fd : ℕ) (w : W) → held (files.stop fd w) ≡ held w
  pub get_status : (fd : ℕ) (w : W) → held (files.get_status fd w).2 ≡ held w
  pub close : (fd : ℕ) (w : W) → held (files.close fd w) ≡ without_fd fd (held w)
  pub ticks : (w : W) → held (ui.ticks w).1 ≡ held w
  pub draw : (v : Screen) (a b c : ℕ) (w : W) → held (ui.draw v a b c w) ≡ held w
  pub cancelled : (w : W) → held (ui.cancelled w).1 ≡ held w
  pub confirm : (m : Message) (w : W) → held (ui.confirm m w).1 ≡ held w

-- The descriptors that are open where a run ends.
abbrev pub Leaves : {W A : Type 0} → (W → Fds) → Fds → Option (A × W) → Type 0
Leaves held n none = Unit {0}
Leaves held n (some (a, w)) = held w ≡ n

pub not_ret : (r : RetCode) (e : Errno) → r ≡ err e → (n : ℕ) → r ≡ ret n → ⊥
not_ret r e h n k = ground arith

module _ {W : Type 0} (ui : Panel W) (files : Files W) (held : W → Fds)
    (laws : HandleLaws ui files held) where
  show_progress-held :
      (screen : Screen) (question : Message) (p : Progress) (clock : Clock) (w : W)
      → held (show_progress ui files screen question p clock w).2 ≡ held w
  unfolding show_progress
  show_progress-held screen question p clock w =
      let (now, w1) = ui.ticks w in
      let k = advance now clock in
      let done = percentage p.index p.partitions in
      let left = time_left (rate p.index k.elapsed) (sub32 p.partitions p.index) in
      let bar = second_bar screen done in
      let w2 = ui.draw screen done left bar w1 in
      let before : held (ui.cancelled w2).1 ≡ held w =
        laws.cancelled w2 ∙ laws.draw screen done left bar w1 ∙ laws.ticks w in
      elim (Bool-cases (ui.cancelled w2).0) [
        | inl pressed ↦
            rw (pressed, show_progress) (laws.confirm question (ui.cancelled w2).1 ∙ before)
        | inr not_pressed ↦ rw (not_pressed, show_progress) before
      ]

  watch-Leaves :
      (screen : Screen) (question : Message) (fuel fd : ℕ) (p : Progress) (clock : Clock) (w : W)
      → Leaves held (held w) (watch ui files screen question fuel fd p clock w)
  unfolding watch
  watch-Leaves screen question zero fd p clock w = tt
  watch-Leaves screen question (suc fuel) fd p clock w =
      elim (Bool-cases (is_one (files.poll fd w).0)) [
        | inr ended ↦ rw (ended, watch) (laws.poll fd w)
        | inl running ↦
            let w1 = (files.poll fd w).1 in
            let shown = show_progress ui files screen question p clock w1 in
            let same : held shown.2 ≡ held w =
              show_progress-held screen question p clock w1 ∙ laws.poll fd w in
            elim (Bool-cases shown.0) [
              | inl stopped ↦ rw (running, watch, stopped) (laws.stop fd shown.2 ∙ same)
              | inr goes_on ↦
                  rw (running, watch, goes_on)
                    (subst
                      (λ n.
                        Leaves held n (watch ui files screen question fuel fd p shown.1 shown.2))
                      same (watch-Leaves screen question fuel fd p shown.1 shown.2))
            ]
      ]

  pub begin_watch-Leaves :
      (screen : Screen) (question : Message) (fuel fd : ℕ) (p : Progress) (w : W)
      → Leaves held (held w) (begin_watch ui files screen question fuel fd p w)
  unfolding begin_watch
  begin_watch-Leaves screen question fuel fd p w =
      let (now, w1) = ui.ticks w in
      let clock : Clock = record { elapsed = 0; previous = now } in
      subst (λ n. Leaves held n (watch ui files screen question fuel fd p clock w1)) (laws.ticks w)
        (watch-Leaves screen question fuel fd p clock w1)

  count_entries-Leaves :
      (fuel bfd n : ℕ) (w : W) → Leaves held (held w) (count_entries files fuel bfd n w)
  unfolding count_entries
  count_entries-Leaves zero bfd n w = tt
  count_entries-Leaves (suc fuel) bfd n w =
      found (files.dread bfd w).0 (count_entries-Leaves fuel bfd (n + 1) (files.dread bfd w).1)
    where
      w1 : W
      w1 = (files.dread bfd w).1

      found :
          (o : Option Dirent)
          → Leaves held (held w1) (count_entries files fuel bfd (n + 1) w1)
          → Leaves held
              (held w)
              (elim o [ none ↦ some (n, w1) | some d ↦ count_entries files fuel bfd (n + 1) w1 ])
      found none rest = laws.dread bfd w
      found (some d) rest =
          subst (λ m. Leaves held m (count_entries files fuel bfd (n + 1) w1)) (laws.dread bfd w)
            rest

  -- A run that goes on from a directory that was opened, up to its closing.
  pub closed :
      {A : Type 0} (n : Fds) (bfd : ℕ) (a : A) (w : W)
      → n bfd ≡ false
      → Leaves held (with_fd bfd n) (some (a, w))
      → Leaves held n (some (a, files.dclose bfd w))
  closed n bfd a w fresh h =
      laws.dclose bfd w ∙ ap (without_fd bfd) h ∙ without_fd-with_fd bfd n fresh

  pub count_partitions-Leaves :
      (fuel : ℕ) (w : W) → Leaves held (held w) (count_partitions files fuel w)
  unfolding count_partitions
  count_partitions-Leaves fuel w = opened (files.dopen w).0 refl
    where
      w1 : W
      w1 = (files.dopen w).1

      ended :
          (bfd : ℕ) (o : Option (ℕ × W))
          → held w bfd ≡ false
          → Leaves held (with_fd bfd (held w)) o
          → Leaves held (held w) (close_dir files bfd o)
      ended bfd none fresh h = tt
      ended bfd (some (n, w2)) fresh h = closed (held w) bfd n w2 fresh h

      opened :
          (r : RetCode)
          → (files.dopen w).0 ≡ r
          → Leaves held (held w) (elim r [
            | err e ↦ some (0, w1)
            | ret bfd ↦ close_dir files bfd (count_entries files fuel bfd 0 w1)
          ])
      opened (err e) eq = laws.no_dir w (not_ret (files.dopen w).0 e eq)
      opened (ret bfd) eq =
          let (fresh, same) = laws.dopen bfd w eq in
          ended bfd (count_entries files fuel bfd 0 w1) fresh (
            subst (λ m. Leaves held m (count_entries files fuel bfd 0 w1)) same
              (count_entries-Leaves fuel bfd 0 w1))
