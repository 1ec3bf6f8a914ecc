-- ===== src/Hdlog/Tests.antt =====
-- A run of the logger over a table of descriptors.
use hddchecker.Prelude.{
  ℕ, ◌≡◌, refl, Bool, true, false, none, List, [], ◌∷◌, arith, ◌==◌, if◌then◌else◌, ret, err, ebusy,
  eio,
}
use hddchecker.Hdlog.{
  Files, TtyFds, mount, unmount, Logger, Call, mounts, unmounts, opens, writes, calls,
}
use hddchecker.Hdlog.Handles.{FileLaws, IsHeld, calls-IsHeld, unmount-mount}

-- The descriptors 0, 1 and 5 as they are open or not; the log file is always descriptor 5.
abbrev Table : Type 0
Table = Bool × Bool × Bool

abbrev is_open : Table → ℕ → Bool
is_open w g = if g == 0 then w.0 else if g == 1 then w.1 else if g == 5 then w.2 else false

abbrev with_tty : Table → Table
with_tty w = if w.0 then if w.1 then w else (true, true, w.2) else (true, w.1, w.2)

abbrev files : Files Table
files = record {
  open_block = λ w. if w.2 then (err eio, w) else (ret 5, (w.0, w.1, true));
  open_tty = with_tty;
  close = λ f w.
      (if f == 0 then false else w.0, if f == 1 then false else w.1, if f == 5 then false else w.2);
  write = λ f n w. (ret n, w);
}

files-FileLaws : FileLaws files is_open
files-FileLaws = record {
  opens = λ fd g w e. ground arith;
  fails = λ g w e. ground arith;
  closes = λ f g w. ground arith;
  tty = λ f g w small e lower. ground (arith, lower 0);
  writes_keep = λ f n g w. refl;
}

abbrev standard : Table
standard = (true, true, false)

abbrev no_log : TtyFds
no_log u = none

no_log-IsHeld : IsHeld files is_open no_log standard
no_log-IsHeld = record { input = refl; output = refl; held = λ fd h. ground arith }

-- The log is mounted and a file is opened on it; the file writes, also after the unmount.
abbrev some_calls : List Call
some_calls = mounts 0 ∷ opens 0 ∷ writes 0 80 ∷ mounts 0 ∷ unmounts 0 ∷ writes 0 80 ∷ []

abbrev fresh : Logger
fresh = record { fds = no_log; opened = [] }

calls-IsHeld_example :
    let done = calls files some_calls fresh standard in IsHeld files is_open (done.0).fds done.1
calls-IsHeld_example =
    calls-IsHeld files is_open files-FileLaws some_calls fresh standard no_log-IsHeld

unmount-mount_example :
    let m = mount files no_log 0 standard in
    let u = unmount files m.1 0 m.2 in
    (m.0 ≡ ret 5)
    × (mount files m.1 0 m.2 ≡ (err ebusy, m.1, m.2))
    × (u.0 ≡ ret 0)
    × (u.1 0 ≡ none)
    × ((g : ℕ) → is_open u.2 g ≡ is_open standard g)
unmount-mount_example =
    unmount-mount files is_open files-FileLaws no_log standard 5 no_log-IsHeld refl refl
