-- ===== src/Hdlog/Handles.antt =====
-- The descriptors that hdlog/main.c has in ttyFds, and the standard ones that a mount opens again.
-- A file that is open on "tty" keeps the descriptor it was opened with, which an unmount closes: what
-- such a file writes to after that is not looked at here.
use hddchecker.Prelude.{
  ℕ, zero, suc, ◌≤◌, ◌≡◌, ◌<◌, ◌∙◌, refl, inl, inr, Bool, true, false, ◌||◌, none, some, List, [],
  ◌∷◌, arith, ◌==◌, if◌then◌else◌, Option-cases, RetCode, ret, err, ebusy, ltb, leb,
}
use hddchecker.Hdlog.{
  Files, TtyFds, set_fd, open_unit, write, redirect, attach, mount, unmount, Logger, private_data,
  Call, mounts, unmounts, opens, writes, call, calls,
}

-- Descriptors as the I/O manager gives them: one that is new, and for "tty00:" the lowest
-- one, where standard input or output is not open.
pub record FileLaws {W : Type 0} (io : Files W) (is_open : W → ℕ → Bool) : Type 0 where
  pub opens :
      (fd g : ℕ) (w : W)
      → (io.open_block w).0 ≡ ret fd
      → (is_open w fd ≡ false) × (is_open (io.open_block w).1 g ≡ ((g == fd) || is_open w g))
  pub fails : (g : ℕ) (w : W) → is_open w g ≡ true → is_open (io.open_block w).1 g ≡ true
  pub closes :
      (f g : ℕ) (w : W) → is_open (io.close f w) g ≡ (if g == f then false else is_open w g)
  pub tty :
      (f g : ℕ) (w : W)
      → f ≤ 1
      → is_open w f ≡ false
      → ((h : ℕ) → h < f → is_open w h ≡ true)
      → is_open (io.open_tty w) g ≡ ((g == f) || is_open w g)
  pub writes_keep : (f n g : ℕ) (w : W) → is_open (io.write f n w).1 g ≡ is_open w g

module _ {W : Type 0} (io : Files W) (is_open : W → ℕ → Bool) where
  -- Standard input and output are open, and so is what the driver holds, which is neither.
  pub record IsHeld (fds : TtyFds) (w : W) : Type 0 where
    pub input : is_open w 0 ≡ true
    pub output : is_open w 1 ≡ true
    pub held : (fd : ℕ) → fds 0 ≡ some fd → (2 ≤ fd) × (is_open w fd ≡ true)

  module _ (laws : FileLaws io is_open) where
    -- Both descriptors are opened again.
    redirect_keeps :
        (w : W) (g : ℕ)
        → is_open w 0 ≡ true
        → is_open w 1 ≡ true
        → is_open (redirect io w) g ≡ is_open w g
    unfolding redirect
    redirect_keeps w g i o = ground (arith, second, first g, closed g)
      where
        w2 : W
        w2 = io.close 1 (io.close 0 w)

        closed : (h : ℕ) → is_open w2 h ≡ (if leb h 1 then false else is_open w h)
        closed h = ground (arith, laws.closes 1 h (io.close 0 w), laws.closes 0 h w)

        first : (h : ℕ) → is_open (io.open_tty w2) h ≡ ((h == 0) || is_open w2 h)
        first h =
            laws.tty 0 h w2 (omega arith) (ground (arith, closed 0)) (λ k lt. absurd (omega arith))

        second : is_open (io.open_tty (io.open_tty w2)) g ≡ ((g == 1) || is_open (io.open_tty w2) g)
        second =
            laws.tty 1 g (io.open_tty w2) (omega arith) (ground (arith, first 1, closed 1))
              (λ k lt. ground (arith, first k))

    mount-IsHeld :
        (u : ℕ) (fds : TtyFds) (w : W)
        → IsHeld fds w
        → IsHeld (mount io fds u w).1 (mount io fds u w).2
    unfolding mount
    mount-IsHeld zero fds w v = elim (Option-cases (fds 0)) [
      | inr (fd, e) ↦ rw e v
      | inl e ↦ rw e (opened (io.open_block w).0 refl)
    ]
      where
        failed : IsHeld fds (io.open_block w).1
        failed = record {
          input = laws.fails 0 w v.input;
          output = laws.fails 1 w v.output;
          held = λ fd h. ground (arith, v.held fd h, laws.fails fd w);
        }

        got :
            (fd : ℕ)
            → (io.open_block w).0 ≡ ret fd
            → IsHeld (set_fd 0 (some fd) fds) (redirect io (io.open_block w).1)
        got fd e =
            let fresh = laws.opens fd in
            let back = redirect_keeps (io.open_block w).1 in
            record {
              input = ground (arith, back 0, fresh 0 w e, fresh 1 w e, v.input, v.output);
              output = ground (arith, back 1, fresh 0 w e, fresh 1 w e, v.input, v.output);
              held = λ g h.
                  let same : g ≡ fd = ground arith in
                  ground
                    (arith, back g, fresh g w e, same, v.input, v.output, fresh 0 w e, fresh 1 w e);
            }

        opened :
            (r : RetCode)
            → (io.open_block w).0 ≡ r
            → IsHeld
                (attach io fds 0 r (io.open_block w).1).1
                (attach io fds 0 r (io.open_block w).1).2
        opened (err x) e = failed
        opened (ret fd) e = got fd e
    mount-IsHeld (suc u) fds w v = let big : ltb (suc u) 1 ≡ false = ground arith in rw big v

    unmount-IsHeld :
        (u : ℕ) (fds : TtyFds) (w : W)
        → IsHeld fds w
        → IsHeld (unmount io fds u w).1 (unmount io fds u w).2
    unfolding unmount
    unmount-IsHeld zero fds w v = elim (Option-cases (fds 0)) [
      | inl e ↦ rw e v
      | inr (fd, e) ↦ rw e (record {
        input = ground (arith, laws.closes fd 0 w, v.held fd e, v.input);
        output = ground (arith, laws.closes fd 1 w, v.held fd e, v.output);
        held = λ g h. ground arith;
      })
    ]
    unmount-IsHeld (suc u) fds w v = let big : ltb (suc u) 1 ≡ false = ground arith in rw big v

    call-IsHeld :
        (c : Call) (t : Logger) (w : W)
        → IsHeld t.fds w
        → IsHeld ((call io c t w).0).fds (call io c t w).1
    unfolding call
    call-IsHeld (mounts u) t w v = mount-IsHeld u t.fds w v
    call-IsHeld (unmounts u) t w v = unmount-IsHeld u t.fds w v
    call-IsHeld (opens u) t w v = elim (Option-cases (open_unit t.fds u).1) [
      | inl e ↦ rw (e, call) v
      | inr (fd, e) ↦ rw (e, call) v
    ]
    call-IsHeld (writes k n) t w v = elim (Option-cases (private_data k t.opened)) [
      | inl e ↦ rw (e, call) v
      | inr (fd, e) ↦ rw (e, call) (written fd)
    ]
      where
        kept : (fd g : ℕ) → is_open (write io fd n w).1 g ≡ is_open w g
        kept fd g = unfold write in ground (arith, laws.writes_keep fd n g w)

        written : (fd : ℕ) → IsHeld t.fds (write io fd n w).1
        written fd = record {
          input = kept fd 0 ∙ v.input;
          output = kept fd 1 ∙ v.output;
          held = λ g h. ground (arith, v.held g h, kept fd g);
        }

    -- From a state with both standard descriptors open and any descriptor that ttyFds has,
    -- whatever mounts, unmounts, openings and writes follow, both are open, and the descriptor that
    -- ttyFds then has is open and is neither of them.
    pub calls-IsHeld :
        (cs : List Call) (t : Logger) (w : W)
        → IsHeld t.fds w
        → IsHeld ((calls io cs t w).0).fds (calls io cs t w).1
    unfolding calls
    calls-IsHeld [] t w v = v
    calls-IsHeld (c ∷ cs) t w v =
        calls-IsHeld cs (call io c t w).0 (call io c t w).1 (call-IsHeld c t w v)

    mounted :
        (fds : TtyFds) (w : W) (fd : ℕ)
        → fds 0 ≡ none
        → (io.open_block w).0 ≡ ret fd
        → mount io fds 0 w ≡ (ret fd, set_fd 0 (some fd) fds, redirect io (io.open_block w).1)
    unfolding mount
    mounted fds w fd e ok = rw (e, ok) refl

    busy :
        (fds : TtyFds) (w : W) (fd : ℕ) → fds 0 ≡ some fd → mount io fds 0 w ≡ (err ebusy, fds, w)
    unfolding mount
    busy fds w fd e = rw e refl

    freed :
        (fds : TtyFds) (w : W) (fd : ℕ)
        → fds 0 ≡ some fd
        → unmount io fds 0 w ≡ (ret 0, set_fd 0 none fds, io.close fd w)
    unfolding unmount
    freed fds w fd e = rw e refl

    -- If no descriptor is held and the log file opens, the mount returns its descriptor; a second
    -- mount is refused and opens nothing; and an unmount leaves open what was open before the
    -- mount, and no descriptor held.
    pub unmount-mount :
        (fds : TtyFds) (w : W) (fd : ℕ)
        → IsHeld fds w
        → fds 0 ≡ none
        → (io.open_block w).0 ≡ ret fd
        → let m = mount io fds 0 w in
          let u = unmount io m.1 0 m.2 in
          (m.0 ≡ ret fd)
          × (mount io m.1 0 m.2 ≡ (err ebusy, m.1, m.2))
          × (u.0 ≡ ret 0)
          × (u.1 0 ≡ none)
          × ((g : ℕ) → is_open u.2 g ≡ is_open w g)
    unmount-mount fds w fd v e ok =
        rw
          (
            mounted fds w fd e ok,
            freed (set_fd 0 (some fd) fds) (redirect io (io.open_block w).1) fd refl,
          )
          (
            refl,
            busy (set_fd 0 (some fd) fds) (redirect io (io.open_block w).1) fd refl,
            refl,
            refl,
            λ g.
                let fresh = laws.opens fd in
                ground (
                  arith,
                  redirect_keeps (io.open_block w).1 g,
                  laws.closes fd g (redirect io (io.open_block w).1),
                  fresh 0 w ok,
                  fresh 1 w ok,
                  fresh g w ok,
                  v.input,
                  v.output,
                ),
          )
