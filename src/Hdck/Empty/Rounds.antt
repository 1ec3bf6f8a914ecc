-- ===== src/Hdck/Empty/Rounds.antt =====
-- The rounds of MarkUnreadablePartionAsEmpty.
use native.Mathlib.Nat.{suc-mul}
use hddchecker.Prelude.{
  ℕ, zero, suc, ◌+◌, ◌-◌, ◌*◌, ◌≡◌, ◌≢◌, ◌≤◌, ◌<◌, ◌%◌, ◌∙◌, refl, ap, true, false, Option, none,
  some, arith, ◌==◌, if◌then◌else◌, add32, sub32,
}
use hddchecker.Hdck.{Header}
use hddchecker.Hdck.Empty.{append_empty, mark_round, mark_loop}
use hddchecker.Hdck.Repairs.{Library, top_bit}
use hddchecker.Hdck.Repairs.Laws.{LibraryLaws, save_at}

abbrev link_to : ℕ → Header → Header
link_to lba h = record h { next = lba }

module _ {W : Type 0} (lib : Library W) (at : W → ℕ → Option Header)
    (laws : LibraryLaws lib at) where
  -- The header in front keeps its length.
  append_empty-keeps :
      (parent lba size : ℕ) (p : Header) (w : W)
      → at w parent ≡ some p
      → parent ≢ lba
      → at (append_empty lib parent lba size w).1 parent ≡ some (link_to lba p)
  append_empty-keeps parent lba size p w here apart =
      let w1 = (lib.remove_partition lba (add32 lba size) (lib.peek parent w).start size w).1 in
      let still : at w1 parent ≡ some p =
        laws.remove_keeps lba (add32 lba size) (lib.peek parent w).start size parent w apart
        ∙ here in
      save_at lib.apa at laws.cache parent parent (record (lib.peek parent w1) { next = lba }) w1
      ∙ linked w1 (laws.held parent p w1 still) (ground arith)
    where
      linked :
          (w1 : W)
          → lib.peek parent w1 ≡ p
          → (parent == parent) ≡ true
          → (if parent == parent then some (link_to lba (lib.peek parent w1)) else at w1 parent)
            ≡ some (link_to lba p)
      linked w1 eq self = rw self (ap (λ g. some (link_to lba g)) eq)

  round_takes :
      (parent lba length : ℕ) (p : Header) (w : W)
      → at w parent ≡ some p
      → parent ≢ lba
      → p.length ≤ length
      → length < 4294967296
      → lba % top_bit 31 length ≡ 0
      → mark_round lib parent lba length w
        ≡ some (parent, length - p.length, (append_empty lib parent lba (top_bit 31 length) w).1)
  unfolding mark_round
  round_takes parent lba length p w here apart le small aligned =
      let w1 = (append_empty lib parent lba (top_bit 31 length) w).1 in
      let whole : (lba % top_bit 31 length == 0) ≡ true = ground arith in
      let eq : lib.peek parent w1 ≡ link_to lba p =
        laws.held parent (link_to lba p) w1
          (append_empty-keeps parent lba (top_bit 31 length) p w here apart) in
      rw (whole, mark_round)
        (ap (λ n. some (parent, n, w1)) (ap (λ g. sub32 length g.length) eq ∙ omega arith))

  -- If the partition in front is at another address and not empty, the sectors are a multiple of
  -- its length, below 2 ^ 32, and the address is a multiple of each power of two that they hold,
  -- the loop that marks them as empty ends after exactly as many rounds as that length fits in
  -- them, with less fuel it has no value, and the partition in front keeps its header, but for its
  -- link, which is to the address once there was a round.
  pub mark_loop_total :
      (rounds parent lba length : ℕ) (p : Header) (w : W)
      → at w parent ≡ some p
      → parent ≢ lba
      → p.length ≢ 0
      → length ≡ rounds * p.length
      → length < 4294967296
      → ((n : ℕ) → n ≤ length → lba % top_bit 31 n ≡ 0)
      → (w' : W) × (mark_loop lib (suc rounds) parent lba length w ≡ some w')
        × (mark_loop lib rounds parent lba length w ≡ none)
        × (at w' parent ≡ some (record p { next = if rounds == 0 then p.next else lba }))
  unfolding mark_loop mark_round
  mark_loop_total zero parent lba length p w here apart pos total small aligned =
      let none_left : (length == 0) ≡ true = ground arith in
      (w, rw (none_left, mark_loop) refl, refl, here)
  mark_loop_total (suc rounds) parent lba length p w here apart pos total small aligned =
      let more : suc rounds * p.length ≡ rounds * p.length + p.length = suc-mul rounds p.length in
      let some_left : (length == 0) ≡ false = ground arith in
      let linked : (if rounds == 0 then lba else lba) ≡ (if suc rounds == 0 then p.next else lba) =
        ground arith in
      let step =
        round_takes parent lba length p w here apart (omega arith) small
          (aligned length (omega arith)) in
      let w1 = (append_empty lib parent lba (top_bit 31 length) w).1 in
      let (w', run, too_few, left) =
        mark_loop_total rounds parent lba (length - p.length) (link_to lba p) w1
          (append_empty-keeps parent lba (top_bit 31 length) p w here apart) apart pos (omega arith)
          (omega arith) (λ n le. aligned n (omega arith)) in
      (
        w',
        rw (some_left, step, mark_loop) run,
        rw (some_left, step, mark_loop) too_few,
        left ∙ ap (λ n. some (record p { next = n })) linked,
      )
