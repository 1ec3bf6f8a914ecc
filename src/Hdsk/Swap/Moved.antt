-- ===== src/Hdsk/Swap/Moved.antt =====
-- What SwapPartition leaves of a sub-partition.
use hddchecker.Prelude.{
  ℕ, zero, suc, ◌+◌, ◌≡◌, ◌≢◌, ◌≤◌, ◌<◌, ◌∙◌, refl, sym, ap, inl, inr, true, false, Option, some,
  List, [], ◌∷◌, set, arith, ℕ_discrete, ltb, ◌==◌, if◌then◌else◌, Bool-cases, RetCode, ret,
}
use hddchecker.Hdck.{Header}
use hddchecker.Hdck.Repairs.{Library, sub_at}
use hddchecker.Hdck.Repairs.Laws.{LibraryLaws}
use hddchecker.Hdsk.Swap.{
  moved_to, left_behind, find_sub, put_header, flush_both, rename_sub, swap_sub, swap_main,
  swap_headers,
}

missed : {n m : ℕ} → n ≡ m → (n == m) ≡ false → ⊥
missed e h = ground arith

-- The search ends at the first entry that has the address.
find_sub_first :
    (left i k lba : ℕ) (subs : List (ℕ × ℕ))
    → i ≤ k
    → k < i + left
    → (sub_at k subs).0 ≡ lba
    → ((j : ℕ) → j < k → (sub_at j subs).0 ≢ lba)
    → find_sub left i lba subs ≡ k
unfolding find_sub
find_sub_first zero i k lba subs le lt here before = absurd (omega arith)
find_sub_first (suc left) i k lba subs le lt here before =
    elim (Bool-cases ((sub_at i subs).0 == lba)) [
      | inl found ↦ elim (ℕ_discrete i k) [
        | yes same ↦ rw (found, find_sub) same
        | no other ↦ absurd (before i (omega arith) (ground arith))
      ]
      | inr not_it ↦ elim (ℕ_discrete i k) [
        | yes same ↦ absurd (missed (ap (λ n. (sub_at n subs).0) same ∙ here) not_it)
        | no other ↦
            rw (not_it, find_sub)
              (find_sub_first left (i + 1) k lba subs (omega arith) (omega arith) here before)
      ]
    ]

-- An entry that is set, where the list has it, and the others.
sub_at-set :
    (k : ℕ) (v : ℕ × ℕ) (subs : List (ℕ × ℕ)) → (sub_at k subs).0 ≢ 0 → sub_at k (set subs k v) ≡ v
sub_at-set k v [] pos = absurd (pos refl)
sub_at-set zero v (x ∷ subs) pos = refl
sub_at-set (suc k) v (x ∷ subs) pos = sub_at-set k v subs pos

sub_at-set-other :
    (j k : ℕ) (v : ℕ × ℕ) (subs : List (ℕ × ℕ)) → j ≢ k → sub_at j (set subs k v) ≡ sub_at j subs
sub_at-set-other j k v [] ne = refl
sub_at-set-other zero zero v (x ∷ subs) ne = absurd (ne refl)
sub_at-set-other zero (suc k) v (x ∷ subs) ne = refl
sub_at-set-other (suc j) zero v (x ∷ subs) ne = refl
sub_at-set-other (suc j) (suc k) v (x ∷ subs) ne = sub_at-set-other j k v subs (λ e. ne (ap suc e))

module _ {W : Type 0} (lib : Library W) (at : W → ℕ → Option Header)
    (laws : LibraryLaws lib at) where
  swap_sub_follows :
      (dest start k from : ℕ) (d m : Header) (w : W)
      → at w d.main ≡ some m
      → k < m.nsub
      → (sub_at k m.subs).0 ≡ from
      → ((j : ℕ) → j < k → (sub_at j m.subs).0 ≢ from)
      → swap_sub lib dest start d from w ≡ (
        ret 0,
        flush_both lib dest start (
            (lib.apa).flush_dirty d.main
              (put_header lib d.main (rename_sub k d.start m) ((lib.apa).get d.main w).2)),
      )
  unfolding swap_sub
  swap_sub_follows dest start k from d m w at_main lt here before =
      let got : ((lib.apa).get d.main w).1 ≡ some m = (laws.cache).gets d.main w ∙ at_main in
      let fine : ((lib.apa).get d.main w).0 ≡ ret 0 = (laws.cache).found d.main m w got in
      let search : find_sub m.nsub 0 from m.subs ≡ k =
        find_sub_first m.nsub 0 k from m.subs (omega arith) (omega arith) here before in
      let inside : ltb k m.nsub ≡ true = ground arith in
      rw (got, search, inside, fine, swap_sub) refl

  -- The two headers in the cache.
  abbrev both_put : ℕ → ℕ → Header → Header → W → W
  both_put dest start d s w =
      put_header lib start (left_behind s) (put_header lib dest (moved_to d s) w)

  both_put_at :
      (dest start l : ℕ) (d s : Header) (w : W)
      → at (both_put dest start d s w) l ≡ (
          if l == start
          then some (left_behind s)
          else if l == dest
          then some (moved_to d s)
          else at w l)
  both_put_at dest start l d s w =
      (laws.cache).puts start l (left_behind s) (put_header lib dest (moved_to d s) w)
      ∙ ap (λ o. if l == start then some (left_behind s) else o)
          ((laws.cache).puts dest l (moved_to d s) w)

  abbrev swapped : ℕ → ℕ → RetCode → W → Header → Header → RetCode × W
  swapped dest start result w d s =
      if s.is_sub
      then swap_sub lib dest start (moved_to d s) s.start (both_put dest start d s w)
      else swap_main lib dest start (moved_to d s) result (both_put dest start d s w)

  swap_headers-swapped :
      (dest start : ℕ) (d s : Header) (result : RetCode) (w : W)
      → at w dest ≡ some d
      → at w start ≡ some s
      → swap_headers lib dest start result w ≡ swapped dest start result w d s
  unfolding swap_headers
  swap_headers-swapped dest start d s result w at_dest at_start =
      ap (λ h. swapped dest start result w h (lib.peek start w)) (laws.held dest d w at_dest)
      ∙ ap (λ h. swapped dest start result w d h) (laws.held start s w at_start)

  -- What the change of the main partition's header leaves.
  follow_at :
      (dest start main l : ℕ) (h : Header) (w : W)
      → at
          (flush_both lib dest start
            ((lib.apa).flush_dirty main (put_header lib main h ((lib.apa).get main w).2)))
          l
        ≡ (if l == main then some h else at w l)
  follow_at dest start main l h w =
      let w1 = put_header lib main h ((lib.apa).get main w).2 in
      let w2 = (lib.apa).flush_dirty main w1 in
      (laws.cache).flush_keeps start l ((lib.apa).flush_dirty dest w2)
      ∙ (laws.cache).flush_keeps dest l w2
      ∙ (laws.cache).flush_keeps main l w1
      ∙ (laws.cache).puts main l h ((lib.apa).get main w).2
      ∙ ap (λ o. if l == main then some h else o) ((laws.cache).get_keeps main l w)

  -- Every header after the swap of a sub-partition.
  swap_sub_at :
      (dest start k : ℕ) (d s m : Header) (result : RetCode) (w : W)
      → at w dest ≡ some d
      → at w start ≡ some s
      → at w s.main ≡ some m
      → s.main ≢ dest
      → s.main ≢ start
      → s.is_sub ≡ true
      → k < m.nsub
      → (sub_at k m.subs).0 ≡ s.start
      → ((j : ℕ) → j < k → (sub_at j m.subs).0 ≢ s.start)
      → let r = swap_headers lib dest start result w in
        (r.0 ≡ ret 0)
        × ((l : ℕ)
            → at r.1 l ≡ (
                if l == s.main
                then some (rename_sub k d.start m)
                else if l == start
                then some (left_behind s)
                else if l == dest
                then some (moved_to d s)
                else at w l))
  swap_sub_at dest start k d s m result w at_dest at_start at_main apart2 apart3 is_sub lt here
        before =
      let w1 = both_put dest start d s w in
      let not_start : (s.main == start) ≡ false = ground arith in
      let not_dest : (s.main == dest) ≡ false = ground arith in
      let still : at w1 s.main ≡ some m =
        both_put_at dest start s.main d s w ∙ rw (not_start, not_dest) at_main in
      let run : swap_headers lib dest start result w ≡ (
        ret 0,
        flush_both lib dest start (
            (lib.apa).flush_dirty s.main
              (put_header lib s.main (rename_sub k d.start m) ((lib.apa).get s.main w1).2)),
      ) =
        swap_headers-swapped dest start d s result w at_dest at_start
        ∙ ap
            (λ b.
              if b
              then swap_sub lib dest start (moved_to d s) s.start w1
              else swap_main lib dest start (moved_to d s) result w1)
            is_sub
        ∙ swap_sub_follows dest start k s.start (moved_to d s) m w1 still lt here before in
      (
        ap (λ r. r.0) run,
        λ l.
            ap (λ r. at r.1 l) run
            ∙ follow_at dest start s.main l (rename_sub k d.start m) w1
            ∙ ap (λ o. if l == s.main then some (rename_sub k d.start m) else o)
                (both_put_at dest start l d s w),
      )

  -- If the address of a sub-partition, which is not 0, is first named by entry k of its main
  -- partition's list, and the destination, the source and the main partition are three headers, the
  -- swap returns 0. The main partition's header keeps all but entry k of its list, which gets the
  -- address of the destination and keeps its length; the source has the header of a partition
  -- without sub-partitions, in its own place; the destination has the source's header with its own
  -- start and links; and no other header changes.
  pub swap_sub_moves :
      (dest start k : ℕ) (d s m : Header) (result : RetCode) (w : W)
      → at w dest ≡ some d
      → at w start ≡ some s
      → at w s.main ≡ some m
      → dest ≢ start
      → s.main ≢ dest
      → s.main ≢ start
      → s.is_sub ≡ true
      → k < m.nsub
      → s.start ≢ 0
      → (sub_at k m.subs).0 ≡ s.start
      → ((j : ℕ) → j < k → (sub_at j m.subs).0 ≢ s.start)
      → let r = swap_headers lib dest start result w in
        (r.0 ≡ ret 0)
        × ((g : Header) × (at r.1 s.main ≡ some g)
            × (g ≡ record m { subs = g.subs })
            × (sub_at k g.subs ≡ (d.start, (sub_at k m.subs).1))
            × ((j : ℕ) → j ≢ k → sub_at j g.subs ≡ sub_at j m.subs))
        × (at r.1 start
            ≡ some (record {
              start = s.start;
              length = s.length;
              next = s.next;
              prev = s.prev;
              kind = s.kind;
              is_sub = false;
              main = 0;
              number = 0;
              nsub = 0;
              subs = [];
            }))
        × (at r.1 dest
            ≡ some (record {
              start = d.start;
              length = s.length;
              next = d.next;
              prev = d.prev;
              kind = s.kind;
              is_sub = true;
              main = s.main;
              number = s.number;
              nsub = s.nsub;
              subs = s.subs;
            }))
        × ((l : ℕ) → l ≢ s.main → l ≢ start → l ≢ dest → at r.1 l ≡ at w l)
  swap_sub_moves dest start k d s m result w at_dest at_start at_main apart apart2 apart3 is_sub lt
        pos here before =
      let (done, each) =
        swap_sub_at dest start k d s m result w at_dest at_start at_main apart2 apart3 is_sub lt
          here before in
      let self : (n : ℕ) → (n == n) ≡ true = λ n. ground arith in
      let differ : (n i : ℕ) → n ≢ i → (n == i) ≡ false = λ n i ne. ground arith in
      (
        done,
        (
          rename_sub k d.start m,
          each s.main ∙ rw (self s.main) refl,
          refl,
          sub_at-set k (d.start, (sub_at k m.subs).1) m.subs (λ z. pos (sym here ∙ z)),
          λ j ne. sub_at-set-other j k (d.start, (sub_at k m.subs).1) m.subs ne,
        ),
        each start ∙ rw (differ start s.main (λ e. apart3 (sym e)), self start) refl,
        each dest
            ∙ rw (differ dest s.main (λ e. apart2 (sym e)), differ dest start apart, self dest)
                (ap (λ b. some (record (moved_to d s) { is_sub = b })) is_sub),
        λ l n1 n2 n3. each l ∙ rw (differ l s.main n1, differ l start n2, differ l dest n3) refl,
      )
