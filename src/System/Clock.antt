-- ===== src/System/Clock.antt =====
-- The estimates that each job of system.c shows, from the 32-bit counter of CPU ticks.
use hddchecker.Prelude.{
  ℕ, ◌+◌, ◌-◌, ◌*◌, ◌/◌, ◌%◌, ◌≤◌, ◌<◌, ◌≡◌, ltb, if◌then◌else◌, arith, u32_mod, add32,
}

abbrev pub uint_max : ℕ
uint_max = 4294967295

abbrev pub ticks_per_second : ℕ
ticks_per_second = 295000000

-- TimeElasped and PreviousCPUTicks
pub record Clock : Type 0 where
  pub elapsed : ℕ
  pub previous : ℕ

-- Whole seconds since `previous`, over one wrap of the counter.
abbrev pub seconds_since : ℕ → ℕ → ℕ
seconds_since previous current =
    (if ltb previous current then current - previous else add32 (uint_max - previous) current)
    / ticks_per_second

unfoldable pub advance : ℕ → Clock → Clock
advance current k =
    let seconds = seconds_since k.previous current in
    if ltb 0 seconds then record { elapsed = add32 k.elapsed seconds; previous = current } else k

abbrev pub percentage : ℕ → ℕ → ℕ
percentage part total = part * 100 / total

abbrev pub rate : ℕ → ℕ → ℕ
rate done elapsed = if ltb 0 elapsed then done / elapsed else 0

unfoldable pub time_left : ℕ → ℕ → ℕ
time_left speed remaining = if ltb 0 speed then remaining / speed else uint_max

-- The clock never runs ahead of the counter: over a counter that has moved on by `t` ticks, less
-- than a whole turn, the time that is added is at most `t` ticks, also when the counter wraps.
pub advance_behind :
    (k : Clock) (t : ℕ)
    → k.previous < u32_mod
    → 0 < t
    → t < u32_mod
    → k.elapsed < 4294967280
    → let k' = advance ((k.previous + t) % u32_mod) k in
      (k.elapsed ≤ k'.elapsed) × ((k'.elapsed - k.elapsed) * ticks_per_second ≤ t)
unfolding advance
advance_behind k t small pos less room = ground arith

-- Where the counter has not moved at all, 14 seconds are added.
pub advance_still :
    (k : Clock)
    → k.previous < u32_mod
    → k.elapsed < 4294967280
    → (advance k.previous k).elapsed ≡ k.elapsed + 14
unfolding advance
advance_still k small room = ground arith
