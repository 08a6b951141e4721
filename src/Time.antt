-- ===== src/Time.antt =====
-- `Duration` and `TimePoint` of include/pixelstatus/state.hpp. A duration counts milliseconds; a time
-- point counts the ticks of `std::chrono::steady_clock`, which are nanoseconds, from its epoch.
use pixel_status_nx.Prelude.{
  ℕ, suc, ◌+◌, ◌*◌, ◌/◌, ◌≡◌, arith, ℤ, pos, negsuc, pos_part, neg_part, ◌+ℤ◌, ◌-ℤ◌, ◌≤ℤ◌, scale_ℤ,
  scale_ℤ_pos, sub_ℕ, ltb_ℤ, if◌then◌else◌, int_laws,
}

abbrev pub Duration : Type 0
Duration = ℤ

abbrev pub TimePoint : Type 0
TimePoint = ℤ

abbrev pub ticks_per_ms : ℕ
ticks_per_ms = 1_000_000

abbrev pub zero_ms : Duration
zero_ms = pos 0

-- `time + duration`.
unfoldable pub add_duration : TimePoint → Duration → TimePoint
add_duration t d = t +ℤ scale_ℤ ticks_per_ms d

-- `std::chrono::duration_cast<Duration>` of a difference of time points: it truncates towards zero.
unfoldable pub to_ms : ℤ → Duration
to_ms (pos n) = pos (n / ticks_per_ms)
to_ms (negsuc n) = sub_ℕ 0 (suc n / ticks_per_ms)

-- The elapsed time that a reader of a state computes: never below zero.
unfoldable pub elapsed_since : TimePoint → TimePoint → Duration
elapsed_since now start =
    let elapsed = to_ms (now -ℤ start) in if ltb_ℤ elapsed zero_ms then zero_ms else elapsed

-- A sum with a duration of n milliseconds, in parts that `omega` reads.
pub add_duration_parts :
    (t : TimePoint) (n : ℕ)
    → pos_part (add_duration t (pos n)) + neg_part t
      ≡ neg_part (add_duration t (pos n)) + pos_part t + ticks_per_ms * n
unfolding add_duration
add_duration_parts t n = rw scale_ℤ_pos (omega int_laws)

pub elapsed_since-nonneg : (now start : TimePoint) → zero_ms ≤ℤ elapsed_since now start
unfolding elapsed_since
elapsed_since-nonneg now start = ground arith
