-- ===== src/Clock.antt =====
-- The hybrid logical clock: native/sync/include/hlc.h and native/sync/src/hlc.cpp.
-- Wall times are 64-bit and never incremented; the 32-bit counter wraps as in the source.
pub mod Order
pub mod Advance
mod Tests
use tightrope.Prelude.{ℕ, ◌+◌, ◌%◌, ◌^◌, max, Bool, true, false, not, if◌then◌else◌, ltb, ◌==◌}
use tightrope.Prelude.Int.{ℤ, pos, negsuc}

pub record Hlc : Type 0 where
  pub wall : ℕ
  pub counter : ℕ
  pub site_id : ℕ

-- The sign of the first field that differs.
unfoldable pub compare_hlc : Hlc → Hlc → ℤ
compare_hlc lhs rhs =
    if not (lhs.wall == rhs.wall)
    then (if ltb lhs.wall rhs.wall then negsuc 0 else pos 1)
    else if not (lhs.counter == rhs.counter)
    then (if ltb lhs.counter rhs.counter then negsuc 0 else pos 1)
    else if not (lhs.site_id == rhs.site_id)
    then (if ltb lhs.site_id rhs.site_id then negsuc 0 else pos 1)
    else pos 0

-- The test `compare_hlc(a, b) > 0`.
abbrev pub is_positive : ℤ → Bool
is_positive (pos n) = ltb 0 n
is_positive (negsuc n) = false

abbrev pub u32_mod : ℕ
u32_mod = 4294967296

-- ++counter on a 32-bit counter.
unfoldable pub next_counter : ℕ → ℕ
next_counter c = (c + 1) % u32_mod

-- The clock is its current stamp; both events return the new one.
unfoldable pub on_local_event : Hlc → ℕ → Hlc
unfolding next_counter
on_local_event current now = record current {
  wall = max current.wall now;
  counter = next_counter current.counter;
}

unfoldable pub on_remote_event : Hlc → Hlc → ℕ → Hlc
unfolding next_counter
on_remote_event current remote now =
    let merged_wall = max (max current.wall remote.wall) now in
    record current {
      wall = merged_wall;
      counter =
          if merged_wall == remote.wall
          then next_counter (max current.counter remote.counter)
          else 0;
    }
