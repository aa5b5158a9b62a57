-- ===== src/Clock/Advance.antt =====
-- What the two clock events of native/sync/src/hlc.cpp do to the order of stamps.
use tightrope.Prelude.{ℕ, ◌+◌, ◌<◌, ◌≤◌, ◌≡◌, arith, max}
use tightrope.Prelude.Int.{pos, negsuc}
use tightrope.Clock.{Hlc, compare_hlc, on_local_event, on_remote_event, u32_mod}

-- While the 32-bit counter has room, a local event gives a stamp that is later than the clock
-- was, at or after the wall time, and keeps the site.
pub on_local_event-later :
    (c : Hlc) (now : ℕ)
    → c.counter + 1 < u32_mod
    → (compare_hlc (on_local_event c now) c ≡ pos 1)
      × (now ≤ (on_local_event c now).wall)
      × ((on_local_event c now).site_id ≡ c.site_id)
unfolding on_local_event compare_hlc
on_local_event-later c now h = (ground arith, ground arith, ground arith)

-- While the counters have room, a remote event gives a stamp that is later than the remote one
-- and at or after all three wall times.
pub on_remote_event-after_remote :
    (c r : Hlc) (now : ℕ)
    → c.counter + 1 < u32_mod
    → r.counter + 1 < u32_mod
    → (compare_hlc (on_remote_event c r now) r ≡ pos 1)
      × (c.wall ≤ (on_remote_event c r now).wall)
      × (now ≤ (on_remote_event c r now).wall)
unfolding on_remote_event compare_hlc
on_remote_event-after_remote c r now h k = (ground arith, ground arith, ground arith)

-- A remote event whose stamp or wall time reaches the clock's wall time (while counters have
-- room) also leaves the clock later than it was.
pub on_remote_event-later :
    (c r : Hlc) (now : ℕ)
    → c.counter + 1 < u32_mod
    → r.counter + 1 < u32_mod
    → c.wall < max (r.wall + 1) now
    → compare_hlc (on_remote_event c r now) c ≡ pos 1
unfolding on_remote_event compare_hlc
on_remote_event-later c r now h k ahead = ground arith

-- When the clock's wall time is ahead of the remote stamp and not behind the wall time, the
-- remote event keeps the clock's wall time and site and resets its counter to zero: a clock whose
-- counter was positive goes back.
pub on_remote_event_goes_back :
    (c r : Hlc) (now : ℕ)
    → r.wall < c.wall
    → now ≤ c.wall
    → 0 < c.counter
    → ((on_remote_event c r now).wall ≡ c.wall)
      × ((on_remote_event c r now).counter ≡ 0)
      × ((on_remote_event c r now).site_id ≡ c.site_id)
      × (compare_hlc (on_remote_event c r now) c ≡ negsuc 0)
unfolding on_remote_event compare_hlc
on_remote_event_goes_back c r now h k p = (ground arith, ground arith, ground arith, ground arith)
