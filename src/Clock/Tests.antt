-- ===== src/Clock/Tests.antt =====
-- Runs of the clock (native/sync/src/hlc.cpp) at concrete stamps.
use tightrope.Prelude.{◌↔◌, ◌⊎◌, ◌≡◌, refl, arith}
use tightrope.Prelude.Int.{pos, negsuc}
use tightrope.Clock.{Hlc, compare_hlc, on_local_event, on_remote_event}
use tightrope.Clock.Order.{compare_hlc-linear}
use tightrope.Clock.Advance.{on_remote_event-after_remote, on_remote_event_goes_back}

abbrev here : Hlc
here = record { wall = 100; counter = 7; site_id = 1 }

abbrev there : Hlc
there = record { wall = 90; counter = 2; site_id = 2 }

local_event : on_local_event here 120 ≡ record { wall = 120; counter = 8; site_id = 1 }
unfolding on_local_event
local_event = refl

remote_event : on_remote_event there here 80 ≡ record { wall = 100; counter = 8; site_id = 2 }
unfolding on_remote_event
remote_event = refl

compare_hlc-linear_example :
    ((compare_hlc here there ≡ pos 1) ↔ (compare_hlc there here ≡ negsuc 0))
    × ((compare_hlc here there ≡ pos 0) ↔ (here ≡ there))
    × ((compare_hlc here there ≡ pos 1)
        ⊎ (compare_hlc here there ≡ pos 0)
        ⊎ (compare_hlc here there ≡ negsuc 0))
compare_hlc-linear_example = compare_hlc-linear here there

on_remote_event-after_remote_example : compare_hlc (on_remote_event here there 80) there ≡ pos 1
on_remote_event-after_remote_example =
    (on_remote_event-after_remote here there 80 (omega arith) (omega arith)).0

on_remote_event_goes_back_example :
    ((on_remote_event here there 80).wall ≡ here.wall)
    × ((on_remote_event here there 80).counter ≡ 0)
    × ((on_remote_event here there 80).site_id ≡ here.site_id)
    × (compare_hlc (on_remote_event here there 80) here ≡ negsuc 0)
on_remote_event_goes_back_example =
    on_remote_event_goes_back here there 80 (omega arith) (omega arith) (omega arith)
