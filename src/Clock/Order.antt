-- ===== src/Clock/Order.antt =====
-- compare_hlc (native/sync/src/hlc.cpp) as an order of stamps.
use tightrope.Prelude.{◌≡◌, ◌↔◌, ◌⊎◌, arith}
use tightrope.Prelude.Int.{pos, negsuc}
use tightrope.Clock.{Hlc, compare_hlc}

-- The two directions of a comparison have opposite signs, it is zero exactly on equal stamps, and
-- it has no other results than -1, 0 and 1.
pub compare_hlc-linear :
    (a b : Hlc)
    → ((compare_hlc a b ≡ pos 1) ↔ (compare_hlc b a ≡ negsuc 0))
      × ((compare_hlc a b ≡ pos 0) ↔ (a ≡ b))
      × ((compare_hlc a b ≡ pos 1) ⊎ (compare_hlc a b ≡ pos 0) ⊎ (compare_hlc a b ≡ negsuc 0))
unfolding compare_hlc
compare_hlc-linear a b =
    ((λ h. ground arith, λ h. ground arith), (λ h. ground arith, λ h. ground arith), ground arith)

-- Being later is transitive.
pub compare_hlc_trans :
    (a b c : Hlc) → compare_hlc a b ≡ pos 1 → compare_hlc b c ≡ pos 1 → compare_hlc a c ≡ pos 1
unfolding compare_hlc
compare_hlc_trans a b c h k = ground arith
