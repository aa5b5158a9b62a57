-- ===== src/Crdt/Register/Laws.antt =====
-- Merging registers (native/sync/include/crdt/lww_register.h) keeps the latest write.
use tightrope.Prelude.{◌≡◌, ◌⊎◌, true, false, arith}
use tightrope.Clock.{compare_hlc}
use tightrope.Crdt.Register.{LwwRegister, is_later, merge}

module _ {ℓ} {T : Type ℓ} where
  is_later_trans :
      (a b c : LwwRegister T) → is_later a b ≡ true → is_later b c ≡ true → is_later a c ≡ true
  unfolding is_later compare_hlc
  is_later_trans a b c h k = ground arith

  -- What is later than a stays later than anything that is not later than a.
  is_later-weak :
      (a b c : LwwRegister T) → is_later a b ≡ true → is_later c b ≡ false → is_later a c ≡ true
  unfolding is_later compare_hlc
  is_later-weak a b c h k = ground arith

  is_later-asym : (a b : LwwRegister T) → is_later a b ≡ true → is_later b a ≡ false
  unfolding is_later compare_hlc
  is_later-asym a b h = ground arith

  is_later-total :
      (a b : LwwRegister T)
      → is_later a b ≡ false
      → is_later b a ≡ false
      → (a.timestamp ≡ b.timestamp) × (a.site_id ≡ b.site_id)
  unfolding is_later compare_hlc
  is_later-total a b h k = (ground arith, ground arith)

  -- Merging is associative and idempotent for all registers.
  pub register_merge_assoc :
      (a b c : LwwRegister T) → (merge (merge a b) c ≡ merge a (merge b c)) × (merge a a ≡ a)
  unfolding merge
  register_merge_assoc a b c = (
    ground (
      arith,
      is_later_trans c b a,
      is_later-weak b a c,
      is_later-weak c a b,
      is_later-weak c b a,
      is_later-asym b a,
      is_later-asym c a,
    ),
    ground arith,
  )

  -- Where one stamp and site name one register, and one of the two has been written, merging
  -- commutes.
  pub register_merge_comm :
      (a b : LwwRegister T)
      → (a.timestamp ≡ b.timestamp → a.site_id ≡ b.site_id → a ≡ b)
      → (a.initialized ≡ true) ⊎ (b.initialized ≡ true)
      → merge a b ≡ merge b a
  unfolding merge
  register_merge_comm a b unique written =
      ground (arith, is_later-asym a b, is_later-asym b a, is_later-total a b)
