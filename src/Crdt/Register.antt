-- ===== src/Crdt/Register.antt =====
-- The last-writer-wins register: native/sync/include/crdt/lww_register.h, over any value type.
pub mod Laws
use tightrope.Prelude.{ℕ, Bool, true, false, not, ◌&&◌, ◌||◌, if◌then◌else◌, ltb}
use tightrope.Prelude.Int.{ℤ, pos, negsuc}
use tightrope.Clock.{Hlc, compare_hlc, is_positive}

pub record LwwRegister {ℓ} (T : Type ℓ) : Type ℓ where
  pub value : T
  pub timestamp : Hlc
  pub site_id : ℕ
  pub initialized : Bool

abbrev pub is_zero : ℤ → Bool
is_zero (pos n) = not (ltb 0 n)
is_zero (negsuc n) = false

module _ {ℓ} {T : Type ℓ} where
  unfoldable pub set : LwwRegister T → T → Hlc → ℕ → LwwRegister T
  set r new_value now site = record {
    value = new_value;
    timestamp = now;
    site_id = site;
    initialized = true;
  }

  -- The other register was written later: by time stamp, then by site.
  unfoldable pub is_later : LwwRegister T → LwwRegister T → Bool
  is_later other r =
      let cmp : ℤ = compare_hlc other.timestamp r.timestamp in
      is_positive cmp || (is_zero cmp && ltb r.site_id other.site_id)

  unfoldable pub merge : LwwRegister T → LwwRegister T → LwwRegister T
  merge r other =
      if not other.initialized
      then r
      else if not r.initialized
      then other
      else if is_later other r
      then other
      else r
