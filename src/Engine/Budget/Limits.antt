-- ===== src/Engine/Budget/Limits.antt =====
-- The limits that native/sync/src/sync_engine.cpp reads from the environment.
use Prim.Native.String.{String}
use tightrope.Prelude.{ℕ, ◌≤◌, ◌<◌, ◌≡◌, Option, some, arith, inl, inr, Option-cases}
use tightrope.Prelude.Int.{ℤ, pos, negsuc}
use tightrope.Wire.{Bytes}
use tightrope.Text.Ascii.{codes}
use tightrope.Engine.Budget.{read_env_size_t, read_ingress_limits}
use tightrope.Engine.Budget.Guards.{IsSized}

-- Integers that a long long holds.
abbrev pub IsLong : (Bytes → Option ℤ) → Type 0
IsLong env = (name : Bytes) (n : ℕ) → env name ≡ some (pos n) → n < 9223372036854775808

read_env-bounds :
    (env : Bytes → Option ℤ) (name : Bytes) (fallback : ℕ)
    → IsLong env
    → 1 ≤ fallback
    → fallback < 18446744073709551616
    → (1 ≤ read_env_size_t (env name) fallback 1)
      × (read_env_size_t (env name) fallback 1 < 18446744073709551616)
unfolding read_env_size_t
read_env-bounds env name fallback long low high = elim (Option-cases (env name)) [
  | inl missing ↦ rw missing (low, high)
  | inr (pos n, found) ↦ rw found (ground (arith, low), ground (arith, high, long name n found))
  | inr (negsuc n, found) ↦ rw found (low, high)
]

-- Whatever integers of long long the environment gives, every limit is at least 1, and std::size_t
-- holds the limits of the budget.
pub read_ingress_limits-IsSized :
    (env : Bytes → Option ℤ)
    → IsLong env
    → IsSized (read_ingress_limits env)
      × (1 ≤ (read_ingress_limits env).max_wire_batch_bytes)
      × (1 ≤ (read_ingress_limits env).max_wire_batch_entries)
      × (1 ≤ (read_ingress_limits env).max_inflight_wire_batches)
      × (1 ≤ (read_ingress_limits env).max_inflight_wire_bytes)
      × (1 ≤ (read_ingress_limits env).max_inflight_wire_bytes_per_peer)
      × (1 ≤ (read_ingress_limits env).max_inflight_wire_batches_per_peer)
unfolding read_ingress_limits
read_ingress_limits-IsSized env long =
    let total =
      within "TIGHTROPE_SYNC_MAX_INFLIGHT_WIRE_BYTES" 16777216 (omega arith) (omega arith) in
    let peer_bytes =
      within "TIGHTROPE_SYNC_MAX_INFLIGHT_WIRE_BYTES_PER_PEER" 8388608 (omega arith)
        (omega arith) in
    let peer_batches =
      within "TIGHTROPE_SYNC_MAX_INFLIGHT_WIRE_BATCHES_PER_PEER" 4 (omega arith) (omega arith) in
    (
      (total.1, peer_bytes.1, peer_batches.1),
      (within "TIGHTROPE_SYNC_MAX_WIRE_BATCH_BYTES" 4194304 (omega arith) (omega arith)).0,
      (within "TIGHTROPE_SYNC_MAX_WIRE_BATCH_ENTRIES" 5000 (omega arith) (omega arith)).0,
      (within "TIGHTROPE_SYNC_MAX_INFLIGHT_WIRE_BATCHES" 8 (omega arith) (omega arith)).0,
      total.0,
      peer_bytes.0,
      peer_batches.0,
    )
  where
    within :
        (name : String) (fallback : ℕ)
        → 1 ≤ fallback
        → fallback < 18446744073709551616
        → (1 ≤ read_env_size_t (env (codes name)) fallback 1)
          × (read_env_size_t (env (codes name)) fallback 1 < 18446744073709551616)
    within name fallback = read_env-bounds env (codes name) fallback long
