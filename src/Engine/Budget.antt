-- ===== src/Engine/Budget.antt =====
-- The budget of wire bytes and batches that are being applied, InflightWireBudgetGuard of
-- native/sync/src/sync_engine.cpp, whose steps the mutex makes whole.
pub mod Guards
pub mod Balance
pub mod Limits
use tightrope.Prelude.{
  ℕ, ◌+◌, ◌-◌, ◌%◌, Bool, ltb, leb, ◌||◌, if◌then◌else◌, max, List, [], ◌∷◌, Option, none, some,
}
use tightrope.Prelude.Int.{ℤ, pos, negsuc}
use tightrope.Wire.{Bytes}
use tightrope.Text.Ascii.{codes}
use tightrope.Prelude.Maps.{Ordered, nat_ordered, lookup, insert}

-- The limits that the environment can set.
pub record IngressLimits : Type 0 where
  pub max_wire_batch_bytes : ℕ
  pub max_wire_batch_entries : ℕ
  pub max_inflight_wire_batches : ℕ
  pub max_inflight_wire_bytes : ℕ
  pub max_inflight_wire_bytes_per_peer : ℕ
  pub max_inflight_wire_batches_per_peer : ℕ

abbrev pub default_limits : IngressLimits
default_limits = record {
  max_wire_batch_bytes = 4194304;
  max_wire_batch_entries = 5000;
  max_inflight_wire_batches = 8;
  max_inflight_wire_bytes = 16777216;
  max_inflight_wire_bytes_per_peer = 8388608;
  max_inflight_wire_batches_per_peer = 4;
}

-- A value that is missing or below the minimum gives the fallback; long long to std::size_t.
unfoldable pub read_env_size_t : Option ℤ → ℕ → ℕ → ℕ
read_env_size_t none fallback minimum = fallback
read_env_size_t (some (negsuc n)) fallback minimum = fallback
read_env_size_t (some (pos n)) fallback minimum = if ltb n minimum then fallback else n

-- The limits by the integers that parse_env_integer finds in the environment.
unfoldable pub read_ingress_limits : (Bytes → Option ℤ) → IngressLimits
unfolding read_env_size_t
read_ingress_limits env = record {
  max_wire_batch_bytes =
      read_env_size_t (env (codes "TIGHTROPE_SYNC_MAX_WIRE_BATCH_BYTES"))
        default_limits.max_wire_batch_bytes 1;
  max_wire_batch_entries =
      read_env_size_t (env (codes "TIGHTROPE_SYNC_MAX_WIRE_BATCH_ENTRIES"))
        default_limits.max_wire_batch_entries 1;
  max_inflight_wire_batches =
      read_env_size_t (env (codes "TIGHTROPE_SYNC_MAX_INFLIGHT_WIRE_BATCHES"))
        default_limits.max_inflight_wire_batches 1;
  max_inflight_wire_bytes =
      read_env_size_t (env (codes "TIGHTROPE_SYNC_MAX_INFLIGHT_WIRE_BYTES"))
        default_limits.max_inflight_wire_bytes 1;
  max_inflight_wire_bytes_per_peer =
      read_env_size_t (env (codes "TIGHTROPE_SYNC_MAX_INFLIGHT_WIRE_BYTES_PER_PEER"))
        default_limits.max_inflight_wire_bytes_per_peer 1;
  max_inflight_wire_batches_per_peer =
      read_env_size_t (env (codes "TIGHTROPE_SYNC_MAX_INFLIGHT_WIRE_BATCHES_PER_PEER"))
        default_limits.max_inflight_wire_batches_per_peer 1;
}

pub record InflightWirePeerState : Type 0 where
  pub batches : ℕ
  pub bytes : ℕ
  pub peak_batches : ℕ
  pub peak_bytes : ℕ

pub record InflightWire : Type 0 where
  pub total_bytes : ℕ
  pub by_peer : List (ℕ × InflightWirePeerState)

pub data BudgetError : Type 0 where
  wire_bytes_exceeded : ℕ → BudgetError
  peer_batches_exceeded : ℕ → BudgetError
  peer_bytes_exceeded : ℕ → ℕ → BudgetError

abbrev pub no_inflight : InflightWirePeerState
no_inflight = record { batches = 0; bytes = 0; peak_batches = 0; peak_bytes = 0 }

-- by_peer[site], which makes a state for a new site.
unfoldable pub peer_state : ℕ → List (ℕ × InflightWirePeerState) → InflightWirePeerState
peer_state site by_peer = elim (lookup site by_peer) [ none ↦ no_inflight | some peer ↦ peer ]

-- std::size_t arithmetic.
abbrev pub add_size : ℕ → ℕ → ℕ
add_size a b = (a + b) % 18446744073709551616

-- `max - wire_bytes` is evaluated only where it does not wrap.
abbrev pub over : ℕ → ℕ → ℕ → Bool
over maximum wire_bytes used = ltb maximum wire_bytes || ltb (maximum - wire_bytes) used

abbrev pub charged : ℕ → InflightWirePeerState → InflightWirePeerState
charged wire_bytes peer = record {
  batches = add_size peer.batches 1;
  bytes = add_size peer.bytes wire_bytes;
  peak_batches = max peer.peak_batches (add_size peer.batches 1);
  peak_bytes = max peer.peak_bytes (add_size peer.bytes wire_bytes);
}

-- The constructor: the state, with the error when the guard is not acquired.
unfoldable pub acquire : IngressLimits → ℕ → ℕ → InflightWire → InflightWire × Option BudgetError
acquire limits site wire_bytes s =
    let peer = peer_state site s.by_peer in
    let seen : InflightWire = record s { by_peer = insert site peer s.by_peer } in
    if over limits.max_inflight_wire_bytes wire_bytes s.total_bytes
    then (seen, some (wire_bytes_exceeded wire_bytes))
    else if leb limits.max_inflight_wire_batches_per_peer peer.batches
    then (seen, some (peer_batches_exceeded site))
    else if over limits.max_inflight_wire_bytes_per_peer wire_bytes peer.bytes
    then (seen, some (peer_bytes_exceeded site wire_bytes))
    else (
      record {
        total_bytes = add_size s.total_bytes wire_bytes;
        by_peer = insert site (charged wire_bytes peer) s.by_peer;
      },
      none,
    )

-- The destructor of an acquired guard; the source writes out that subtraction stops at 0.
unfoldable pub release : ℕ → ℕ → InflightWire → InflightWire
release site wire_bytes s =
    let total = s.total_bytes - wire_bytes in
    elim (lookup site s.by_peer) [
      | none ↦ record s { total_bytes = total }
      | some peer ↦ record {
        total_bytes = total;
        by_peer =
            insert site
              (record peer { batches = peer.batches - 1; bytes = peer.bytes - wire_bytes })
              s.by_peer;
      }
    ]

-- inflight_wire_peer_snapshot.
unfoldable pub inflight_snapshot : ℕ → InflightWire → Option InflightWirePeerState
inflight_snapshot site s = if leb site 0 then none else lookup site s.by_peer
