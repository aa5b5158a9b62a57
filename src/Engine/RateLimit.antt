-- ===== src/Engine/RateLimit.antt =====
-- The token buckets of native/sync/src/sync_engine.cpp, one for each peer.
pub mod Exact
pub mod Step
pub mod Bound
use tightrope.Prelude.{
  ℕ, ◌≡◌, ap, sym, subst, ◌∙◌, Bool, true, false, ◌||◌, not, if◌then◌else◌, ◌==◌, List, Option,
  none, some, arith, Bool-cases, inl, inr, ◌⊎◌, ◌≢◌,
}
use tightrope.Prelude.Maps.{nat_ordered, key_eq-eq, lookup, insert, lookup-insert}
use tightrope.Engine.Doubles.{Doubles, min_double}

-- Times are steady_clock's, of which only differences in seconds are used.
pub record PeerRateBucket (D : Type 0) : Type 0 where
  pub tokens : D
  pub last_refill : ℕ
  pub initialized : Bool

pub record RateLimits (D : Type 0) : Type 0 where
  pub entries_per_second : D
  pub burst_entries : D

pub data RateError : Type 0 where
  over_burst : ℕ → RateError
  no_tokens : ℕ → RateError

-- The clock: the seconds from one reading to a later one, as a double.
pub record Steady (D : Type 0) : Type 0 where
  pub seconds : ℕ → ℕ → D

module _ {D : Type 0} (d : Doubles D) (clock : Steady D) (limits : RateLimits D) where
  abbrev pub Buckets : Type 0
  Buckets = List (ℕ × PeerRateBucket D)

  -- buckets[peer], which makes an empty bucket for a new peer.
  unfoldable pub bucket_of : ℕ → Buckets → PeerRateBucket D
  bucket_of site buckets = elim (lookup site buckets) [
    | none ↦ record { tokens = d.zero; last_refill = 0; initialized = false }
    | some bucket ↦ bucket
  ]

  -- The bucket after the time that has passed.
  unfoldable pub refill : ℕ → PeerRateBucket D → PeerRateBucket D
  refill now bucket =
      if not bucket.initialized
      then record { tokens = limits.burst_entries; last_refill = now; initialized = true }
      else if d.lt d.zero (clock.seconds bucket.last_refill now)
      then record bucket {
        tokens = min_double d limits.burst_entries (
            d.add bucket.tokens
              (d.mul (clock.seconds bucket.last_refill now) limits.entries_per_second));
        last_refill = now;
      }
      else bucket

  abbrev pub capped : PeerRateBucket D → PeerRateBucket D
  capped bucket = record bucket { tokens = min_double d bucket.tokens limits.burst_entries }

  -- `now` is read after the lock is taken. An error leaves the refilled bucket.
  unfoldable pub consume_peer_rate_limit_tokens : ℕ → ℕ → ℕ → Buckets → Buckets × Option RateError
  consume_peer_rate_limit_tokens now site entry_count buckets =
      let requested = d.of_nat entry_count in
      let bucket = capped (refill now (bucket_of site buckets)) in
      if entry_count == 0 || d.le limits.entries_per_second d.zero
      then (buckets, none)
      else if d.lt limits.burst_entries requested
      then (buckets, some (over_burst entry_count))
      else if d.lt (d.add bucket.tokens d.tolerance) requested
      then (insert site bucket buckets, some (no_tokens entry_count))
      else (insert site (record bucket { tokens = d.sub bucket.tokens requested }) buckets, none)

  pub lookup-insert_other :
      (k site : ℕ) (bucket : PeerRateBucket D) (buckets : Buckets)
      → k ≢ site
      → lookup k (insert site bucket buckets) ≡ lookup k buckets
  lookup-insert_other k site bucket buckets ne =
      ground (arith, lookup-insert k site bucket buckets, key_eq-eq site k)
