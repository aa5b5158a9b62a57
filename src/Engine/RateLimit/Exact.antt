-- ===== src/Engine/RateLimit/Exact.antt =====
-- Refilling a token bucket of native/sync/src/sync_engine.cpp with whole numbers, on which doubles
-- compute exactly.
use tightrope.Prelude.{
  ℕ, zero, suc, ◌+◌, ◌-◌, ◌*◌, ◌<◌, ◌≤◌, ◌≡◌, refl, ap, ◌∙◌, true, false, ltb, leb, arith,
  Bool-cases, inl, inr,
}
use tightrope.Engine.Doubles.{Doubles, min_double}
use tightrope.Engine.RateLimit.{PeerRateBucket, RateLimits, Steady, refill, capped}

-- IEEE doubles on whole numbers below 2 ^ 53 are exact, a count is rounded without getting past
-- another, and 1e-9 does not reach the next whole number.
pub record IsExact {D : Type 0} (d : Doubles D) : Type 0 where
  pub zero_nat : d.zero ≡ d.of_nat 0
  pub add_nat :
      (a b : ℕ) → a + b < 9007199254740992 → d.add (d.of_nat a) (d.of_nat b) ≡ d.of_nat (a + b)
  pub sub_nat :
      (a b : ℕ) → b ≤ a → a < 9007199254740992 → d.sub (d.of_nat a) (d.of_nat b) ≡ d.of_nat (a - b)
  pub mul_nat :
      (a b : ℕ) → a * b < 9007199254740992 → d.mul (d.of_nat a) (d.of_nat b) ≡ d.of_nat (a * b)
  pub lt_nat : (a b : ℕ) → a < 9007199254740992 → d.lt (d.of_nat a) (d.of_nat b) ≡ ltb a b
  pub le_nat : (a b : ℕ) → b < 9007199254740992 → d.le (d.of_nat a) (d.of_nat b) ≡ leb a b
  pub tolerance_nat :
      (a b : ℕ)
      → a < 9007199254740992
      → d.lt (d.add (d.of_nat a) d.tolerance) (d.of_nat b) ≡ ltb a b

module _ {D : Type 0} (d : Doubles D) (clock : Steady D) (rate burst : ℕ) where
  abbrev pub whole_limits : RateLimits D
  whole_limits = record { entries_per_second = d.of_nat rate; burst_entries = d.of_nat burst }

  abbrev pub full : ℕ → ℕ → PeerRateBucket D
  full tokens now = record { tokens = d.of_nat tokens; last_refill = now; initialized = true }

  module _ (exact : IsExact d) (steady : (a late : ℕ) → clock.seconds a (a + late) ≡ d.of_nat late)
      (burst_fits : burst < 9007199254740992) where
    min_double_nat :
        (a b : ℕ)
        → b < 9007199254740992
        → (m : ℕ) × (min_double d (d.of_nat a) (d.of_nat b) ≡ d.of_nat m) × (m ≤ a) × (m ≤ b)
    min_double_nat a b h = elim (Bool-cases (ltb b a)) [
      | inl e ↦ (b, rw (exact.lt_nat b a h, e) refl, ground (arith, e), omega arith)
      | inr e ↦ (a, rw (exact.lt_nat b a h, e) refl, omega arith, ground (arith, e))
    ]

    -- A refill gives a whole number of tokens, within what was there and was gained.
    refill-full :
        (tokens at late : ℕ)
        → tokens + late * rate < 9007199254740992
        → (m : ℕ) × (refill d clock whole_limits (at + late) (full tokens at) ≡ full m (at + late))
          × (m ≤ tokens + late * rate)
    unfolding refill
    refill-full tokens at zero fits = (
      tokens,
      rw (steady at 0, exact.zero_nat, exact.lt_nat 0 0 (omega arith))
          (ap (full tokens) (omega arith)),
      omega arith,
    )
    refill-full tokens at (suc late) fits =
        let gained : D = d.mul (clock.seconds at (at + suc late)) (d.of_nat rate) in
        let passed : d.lt d.zero (clock.seconds at (at + suc late)) ≡ true =
          rw (steady at (suc late), exact.zero_nat, exact.lt_nat 0 (suc late) (omega arith))
            (ground arith) in
        let sum : d.add (d.of_nat tokens) gained ≡ d.of_nat (tokens + suc late * rate) =
          rw
            (
              steady at (suc late),
              exact.mul_nat (suc late) rate (omega (arith, fits)),
              exact.add_nat tokens (suc late * rate) fits,
            )
            refl in
        let (m, is_m, below, within) = min_double_nat burst (tokens + suc late * rate) fits in
        (
          m,
          rw passed (
              ap (λ t. record { tokens = t; last_refill = at + suc late; initialized = true })
                (ap (min_double d (d.of_nat burst)) sum ∙ is_m)),
          within,
        )

    -- Refilled, a bucket holds a whole number that is within a burst and its budget.
    pub refilled :
        (tokens at late : ℕ)
        → tokens + late * rate < 9007199254740992
        → (t : ℕ) × (capped d clock whole_limits
              (refill d clock whole_limits (at + late) (full tokens at))
            ≡ full t (at + late))
          × (t ≤ burst)
          × (t ≤ tokens + late * rate)
    refilled tokens at late fits =
        let (m, is_m, within) = refill-full tokens at late fits in
        let (t, is_t, below, capped_at) = min_double_nat m burst burst_fits in
        (
          t,
          ap (capped d clock whole_limits) is_m
              ∙ ap (λ k. record { tokens = k; last_refill = at + late; initialized = true }) is_t,
          capped_at,
          omega (arith, below, within),
        )

    -- The first request of a peer finds a burst.
    pub refilled_first :
        (now : ℕ) (bucket : PeerRateBucket D)
        → bucket.initialized ≡ false
        → (t : ℕ) × (capped d clock whole_limits (refill d clock whole_limits now bucket)
            ≡ full t now)
          × (t ≤ burst)
    unfolding refill
    refilled_first now bucket h =
        let (t, is_t, below, capped_at) = min_double_nat burst burst burst_fits in
        (
          t,
          rw h (ap (λ k. record { tokens = k; last_refill = now; initialized = true }) is_t),
          below,
        )
