-- ===== src/Engine/RateLimit/Step.antt =====
-- One request of a peer to the token buckets of native/sync/src/sync_engine.cpp, against a budget.
use tightrope.Prelude.{
  ℕ, ◌+◌, ◌-◌, ◌*◌, ◌<◌, ◌≤◌, ◌≡◌, ◌≢◌, ◌⊎◌, ap, sym, ◌∙◌, subst, Bool, true, false, ◌&&◌,
  if◌then◌else◌, ltb, ◌==◌, Option, none, some, arith, Bool-cases, inl, inr,
}
use tightrope.Prelude.Maps.{nat_ordered, lookup, insert, lookup-insert_self}
use tightrope.Engine.Doubles.{Doubles}
use tightrope.Engine.RateLimit.Exact.{IsExact, whole_limits, full, refilled, refilled_first}
use tightrope.Engine.RateLimit.{
  PeerRateBucket, RateError, RateLimits, Steady, Buckets, bucket_of, refill, capped,
  consume_peer_rate_limit_tokens, lookup-insert_other,
}

-- A request: the seconds since the one before it, the peer, and its entries.
pub record Request : Type 0 where
  pub delay : ℕ
  pub site : ℕ
  pub entries : ℕ

abbrev is_granted : Option RateError → Bool
is_granted none = true
is_granted (some err) = false

module _ {D : Type 0} (d : Doubles D) (clock : Steady D) (rate burst : ℕ) where
  abbrev limits : RateLimits D
  limits = whole_limits d clock rate burst

  abbrev holding : ℕ → ℕ → PeerRateBucket D
  holding = full d clock rate burst

  abbrev pub granted_to : ℕ → ℕ → ℕ → Option RateError → ℕ
  granted_to peer site entries err = if site == peer && is_granted err then entries else 0

  -- The peer's bucket and what it gains until now are within a budget.
  abbrev pub Holds : ℕ → ℕ → ℕ → Buckets d clock limits → Type 0
  Holds peer now budget buckets =
      ((lookup peer buckets ≡ none) × (burst ≤ budget))
      ⊎ ((tokens : ℕ) × (at : ℕ) × (late : ℕ) × (lookup peer buckets ≡ some (holding tokens at))
          × (at + late ≡ now)
          × (tokens ≤ burst)
          × (tokens + late * rate ≤ budget))

  module _ (exact : IsExact d) (steady : (a late : ℕ) → clock.seconds a (a + late) ≡ d.of_nat late)
      (rate_given : 0 < rate) (burst_fits : burst < 9007199254740992) where
    -- What a request finds in the peer's bucket.
    found :
        (peer now delay budget : ℕ) (buckets : Buckets d clock limits)
        → budget + delay * rate < 9007199254740992
        → Holds peer now budget buckets
        → (t : ℕ) × (capped d clock limits
              (refill d clock limits (now + delay) (bucket_of d clock limits peer buckets))
            ≡ holding t (now + delay))
          × (t ≤ burst)
          × (t ≤ budget + delay * rate)
    unfolding bucket_of
    found peer now delay budget buckets fits (inl (absent, within)) =
        let (t, is_t, below) =
          refilled_first d clock rate burst exact steady burst_fits (now + delay)
            (bucket_of d clock limits peer buckets) (ground (arith, absent)) in
        (t, is_t, below, omega (arith, within, below))
    found peer now delay budget buckets fits (inr (tokens, at, late, there, time, below, within)) =
        let (t, is_t, capped_at, gained) =
          refilled d clock rate burst exact steady burst_fits tokens at (late + delay)
            (omega (arith, within, fits)) in
        let time' : at + (late + delay) ≡ now + delay = omega (arith, time) in
        (
          t,
          subst
              (λ b.
                capped d clock limits (refill d clock limits (now + delay) b)
                ≡ holding t (now + delay))
              (sym (is_there tokens at there))
              (subst
                (λ n.
                  capped d clock limits (refill d clock limits n (holding tokens at)) ≡ holding t n)
                time' is_t),
          capped_at,
          omega (arith, gained, within),
        )
      where
        is_there :
            (tokens at : ℕ)
            → lookup peer buckets ≡ some (holding tokens at)
            → bucket_of d clock limits peer buckets ≡ holding tokens at
        is_there tokens at there = ground (arith, there)

    abbrev amount : ℕ → Option RateError → ℕ
    amount entries err = if is_granted err then entries else 0

    -- One request of the peer: it takes what it is granted out of the bucket.
    consumed :
        (now peer entries t : ℕ) (buckets : Buckets d clock limits)
        → capped d clock limits (refill d clock limits now (bucket_of d clock limits peer buckets))
          ≡ holding t now
        → t ≤ burst
        → let out = consume_peer_rate_limit_tokens d clock limits now peer entries buckets in
          ((out.0 ≡ buckets) × (amount entries out.1 ≡ 0))
          ⊎ ((left : ℕ) × (out.0 ≡ insert peer (holding left now) buckets)
              × (amount entries out.1 + left ≤ t))
    unfolding consume_peer_rate_limit_tokens
    consumed now peer entries t buckets is_t below =
        let limited : d.le (d.of_nat rate) d.zero ≡ false =
          rw (exact.zero_nat, exact.le_nat rate 0 (omega arith)) (ground (arith, rate_given)) in
        let over = exact.lt_nat burst entries burst_fits in
        let short = exact.tolerance_nat t entries (omega (arith, below, burst_fits)) in
        elim (Bool-cases (entries == 0)) [
          | inl nothing ↦ inl (ground (arith, nothing), ground (arith, nothing))
          | inr something ↦ elim (Bool-cases (ltb burst entries)) [
            | inl e ↦ inl (
              ground (arith, something, limited, over, e),
              ground (arith, something, limited, over, e),
            )
            | inr within ↦ elim (Bool-cases (ltb t entries)) [
              | inl e ↦ inr (
                t,
                rw is_t (ground (arith, something, limited, over, within, short, e)),
                rw is_t (ground (arith, something, limited, over, within, short, e)),
              )
              | inr enough ↦ inr (
                t - entries,
                rw is_t (
                    ground (
                      arith,
                      something,
                      limited,
                      over,
                      within,
                      short,
                      enough,
                      exact.sub_nat t entries,
                    )),
                rw is_t (ground (arith, something, limited, over, within, short, enough)),
              )
            ]
          ]
        ]

    waited :
        (peer now delay budget : ℕ) (buckets : Buckets d clock limits)
        → Holds peer now budget buckets
        → Holds peer (now + delay) (budget + delay * rate) buckets
    waited peer now delay budget buckets (inl (absent, within)) =
        inl (absent, omega (arith, within))
    waited peer now delay budget buckets (inr (tokens, at, late, there, time, below, within)) =
        inr (tokens, at, late + delay, there, omega (arith, time), below, omega (arith, within))

    others_kept :
        (peer now site entries : ℕ) (buckets : Buckets d clock limits)
        → peer ≢ site
        → lookup peer (consume_peer_rate_limit_tokens d clock limits now site entries buckets).0
          ≡ lookup peer buckets
    unfolding consume_peer_rate_limit_tokens
    others_kept peer now site entries buckets away =
        let bucket : PeerRateBucket D =
          capped d clock limits
            (refill d clock limits now (bucket_of d clock limits site buckets)) in
        let spent : PeerRateBucket D = record bucket {
          tokens = d.sub bucket.tokens (d.of_nat entries);
        } in
        ground (
          arith,
          lookup-insert_other d clock limits peer site bucket buckets away,
          lookup-insert_other d clock limits peer site spent buckets away,
        )

    kept :
        (peer now budget : ℕ) (before after : Buckets d clock limits)
        → Holds peer now budget before
        → lookup peer after ≡ lookup peer before
        → Holds peer now budget after
    kept peer now budget before after (inl (absent, within)) same = inl (same ∙ absent, within)
    kept peer now budget before after (inr (tokens, at, late, there, time, below, within)) same =
        inr (tokens, at, late, same ∙ there, time, below, within)

    -- A request of any peer keeps the bucket within what the budget has become, less the grant.
    pub asked :
        (peer now budget : ℕ) (r : Request) (buckets : Buckets d clock limits)
        → budget + r.delay * rate < 9007199254740992
        → Holds peer now budget buckets
        → let out =
            consume_peer_rate_limit_tokens d clock limits
              (now + r.delay)
              r.site
              r.entries
              buckets in
          (after : ℕ) × Holds peer (now + r.delay) after out.0
          × (granted_to peer r.site r.entries out.1 + after ≤ budget + r.delay * rate)
    asked peer now budget r buckets fits holds = elim (Bool-cases (r.site == peer)) [
      | inl same ↦
          let is_peer : r.site ≡ peer = ground (arith, same) in
          let (t, is_t, below, within) = found peer now r.delay budget buckets fits holds in
          elim (consumed (now + r.delay) r.site r.entries t buckets
            (subst
              (λ k.
                capped d clock limits
                  (refill d clock limits (now + r.delay) (bucket_of d clock limits k buckets))
                ≡ holding t (now + r.delay))
              (sym is_peer) is_t)
            below) [
              | inl (unchanged, nothing) ↦ (
                budget + r.delay * rate,
                subst (Holds peer (now + r.delay) (budget + r.delay * rate)) (sym unchanged)
                    (waited peer now r.delay budget buckets holds),
                ground (arith, same, nothing),
              )
              | inr (left, taken, paid) ↦ (
                left,
                inr (
                  left,
                  now + r.delay,
                  0,
                  ap (lookup peer) taken
                      ∙ subst
                          (λ k.
                            lookup peer (insert k (holding left (now + r.delay)) buckets)
                            ≡ some (holding left (now + r.delay)))
                          (sym is_peer)
                          (lookup-insert_self peer (holding left (now + r.delay)) buckets),
                  omega arith,
                  omega (arith, paid, below),
                  omega arith,
                ),
                ground (arith, same, paid, within),
              )
            ]
      | inr other ↦
          let away : peer ≢ r.site = λ e. ground (arith, other, e) in
          (
            budget + r.delay * rate,
            kept peer (now + r.delay) (budget + r.delay * rate) buckets
                (consume_peer_rate_limit_tokens d clock limits (now + r.delay) r.site r.entries
                  buckets).0
                (waited peer now r.delay budget buckets holds)
                (others_kept peer (now + r.delay) r.site r.entries buckets away),
            ground (arith, other),
          )
    ]
