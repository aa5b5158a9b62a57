-- ===== src/Engine/RateLimit/Bound.antt =====
-- What the token buckets of native/sync/src/sync_engine.cpp let through in the course of time.
use tightrope.Prelude.{ℕ, ◌+◌, List, [], ◌∷◌}
use tightrope.Prelude.Maps.{nat_ordered}
use tightrope.Engine.Doubles.{Doubles}
use tightrope.Engine.RateLimit.Step.{Request, granted_to}
use tightrope.Engine.RateLimit.Exact.{whole_limits}
use tightrope.Engine.RateLimit.{RateLimits, Steady, Buckets, consume_peer_rate_limit_tokens}

abbrev pub elapsed : List Request → ℕ
elapsed [] = 0
elapsed (r ∷ rs) = r.delay + elapsed rs

module _ {D : Type 0} (d : Doubles D) (clock : Steady D) (rate burst : ℕ) where
  abbrev limits : RateLimits D
  limits = whole_limits d clock rate burst

  -- The entries that a peer is granted by a run of requests.
  unfoldable pub granted : ℕ → ℕ → List Request → Buckets d clock limits → ℕ
  granted peer now [] buckets = 0
  granted peer now (r ∷ rs) buckets =
      let out =
        consume_peer_rate_limit_tokens d clock limits (now + r.delay) r.site r.entries buckets in
      granted_to d clock rate burst peer r.site r.entries out.1
      + granted peer (now + r.delay) rs out.0
