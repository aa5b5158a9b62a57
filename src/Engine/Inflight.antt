-- ===== src/Engine/Inflight.antt =====
-- The count of batches that are being applied, InflightBatchGuard of native/sync/src/sync_engine.cpp:
-- a compare-and-exchange loop that threads run against each other.
use tightrope.Prelude.{
  ℕ, suc, ◌+◌, ◌-◌, ◌≤◌, ◌<◌, ◌≡◌, refl, Bool, not, ◌&&◌, if◌then◌else◌, ltb, ◌==◌, List, [], ◌∷◌,
  arith,
}

-- What one round of the loop comes to, for a thread that has read `current`: the count after it, or
-- what is read for the next round.
pub data Attempt : Type 0 where
  acquired : ℕ → Attempt
  retry : ℕ → Attempt
  given_up : Attempt

-- compare_exchange_weak fails when the count is not `current`, and may fail when it is.
unfoldable pub attempt : ℕ → Bool → ℕ → ℕ → Attempt
attempt limit spurious current inflight =
    if ltb current limit
    then (if not spurious && inflight == current then acquired (current + 1) else retry inflight)
    else given_up

-- The threads in the loop, by what each has read.
pub data Leaves (current : ℕ) : List ℕ → List ℕ → Type 0 where
  first : {ts : List ℕ} → Leaves current (current ∷ ts) ts
  later :
      {other : ℕ} {ts rest : List ℕ}
      → Leaves current ts rest
      → Leaves current (other ∷ ts) (other ∷ rest)

-- The count, the threads in the loop, and the number of guards held.
pub data Runs (limit : ℕ) : ℕ → List ℕ → ℕ → Type 0 where
  idle : Runs limit 0 [] 0
  loads : {n held : ℕ} {ts : List ℕ} → Runs limit n ts held → Runs limit n (n ∷ ts) held
  acquires :
      {n n' held current : ℕ} {ts rest : List ℕ} (spurious : Bool)
      → Leaves current ts rest
      → attempt limit spurious current n ≡ acquired n'
      → Runs limit n ts held
      → Runs limit n' rest (suc held)
  retries :
      {n held current next : ℕ} {ts rest : List ℕ} (spurious : Bool)
      → Leaves current ts rest
      → attempt limit spurious current n ≡ retry next
      → Runs limit n ts held
      → Runs limit n (next ∷ rest) held
  gives_up :
      {n held current : ℕ} {ts rest : List ℕ} (spurious : Bool)
      → Leaves current ts rest
      → attempt limit spurious current n ≡ given_up
      → Runs limit n ts held
      → Runs limit n rest held
  releases : {n held : ℕ} {ts : List ℕ} → Runs limit n ts (suc held) → Runs limit (n - 1) ts held

attempt-acquired :
    (limit current n n' : ℕ) (spurious : Bool)
    → attempt limit spurious current n ≡ acquired n'
    → (n < limit) × (n' ≡ suc n)
unfolding attempt
attempt-acquired limit current n n' spurious h = (ground (arith, h), ground (arith, h))

-- However the threads interleave, and however often the exchange fails, the count is the number of
-- guards held, and that is never over the limit.
pub attempt-bounds :
    (limit n held : ℕ) (ts : List ℕ) → Runs limit n ts held → (n ≡ held) × (held ≤ limit)
attempt-bounds limit _ _ _ idle = (refl, omega arith)
attempt-bounds limit _ _ _ (loads {n} {held} {ts} r) = attempt-bounds limit n held ts r
attempt-bounds limit _ _ _ (acquires {n} {n'} {held} {current} {ts} spurious l h r) =
    let (below, next) = attempt-acquired limit current n n' spurious h in
    let (same, bound) = attempt-bounds limit n held ts r in
    (omega (arith, next, same), omega (arith, below, same))
attempt-bounds limit _ _ _ (retries {n} {held} {current} {next} {ts} spurious l h r) =
    attempt-bounds limit n held ts r
attempt-bounds limit _ _ _ (gives_up {n} {held} {current} {ts} spurious l h r) =
    attempt-bounds limit n held ts r
attempt-bounds limit _ _ _ (releases {n} {held} {ts} r) =
    let (same, bound) = attempt-bounds limit n (suc held) ts r in
    (omega (arith, same), omega (arith, bound))
