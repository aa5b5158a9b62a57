-- ===== src/Engine/Doubles.antt =====
-- IEEE doubles, which are the compiler's, as far as native/sync/src/sync_engine.cpp computes with
-- them, and Ewma of native/core/time/include/ewma.h over them.
use tightrope.Prelude.{ℕ, Bool, if◌then◌else◌, Option, none, some}

pub record Doubles (D : Type 0) : Type 0 where
  pub add : D → D → D
  pub sub : D → D → D
  pub mul : D → D → D
  pub lt : D → D → Bool
  pub le : D → D → Bool
  pub of_nat : ℕ → D
  pub zero : D
  pub one : D
  -- 1e-9
  pub tolerance : D
  -- 0.2
  pub ewma_alpha : D

module _ {D : Type 0} (d : Doubles D) where
  -- std::min.
  abbrev pub min_double : D → D → D
  min_double a b = if d.lt b a then b else a

  -- Ewma::update for an alpha between 0 and 1, which clamp_alpha keeps.
  unfoldable pub ewma_update : Option D → D → D
  ewma_update none sample = sample
  ewma_update (some value) sample =
      d.add (d.mul d.ewma_alpha sample) (d.mul (d.sub d.one d.ewma_alpha) value)
