-- ===== src/Prelude/Times.antt =====
-- Dates with times, as `datetime.fromisoformat` reads them.
use Prim.Native.Nat.{ℕ, ◌<◌, ◌≤◌}
use mathlib.Core.Path.{◌≡◌}
use mathlib.Core.Bool.{Bool, true, false}
use mathlib.Core.Option.{Option, none, some}
use native.Mathlib.Omega.{arith}
use pdx_artifact_engine.Prelude.Tests.{ltb}

-- One with an offset, as its point on the time line, or one without, by its local time.
pub data DateTime : Type 0 where
  aware naive : ℕ → DateTime

-- `s < t`; Python does not compare one that has an offset with one that has none, and `none` is its
-- TypeError.
abbrev pub is_before : DateTime → DateTime → Option Bool
is_before (aware a) (aware b) = some (ltb a b)
is_before (naive a) (naive b) = some (ltb a b)
is_before (aware a) (naive b) = none
is_before (naive a) (aware b) = none

-- Both have an offset, or neither has, and their numbers are so related.
pub data Both (R : ℕ → ℕ → Type 0) : DateTime → DateTime → Type 0 where
  both_aware : {a b : ℕ} → R a b → Both R (aware a) (aware b)
  both_naive : {a b : ℕ} → R a b → Both R (naive a) (naive b)

pub is_before-Both : (s t : DateTime) → is_before s t ≡ some true → Both (◌<◌) s t
is_before-Both (aware a) (aware b) h = both_aware (ground arith)
is_before-Both (naive a) (naive b) h = both_naive (ground arith)
is_before-Both (aware a) (naive b) h = absurd (cc)
is_before-Both (naive a) (aware b) h = absurd (cc)

pub Both-is_before : (s t : DateTime) → Both (◌<◌) s t → is_before s t ≡ some true
Both-is_before s t (both_aware lt) = ground arith
Both-is_before s t (both_naive lt) = ground arith

pub not_before-Both : (s t : DateTime) → is_before s t ≡ some false → Both (◌≤◌) t s
not_before-Both (aware a) (aware b) h = both_aware (ground arith)
not_before-Both (naive a) (naive b) h = both_naive (ground arith)
not_before-Both (aware a) (naive b) h = absurd (cc)
not_before-Both (naive a) (aware b) h = absurd (cc)
