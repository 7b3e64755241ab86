-- ===== src/Datatypes/Range.antt =====
-- `isWithinRange` of include/traact/datatypes.h.
use traact_core.Prelude.{ℕ, ◌+◌, ◌*◌, ◌^◌, ◌<◌, ◌≡◌, ◌↔◌, true, arith}
use traact_core.Prelude.Int.{ℤ, pos, pos_part, neg_part, ◌+ℤ◌, ◌-ℤ◌, ◌≤ℤ◌, +ℤ_parts, -ℤ_parts}
use traact_core.Datatypes.{Timestamp, TimeDuration, is_within_range, IsInt64}

-- Two timestamps are within range exactly when they differ by at most twice the offset,
-- in either direction.
pub is_within_range_iff :
    (a b : Timestamp) (m : ℕ)
    → (is_within_range a b (pos m) ≡ true) ↔ ((a ≤ℤ b +ℤ pos (2 * m)) × (b ≤ℤ a +ℤ pos (2 * m)))
unfolding is_within_range
is_within_range_iff a b m = ground (
  arith,
  +ℤ_parts a (pos m),
  -ℤ_parts a (pos m),
  +ℤ_parts b (pos m),
  -ℤ_parts b (pos m),
  +ℤ_parts a (pos (2 * m)),
  +ℤ_parts b (pos (2 * m)),
)

pub is_within_range_symm :
    (a b : Timestamp) (m : TimeDuration) → is_within_range a b m ≡ is_within_range b a m
unfolding is_within_range
is_within_range_symm a b m = ground arith

-- For times below 2^62 in size, no sum or difference that `isWithinRange` forms leaves the
-- `int64_t` range.
pub is_within_range_no_overflow :
    (v m : ℤ)
    → pos_part v + neg_part v < 2 ^ 62
    → pos_part m + neg_part m < 2 ^ 62
    → IsInt64 (v -ℤ m) × IsInt64 (v +ℤ m)
unfolding ◌+ℤ◌ ◌-ℤ◌
is_within_range_no_overflow v m hv hm = ground arith
