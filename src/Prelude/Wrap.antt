-- ===== src/Prelude/Wrap.antt =====
-- Indices that are counted up and wrapped round by `%`.
use Prim.Native.Nat.{ℕ, ◌+◌, ◌-◌, ◌%◌, ◌<◌}
use mathlib.Core.Path.{◌≡◌}
use mathlib.Core.Logic.{inl, inr}
use native.Mathlib.Omega.{arith}
use native.Mathlib.Nat.{mod-eq_of_lt, mod_self}
use traact_core.Prelude.Tests.{◌==◌, if◌then◌else◌, Bool-cases}
use traact_core.Prelude.Int.{ℤ, pos, negsuc, pos_part, neg_part, ◌+ℤ◌, ◌≤ℤ◌, rem_ℤ}

pub next_index : (n x : ℕ) → x < n → (x + 1) % n ≡ (if x + 1 == n then 0 else x + 1)
next_index n x h = elim (Bool-cases (x + 1 == n)) [
  | inl e ↦ ground (arith, mod_self n)
  | inr e ↦ rw e (mod-eq_of_lt (ground arith))
]

pub rem_ℤ-succ :
    (z : ℤ) (n : ℕ) → negsuc 0 ≤ℤ z → rem_ℤ (z +ℤ pos 1) n ≡ pos ((pos_part z + 1 - neg_part z) % n)
unfolding ◌+ℤ◌ rem_ℤ
rem_ℤ-succ (pos a) n p = ground arith
rem_ℤ-succ (negsuc a) n p = ground arith
