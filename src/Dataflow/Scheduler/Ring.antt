-- ===== src/Dataflow/Scheduler/Ring.antt =====
-- The arithmetic of the ring of `n` time steps. `x` is the time step that is taken next; `age` says
-- how many time steps were taken after `j` was.
use traact_core.Prelude.{ℕ, ◌+◌, ◌-◌, ◌%◌, ◌<◌, ◌≡◌, ltb, ◌==◌, if◌then◌else◌, arith}
use traact_core.Prelude.Wrap.{next_index}

abbrev pub age : ℕ → ℕ → ℕ → ℕ
age n x j = if ltb j x then x - 1 - j else x + n - 1 - j

pub age-next :
    (n x j : ℕ) → x < n → j < n → age n ((x + 1) % n) j ≡ (if j == x then 0 else age n x j + 1)
age-next n x j h k = rw (next_index n x h) (ground arith)
