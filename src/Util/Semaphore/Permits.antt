-- ===== src/Util/Semaphore/Permits.antt =====
-- The permits of `Semaphore` in include/traact/util/Semaphore.h.
use traact_core.Prelude.{
  ℕ, zero, suc, ◌+◌, ◌≤◌, ◌≡◌, refl, [], ◌∷◌, ◌++◌, some, arith, replicate, if◌then◌else◌,
}
use traact_core.Util.Semaphore.{Semaphore, timeout, no_timeout, notify, wait_loop, try_wait}

-- In a thread that excludes all others, `wait_loop` does what `try_wait` does: any number of
-- spurious wake-ups, then the time-out, leave the count unchanged.
pub wait_loop-try_wait :
    (n : ℕ) (s : Semaphore)
    → wait_loop (replicate n (no_timeout, s.count) ++ (timeout, s.count) ∷ []) s ≡ some (try_wait s)
unfolding wait_loop try_wait
wait_loop-try_wait zero s = ground arith
wait_loop-try_wait (suc n) s = ground (arith, wait_loop-try_wait n s)

-- A semaphore with the numbers of permits handed out and of calls of `notify` so far.
pub record Account : Type 0 where
  pub semaphore : Semaphore
  pub taken : ℕ
  pub notified : ℕ

-- The calls that threads make, in any order.
pub data Step : Account → Account → Type 0 where
  notifies :
      (a : Account)
      → Step a (record a { semaphore = notify a.semaphore; notified = a.notified + 1 })
  tries :
      (a : Account)
      → Step a (record a {
        semaphore = (try_wait a.semaphore).1;
        taken = a.taken + (if (try_wait a.semaphore).0 then 1 else 0);
      })

pub data Reach (a : Account) : Account → Type 0 where
  here : Reach a a
  next : {b c : Account} → Reach a b → Step b c → Reach a c

-- What is on hand and what was handed out never exceed what there was at first and what was
-- notified, and the count stays within its maximum.
record IsSound (initial max_count : ℕ) (a : Account) : Type 0 where
  capped : a.semaphore.count ≤ a.semaphore.max_count
  same_max : a.semaphore.max_count ≡ max_count
  accounted : a.semaphore.count + a.taken ≤ initial + a.notified

Step-IsSound : (i m : ℕ) {a b : Account} → Step a b → IsSound i m a → IsSound i m b
unfolding notify try_wait
Step-IsSound i m (notifies a) v = ground arith
Step-IsSound i m (tries a) v = ground arith

Reach-IsSound : (i m : ℕ) {a b : Account} → IsSound i m a → Reach a b → IsSound i m b
Reach-IsSound i m v here = v
Reach-IsSound i m v (next r st) = Step-IsSound i m st (Reach-IsSound i m v r)

-- However threads interleave their calls of `notify` and `try_wait`, the semaphore hands out no
-- more permits than its initial count and the notifications allow, its count never exceeds its
-- maximum, and the maximum never changes.
pub permits_bounded :
    (s : Semaphore) (b : Account)
    → s.count ≤ s.max_count
    → Reach (record { semaphore = s; taken = 0; notified = 0 }) b
    → (b.semaphore.count + b.taken ≤ s.count + b.notified)
      × (b.semaphore.count ≤ b.semaphore.max_count)
      × (b.semaphore.max_count ≡ s.max_count)
permits_bounded s b h r =
    let v : IsSound s.count s.max_count b =
      Reach-IsSound s.count s.max_count
        (record { capped = h; same_max = refl; accounted = omega arith }) r in
    (v.accounted, v.capped, v.same_max)
