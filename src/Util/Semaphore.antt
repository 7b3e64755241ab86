-- ===== src/Util/Semaphore.antt =====
-- include/traact/util/Semaphore.h. Each method runs under the object's mutex, so it is one step;
-- a `wait` that blocks gives the mutex up, and is told what it finds each time it wakes.

pub mod Permits
pub mod Waits
use mathlib.Core.Option
use traact_core.Prelude.{
  ℕ, ◌+◌, ◌-◌, min, Bool, true, false, List, [], ◌∷◌, Option, none, some, ◌==◌, if◌then◌else◌,
}
use traact_core.Prelude.Int.{◌+ℤ◌, ◌-ℤ◌, ltb_ℤ}
use traact_core.Datatypes.{Timestamp, TimeDuration}

-- `std::cv_status`.
pub data CvStatus : Type 0 where
  timeout no_timeout : CvStatus

pub record Semaphore : Type 0 where
  pub max_count : ℕ
  pub count : ℕ

unfoldable pub notify : Semaphore → Semaphore
notify s = let incremented = s.count + 1 in record s { count = min incremented s.max_count }

-- The rounds of `while(count_ == 0)` in `wait` and `try_wait`. Each entry is one return of
-- `wait_for`: its status, and the count when the mutex is held again. `none`: still blocked.
pub wait_loop : List (CvStatus × ℕ) → Semaphore → Option (Bool × Semaphore)
wait_loop [] s = if s.count == 0 then none else some (true, record s { count = s.count - 1 })
wait_loop ((timeout, c) ∷ wakes) s =
    if s.count == 0
    then some (false, record s { count = c })
    else some (true, record s { count = s.count - 1 })
wait_loop ((no_timeout, c) ∷ wakes) s =
    let again = wait_loop wakes (record s { count = c }) in
    if s.count == 0 then again else some (true, record s { count = s.count - 1 })

-- `try_wait()` with its default timeout of zero, in a thread that excludes all others: the first
-- wait times out with the count unchanged.
unfoldable pub try_wait : Semaphore → Bool × Semaphore
try_wait s = if s.count == 0 then (false, s) else (true, record s { count = s.count - 1 })

-- `WaitForInit`.
pub record WaitForInit : Type 0 where
  pub is_init : Bool

unfoldable pub set_init : Bool → WaitForInit → WaitForInit
set_init init w = record w { is_init = init }

-- `tryWait`: each entry is the status of a `wait_for` and the flag when the mutex is held again.
pub try_wait_init : List (CvStatus × Bool) → WaitForInit → Option Bool
try_wait_init [] w = if w.is_init then some true else none
try_wait_init ((timeout, b) ∷ wakes) w = if w.is_init then some true else some b
try_wait_init ((no_timeout, b) ∷ wakes) w =
    let again = try_wait_init wakes (record w { is_init = b }) in
    if w.is_init then some true else again

-- `WaitForTimestamp`.
pub record WaitForTimestamp : Type 0 where
  pub current_value : Timestamp
  pub max_offset : TimeDuration

unfoldable pub notify_all : Timestamp → WaitForTimestamp → WaitForTimestamp
notify_all value w = record w { current_value = value }

-- The loops of the untimed waits, `while(blocked) cv_.wait(lock)`: the list is what the guarded
-- value is at each wake-up, and the result is the value at which the call returns.
unfoldable pub wait_while {ℓ} : {T : Type ℓ} → (T → Bool) → List T → T → Option T
wait_while blocked [] current = if blocked current then none else some current
wait_while blocked (v ∷ vs) current =
    let again = wait_while blocked vs v in if blocked current then again else some current

-- `WaitForTimestamp::wait`.
unfoldable pub wait_timestamp :
    Timestamp → List Timestamp → WaitForTimestamp → Option WaitForTimestamp
wait_timestamp value wakes w =
    let min_val = value -ℤ (w.max_offset +ℤ w.max_offset) in
    Option.map (λ v. record w { current_value = v })
      (wait_while (λ v. ltb_ℤ v min_val) wakes w.current_value)

-- `WaitForMasterTs`: `notifyAll` stores the timestamp, and `wait` blocks while it is after `ts`.
pub record WaitForMasterTs : Type 0 where
  pub current_ts : Timestamp

pub notify_all_master : Timestamp → WaitForMasterTs → WaitForMasterTs
notify_all_master ts w = record w { current_ts = ts }

pub wait_master : Timestamp → List Timestamp → WaitForMasterTs → Option WaitForMasterTs
wait_master ts wakes w =
    Option.map (λ v. record w { current_ts = v }) (wait_while (λ v. ltb_ℤ ts v) wakes w.current_ts)

-- `WaitForValue<T>` and `WaitForExactValue<T>`, over the tests `<` and `!=` of `T`.
module _ {ℓ} {T : Type ℓ} where
  pub wait_value : (T → T → Bool) → T → List T → T → Option T
  wait_value lt value = wait_while (λ current. lt current value)

  pub wait_exact : (T → T → Bool) → T → List T → T → Option T
  wait_exact ne value = wait_while (λ current. ne current value)

  -- `WaitForExactValue::try_wait`: a time-out returns false, whatever the value is by then.
  pub try_wait_exact : (T → T → Bool) → T → List (CvStatus × T) → T → Option Bool
  try_wait_exact ne value [] current = if ne current value then none else some true
  try_wait_exact ne value ((timeout, v) ∷ wakes) current =
      if ne current value then some false else some true
  try_wait_exact ne value ((no_timeout, v) ∷ wakes) current =
      let again = try_wait_exact ne value wakes v in if ne current value then again else some true
