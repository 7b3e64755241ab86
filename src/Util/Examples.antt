-- ===== src/Util/Examples.antt =====
-- The theorems about semaphores, waits and ring buffers at concrete ones.
use traact_core.Util.Semaphore.{wait_while}
use traact_core.Prelude.Int.{◌-ℤ◌}
use traact_core.Prelude.{
  ℕ, ◌+◌, ◌-◌, ◌≤◌, ◌<◌, ◌≡◌, refl, min, List, [], ◌∷◌, some, ◌⊎◌, length, get_elem?, arith,
}
use traact_core.Prelude.Int.{pos, pos_part, ◌+ℤ◌, ◌≤ℤ◌}
use traact_core.Util.Semaphore.{Semaphore, WaitForTimestamp, notify, wait_timestamp}
use traact_core.Util.Semaphore.Permits.{Account, here, next, notifies, permits_bounded}
use traact_core.Util.Semaphore.Waits.{wait_timestamp-reached}
use traact_core.Util.CircularBuffer.{init, back, front, range, dynamic_begin, dynamic_end}
use traact_core.Util.CircularBuffer.Window.{slot_of, push_all, push_all-window}
use traact_core.Util.CircularBuffer.Iteration.{range-push_all, dynamic_range-push_all}

abbrev semaphore : Semaphore
semaphore = record { max_count = 2; count = 1 }

abbrev opened : Account
opened = record { semaphore = semaphore; taken = 0; notified = 0 }

abbrev notified_once : Account
notified_once = record { semaphore = notify semaphore; taken = 0; notified = 0 + 1 }

permits_bounded_example :
    ((notify semaphore).count + 0 ≤ 1 + (0 + 1))
    × ((notify semaphore).count ≤ (notify semaphore).max_count)
    × ((notify semaphore).max_count ≡ 2)
permits_bounded_example =
    permits_bounded semaphore notified_once (omega arith) (next here (notifies opened))

abbrev waiting : WaitForTimestamp
waiting = record { current_value = pos 0; max_offset = pos 5 }

abbrev woken : WaitForTimestamp
woken = record { current_value = pos 95; max_offset = pos 5 }

wait_timestamp-reached_example :
    (pos 100 ≤ℤ pos 95 +ℤ (pos 5 +ℤ pos 5)) × (woken.max_offset ≡ pos 5)
unfolding wait_timestamp wait_while ◌-ℤ◌ ◌+ℤ◌
wait_timestamp-reached_example =
    wait_timestamp-reached (pos 100) (pos 50 ∷ pos 95 ∷ []) waiting woken refl

abbrev values : List ℕ
values = 5 ∷ 4 ∷ 3 ∷ 2 ∷ 1 ∷ []

abbrev blank : ℕ → ℕ
blank i = 0

push_all-window_example :
    let b = push_all values (init 3 blank) in
    (b.current_size ≡ min (length values) 3)
    × ((i : ℕ)
        → i < b.current_size
        → get_elem? values i ≡ some (b.data_ (slot_of 3 (pos_part b.current_index) i)))
    × (get_elem? values 0 ≡ some (back b))
    × (get_elem? values (b.current_size - 1) ≡ some (front b))
push_all-window_example = push_all-window 3 blank values (omega arith) (omega arith)

range-push_all_example :
    let b = push_all values (init 3 blank) in
    (length (range b) ≡ min (length values) 3)
    × ((i : ℕ)
        → i < min (length values) 3
        → (slot_of 3 (pos_part b.current_index) i < min (length values) 3)
          × (get_elem? (range b) (slot_of 3 (pos_part b.current_index) i) ≡ get_elem? values i))
range-push_all_example = range-push_all 3 blank values (omega arith)

dynamic_range-push_all_example :
    let b = push_all values (init 3 blank) in
    (dynamic_end b ≡ b.current_size) × (dynamic_begin b ≡ 0)
    ⊎ (dynamic_end b < 3) × (b.current_size ≡ 3) × (dynamic_begin b ≡ dynamic_end b)
dynamic_range-push_all_example = dynamic_range-push_all 3 blank values (omega arith) (omega arith)
